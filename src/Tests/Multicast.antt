-- ===== src/Tests/Multicast.antt =====
-- One group at the server, and one at a member.
use asio_kcp.Prelude.{
  Bytes, Option, ℕ, ◌+◌, ◌<◌, ◌≤◌, ◌%◌, ◌≡◌, ◌≢◌, refl, Bool, true, false, List, [], ◌∷◌, ◌++◌,
  some, codes, arith, length, u32_mod, Exists,
}
use asio_kcp.Prelude.Maps.{lookup, insert}
use asio_kcp.StdText.{format_unsigned}
use asio_kcp.UdpMulticast
use asio_kcp.UdpMulticast.{
  MulticastGroup, UdpMulticastManager, Datagram, seq_msg, send_reliable_to_group, retransmissions,
}
use asio_kcp.UdpMulticast.Timers.{idle}
use asio_kcp.UdpMulticast.Pending.{
  Call, sends, acks, retransmits, after, pending, sends_to, sent_msgs-pending,
}
use asio_kcp.Server.{Endpoint}
use asio_kcp.UdpMulticast.Groups.{IsNumbered}
use asio_kcp.UdpMulticast.Storm.{retransmit_storm, fires, IsStorming, times}
use asio_kcp.MulticastClient.{
  MulticastClient, GroupInfo, JoinCalls, receive, callback, send_to_group, stop,
}
use asio_kcp.MulticastClient.Delivery.{ack_seq, receive-seq_msg, receive_plain}
use asio_kcp.MulticastClient.Sockets.{
  HoldsItsSockets, perform_all, perform_all-HoldsItsSockets, stop_lem, count, join, leave,
  stop_thread,
}

abbrev everything : Datagram → Bool
everything d = true

abbrev group : MulticastGroup
group = record {
  endpoint = record { address = 0xefff0001; port = 30001 };
  next_seq = 0;
  sent_msgs = [];
  retransmit_timer = record { waiting = 0; ready = 0 };
}

abbrev manager : UdpMulticastManager
manager = record { groups = (1, group) ∷ []; next_group_id = 2 }

group_found : lookup 1 manager.groups ≡ some group
unfolding lookup
group_found = refl

manager-IsNumbered : IsNumbered manager
manager-IsNumbered = record {
  ordered = (omega arith, tt);
  given_out = (omega arith, tt);
  first = omega arith;
}

abbrev opens : Bytes → ℕ → Option Endpoint
opens addr port = some (record { address = 0xefff0002; port = port })

abbrev calls : List Call
calls = acks 1 0 ∷ sends 1 (codes "b") ∷ retransmits 1 ∷ sends 1 (codes "a") ∷ []

sent_msgs-pending_example :
    (group' : MulticastGroup) × (lookup 1 (after everything calls manager).groups ≡ some group')
    × (group'.next_seq ≡ sends_to 1 calls)
    × ((s : ℕ) → lookup s group'.sent_msgs ≡ pending 1 calls s)
sent_msgs-pending_example =
    sent_msgs-pending everything 1 calls manager group (omega arith) group_found refl refl

retransmit_storm_example :
    let msgs = insert ((0 + 1) % u32_mod) (codes "b") (insert 0 (codes "a") []) in
    let m' =
      (send_reliable_to_group everything 1
        (codes "b")
        (send_reliable_to_group everything 1 (codes "a") manager).0).0 in
    IsStorming everything 1 group.endpoint msgs (fires everything 100 1 m').0
    × ((fires everything 100 1 m').1
        ≡ times everything 100 (retransmissions everything group.endpoint msgs))
retransmit_storm_example =
    retransmit_storm everything 100 1 (codes "a") (codes "b") manager group (λ d. refl) group_found
      refl

abbrev info : GroupInfo
info = record { multicast_addr = codes "239.255.0.1"; port = 30001; socket_fd = 5; last_seq = 0 }

abbrev member : MulticastClient
member = record {
  groups = (7, info) ∷ [];
  running = true;
  has_callback = true;
  open_fds = 5 ∷ 1 ∷ [];
}

info_found : lookup 7 member.groups ≡ some info
unfolding lookup
info_found = refl

receive-seq_msg_example :
    (3 ≢ ack_seq
      → receive 7 (seq_msg 3 (codes "hi")) member
        ≡ callback 7 (codes "hi")
          ∷ send_to_group (codes "239.255.0.1") 30001 (codes "ACK:" ++ format_unsigned 3)
          ∷ [])
    × (3 ≡ ack_seq → receive 7 (seq_msg 3 (codes "hi")) member ≡ [])
receive-seq_msg_example = receive-seq_msg 7 3 (codes "hi") member info (omega arith) refl info_found

-- A group of the server, whose datagrams all leave.
abbrev five : UdpMulticastManager
five = record {
  groups =
      (
        5,
        record {
          endpoint = record { address = 0xefff0001; port = 30001 };
          next_seq = 0;
          sent_msgs = [];
          retransmit_timer = idle;
        },
      )
      ∷ [];
  next_group_id = 6;
}

receive_plain_example :
    (length (codes "hello") < 4
      → receive 7 (codes "hello") member ≡ callback 7 (codes "hello") ∷ [])
    × (4 ≤ length (codes "hello")
        → ¬ Exists (λ a. a ≡ callback 7 (codes "hello")) (receive 7 (codes "hello") member))
unfolding UdpMulticast.send_to_group lookup
receive_plain_example =
    receive_plain (λ d. true) 5 7 (codes "hello") five
      (record { address = 0xefff0001; port = 30001 }, codes "hello") member refl refl

abbrev good_calls : JoinCalls
good_calls = record {
  socket = some 6;
  reuse_address = true;
  non_blocking = true;
  bind = true;
  add_membership = true;
}

member-HoldsItsSockets : HoldsItsSockets (1 ∷ []) member
member-HoldsItsSockets fd = ground arith

perform_all-HoldsItsSockets_example : HoldsItsSockets (1 ∷ []) (
    perform_all (join good_calls (codes "239.255.0.2") 30002 8 ∷ leave 7 ∷ stop_thread ∷ []) member)
perform_all-HoldsItsSockets_example =
    perform_all-HoldsItsSockets (1 ∷ [])
      (join good_calls (codes "239.255.0.2") 30002 8 ∷ leave 7 ∷ stop_thread ∷ []) member
      member-HoldsItsSockets

stop_lem_example :
    (member.running ≡ true
      → ((stop member).groups ≡ [])
        × ((fd : ℕ) → count fd (stop member).open_fds ≡ count fd (1 ∷ [])))
    × (member.running ≡ false → stop member ≡ member)
stop_lem_example = stop_lem (1 ∷ []) member member-HoldsItsSockets
