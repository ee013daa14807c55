-- ===== src/UdpMulticast.antt =====
-- server_lib/udp_multicast_manager.cpp: the multicast groups of the server. A call holds the mutex for
-- as long as it reads or writes the groups, and the calls are taken one after the other.
-- The sockets, the random numbers and the timers of Boost.Asio are arguments or counted here.
pub mod Timers
pub mod Pending
pub mod Storm
pub mod Groups
use asio_kcp.Prelude.{
  ℕ, ◌+◌, ◌/◌, ◌%◌, ◌*◌, ◌^◌, Bool, true, false, ◌||◌, List, [], ◌∷◌, ◌++◌, Option, none, some,
  Bytes, codes, length, u32_mod, ◌==◌, if◌then◌else◌,
}
use asio_kcp.Prelude.Maps.{Map, lookup, insert, erase}
use asio_kcp.Server.{Endpoint}
use asio_kcp.StdText.{format_unsigned}
use Timers.{Timer, idle, cancel, expires_from_now, async_wait}

-- `MulticastGroup`; the socket, which only sends, is open.
pub record MulticastGroup : Type 0 where
  pub endpoint : Endpoint
  pub next_seq : ℕ
  pub sent_msgs : Map Bytes
  pub retransmit_timer : Timer

pub record UdpMulticastManager : Type 0 where
  pub groups : Map MulticastGroup
  pub next_group_id : ℕ

-- A datagram that the socket of a group sends.
abbrev pub Datagram : Type 0
Datagram = Endpoint × Bytes

-- `htonl` and `memcpy`: the bytes of a 32-bit number, the highest first.
unfoldable pub net_u32 : ℕ → Bytes
net_u32 n = n / 2 ^ 24 % 256 ∷ n / 2 ^ 16 % 256 ∷ n / 2 ^ 8 % 256 ∷ n % 256 ∷ []

-- [SEQ: 4 bytes][MSG: the rest].
unfoldable pub seq_msg : ℕ → Bytes → Bytes
unfolding net_u32
seq_msg seq msg = net_u32 seq ++ msg

abbrev pub multicast_prefix : Bytes
multicast_prefix = codes "239.255."

abbrev pub multicast_port_min : ℕ
multicast_port_min = 30000

abbrev pub multicast_port_max : ℕ
multicast_port_max = 40000

unfoldable pub create : UdpMulticastManager
create = record { groups = []; next_group_id = 1 }

-- The random numbers: two of 0 to 255, one of the range of ports.
unfoldable pub generate_multicast_address : ℕ → ℕ → ℕ → Bytes × ℕ
generate_multicast_address x y port =
    (multicast_prefix ++ format_unsigned x ++ codes "." ++ format_unsigned y, port)

-- What is put to use: the address asked for, or a random one.
abbrev pub chosen : Bytes → ℕ → Bytes × ℕ → Bytes × ℕ
chosen [] port random = random
chosen (b ∷ bs) port random = if port == 0 then random else (b ∷ bs, port)

-- `open` parses the address and opens the socket; `none` stands for an exception.
module _ (open_socket : Bytes → ℕ → Option Endpoint) where
  unfoldable pub init_group_socket : Bytes → ℕ → Option MulticastGroup
  unfolding idle
  init_group_socket multicast_addr port = elim (open_socket multicast_addr port) [
    | none ↦ none
    | some ep ↦
        some (record { endpoint = ep; next_seq = 0; sent_msgs = []; retransmit_timer = idle })
  ]

  -- 0 stands for a failure, which uses up the id.
  unfoldable pub create_group :
      Bytes → ℕ → Bytes × ℕ → UdpMulticastManager → UdpMulticastManager × ℕ
  unfolding init_group_socket
  create_group multicast_addr port random m =
      let group_id = m.next_group_id in
      let m' = record m { next_group_id = (group_id + 1) % u32_mod } in
      let (mc_addr, mc_port) = chosen multicast_addr port random in
      elim (init_group_socket mc_addr mc_port) [
        | none ↦ (m', 0)
        | some group ↦ (record m' { groups = insert group_id group m.groups }, group_id)
      ]

-- The timer's handler that `cancel` leaves behind finds no group.
unfoldable pub delete_group : ℕ → UdpMulticastManager → UdpMulticastManager × Bool
delete_group group_id m = elim (lookup group_id m.groups) [
  | none ↦ (m, false)
  | some group ↦ (record m { groups = erase group_id m.groups }, true)
]

unfoldable pub handle_ack : ℕ → ℕ → UdpMulticastManager → UdpMulticastManager
handle_ack group_id seq m = elim (lookup group_id m.groups) [
  | none ↦ m
  | some group ↦ record m {
    groups = insert group_id (record group { sent_msgs = erase seq group.sent_msgs }) m.groups;
  }
]

-- `to_string` prints the address of an endpoint.
unfoldable pub get_group_info : (Endpoint → Bytes) → ℕ → UdpMulticastManager → Bytes
get_group_info to_string group_id m = elim (lookup group_id m.groups) [
  | none ↦ codes "Group not found"
  | some group ↦
      codes "Group ID: "
      ++ format_unsigned group_id
      ++ 10 ∷ []
      ++ codes "Multicast Address: "
      ++ to_string group.endpoint
      ++ 10 ∷ []
      ++ codes "Port: "
      ++ format_unsigned group.endpoint.port
      ++ 10 ∷ []
      ++ codes "Pending Messages: "
      ++ format_unsigned (length group.sent_msgs)
]

unfoldable pub stop : UdpMulticastManager → UdpMulticastManager
stop m = record m { groups = [] }

-- `accepts`: whether `send_to` takes a datagram; if not it throws, and the exception is logged.
module _ (accepts : Datagram → Bool) where
  abbrev pub sent : Datagram → List Datagram
  sent d = if accepts d then d ∷ [] else []

  unfoldable pub send_to_group : ℕ → Bytes → UdpMulticastManager → List Datagram
  send_to_group group_id msg m = elim (lookup group_id m.groups) [
    | none ↦ []
    | some group ↦ sent (group.endpoint, msg)
  ]

  -- 500 milliseconds from now.
  abbrev pub restart : Timer → Timer
  restart t = async_wait (expires_from_now t)

  -- The group after a message has taken its number; the timer is set only if the datagram was sent.
  abbrev pub numbered : Bytes → MulticastGroup → MulticastGroup
  numbered msg group = record group {
    next_seq = (group.next_seq + 1) % u32_mod;
    sent_msgs = insert group.next_seq msg group.sent_msgs;
    retransmit_timer =
        if accepts (group.endpoint, seq_msg group.next_seq msg)
        then restart group.retransmit_timer
        else group.retransmit_timer;
  }

  unfoldable pub send_reliable_to_group :
      ℕ → Bytes → UdpMulticastManager → UdpMulticastManager × List Datagram
  unfolding seq_msg async_wait expires_from_now
  send_reliable_to_group group_id msg m = elim (lookup group_id m.groups) [
    | none ↦ (m, [])
    | some group ↦ (
      record m { groups = insert group_id (numbered msg group) m.groups },
      sent (group.endpoint, seq_msg group.next_seq msg),
    )
  ]

  unfoldable pub retransmissions : Endpoint → Map Bytes → List Datagram
  unfolding seq_msg
  retransmissions ep [] = []
  retransmissions ep ((seq, msg) ∷ msgs) = sent (ep, seq_msg seq msg) ++ retransmissions ep msgs

  -- Nothing is sent, and the timer is not set, where nothing is pending.
  unfoldable pub retransmit :
      ℕ → MulticastGroup → Map Bytes → UdpMulticastManager → UdpMulticastManager × List Datagram
  unfolding retransmissions async_wait expires_from_now
  retransmit group_id group [] m = (m, [])
  retransmit group_id group (entry ∷ rest) m = (
    record m {
      groups =
          insert group_id (record group { retransmit_timer = restart group.retransmit_timer })
            m.groups;
    },
    retransmissions group.endpoint (entry ∷ rest),
  )

  -- The handler of the timer, also when its wait was cancelled: it does not look at the error code.
  unfoldable pub handle_retransmit : ℕ → UdpMulticastManager → UdpMulticastManager × List Datagram
  unfolding retransmit
  handle_retransmit group_id m = elim (lookup group_id m.groups) [
    | none ↦ (m, [])
    | some group ↦ retransmit group_id group group.sent_msgs m
  ]
