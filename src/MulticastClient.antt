-- ===== src/MulticastClient.antt =====
-- client_lib/kcp_multicast_client.cpp: a member of multicast groups. The open sockets of the process are
-- part of the state, the results of the system calls are arguments. The calls are taken one after the
-- other, as the mutex makes them, and the thread's work on one datagram is a call too; Thread has its loop.
pub mod Sockets
pub mod Delivery
pub mod Thread
use asio_kcp.Prelude.{
  ℕ, ◌+◌, ◌*◌, Bool, true, false, ◌&&◌, List, [], ◌∷◌, ◌++◌, Option, none, some, Bytes, codes,
  length, leb, drop, ◌==◌, starts_with, if◌then◌else◌,
}
use asio_kcp.Prelude.Int.{ℤ, pos, negsuc}
use asio_kcp.Prelude.Maps.{Map, lookup, insert, erase}
use asio_kcp.StdText.{format_unsigned}

pub record GroupInfo : Type 0 where
  pub multicast_addr : Bytes
  pub port : ℕ
  pub socket_fd : ℕ
  pub last_seq : ℕ

-- `kcp_multicast_client`, and the descriptors that are open.
pub record MulticastClient : Type 0 where
  pub groups : Map GroupInfo
  pub running : Bool
  pub has_callback : Bool
  pub open_fds : List ℕ

-- What the system answers to `join_group`: the descriptor of `socket`, and whether the calls after it
-- succeed, in their order.
pub record JoinCalls : Type 0 where
  pub socket : Option ℕ
  pub reuse_address : Bool
  pub non_blocking : Bool
  pub bind : Bool
  pub add_membership : Bool

unfoldable pub close : ℕ → List ℕ → List ℕ
close fd [] = []
close fd (x ∷ xs) = if x == fd then xs else x ∷ close fd xs

unfoldable pub create : MulticastClient
create = record { groups = []; running = false; has_callback = false; open_fds = [] }

unfoldable pub set_message_callback : MulticastClient → MulticastClient
set_message_callback c = record c { has_callback = true }

-- The calls on the new socket `fd`, which is closed at the first that fails.
unfoldable pub join_socket : JoinCalls → Bytes → ℕ → ℕ → ℕ → MulticastClient → MulticastClient × ℤ
unfolding close
join_socket calls multicast_addr port group_id fd c =
    let opened = fd ∷ c.open_fds in
    let closed = record c { open_fds = close fd opened } in
    if calls.reuse_address
    then if calls.non_blocking
      then if calls.bind
        then if calls.add_membership
          then (
            record c {
              groups =
                  insert group_id
                    (record {
                      multicast_addr = multicast_addr;
                      port = port;
                      socket_fd = fd;
                      last_seq = 0;
                    })
                    c.groups;
              open_fds = opened;
            },
            pos 0,
          )
          else (closed, negsuc 5)
        else (closed, negsuc 4)
      else (closed, negsuc 3)
    else (closed, negsuc 2)

-- The client is a member already, or there is no socket.
unfoldable pub join_group : JoinCalls → Bytes → ℕ → ℕ → MulticastClient → MulticastClient × ℤ
unfolding join_socket
join_group calls multicast_addr port group_id c = elim (lookup group_id c.groups) [
  | some info ↦ (c, negsuc 0)
  | none ↦ elim calls.socket [
    | none ↦ (c, negsuc 1)
    | some fd ↦ join_socket calls multicast_addr port group_id fd c
  ]
]

-- Whether the membership could be dropped makes no difference.
unfoldable pub leave_group : ℕ → MulticastClient → MulticastClient × ℤ
unfolding close
leave_group group_id c = elim (lookup group_id c.groups) [
  | none ↦ (c, negsuc 0)
  | some info ↦ (
    record c { groups = erase group_id c.groups; open_fds = close info.socket_fd c.open_fds },
    pos 0,
  )
]

-- `created`: whether `pthread_create` succeeds.
unfoldable pub start : Bool → MulticastClient → MulticastClient × Bool
start created c = if c.running then (c, false) else (record c { running = created }, created)

unfoldable pub close_all : Map GroupInfo → List ℕ → List ℕ
unfolding close
close_all [] fds = fds
close_all ((g, info) ∷ m) fds = close_all m (close info.socket_fd fds)

-- The destructor calls it too. The thread has ended when the groups are left.
unfoldable pub stop : MulticastClient → MulticastClient
unfolding close_all
stop c =
    if c.running
    then record c { running = false; groups = []; open_fds = close_all c.groups c.open_fds }
    else c

-- What a datagram leads to: a call of the callback, and an acknowledgement to the group.
pub data Action : Type 0 where
  callback : ℕ → Bytes → Action
  send_to_group : Bytes → ℕ → Bytes → Action

unfoldable pub handle_multicast_message : ℕ → Bytes → MulticastClient → List Action
handle_multicast_message group_id msg c = if c.has_callback then callback group_id msg ∷ [] else []

-- The number is not looked at, nor kept.
unfoldable pub handle_reliable_message : ℕ → Bytes → MulticastClient → List Action
unfolding handle_multicast_message
handle_reliable_message group_id msg c = handle_multicast_message group_id msg c

unfoldable pub send_ack : ℕ → ℕ → MulticastClient → List Action
send_ack group_id seq c = elim (lookup group_id c.groups) [
  | none ↦ []
  | some info ↦
      send_to_group info.multicast_addr info.port (codes "ACK:" ++ format_unsigned seq) ∷ []
]

-- `ntohl` of the first four bytes; it is called where there are four.
unfoldable pub ntohl : Bytes → ℕ
ntohl (a ∷ b ∷ c ∷ d ∷ rest) = ((a * 256 + b) * 256 + c) * 256 + d
ntohl _ = 0

-- What the thread does with a datagram that the socket of a group has received.
unfoldable pub receive : ℕ → Bytes → MulticastClient → List Action
unfolding handle_multicast_message handle_reliable_message send_ack ntohl
receive group_id buffer c =
    if leb 4 (length buffer) && starts_with (codes "ACK:") buffer
    then []
    else if leb 4 (length buffer)
    then handle_reliable_message group_id (drop 4 buffer) c ++ send_ack group_id (ntohl buffer) c
    else handle_multicast_message group_id buffer c
