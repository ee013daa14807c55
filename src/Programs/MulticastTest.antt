-- ===== src/Programs/MulticastTest.antt =====
-- udp_multicast_test_server/multicast_server.cpp and udp_multicast_test_client/multicast_client.cpp: how a client
-- is told of the multicast group of the server, and how it asks for messages to the group. What the programs
-- print and their rates are left out.
pub mod Client
pub mod Info
pub mod Main
pub mod Plain
use asio_kcp.Prelude.{
  ℕ, zero, suc, ◌+◌, ◌-◌, ◌*◌, ◌%◌, ◌^◌, Bool, true, false, not, ◌&&◌, ◌||◌, List, [], ◌∷◌, ◌++◌,
  Option, none, some, Bytes, codes, length, take, drop, starts_with, ltb, leb, ◌==◌, u32_mod,
  u64_mod, if◌then◌else◌,
}
use asio_kcp.Prelude.Int.{ℤ, pos, negsuc}
use asio_kcp.Prelude.Maps.{Map, insert, erase}
use asio_kcp.StdText.{format_unsigned, atol, is_digit, is_space}
use asio_kcp.Kcp.{Kcp}
use asio_kcp.Server.{EventType, connect, disconnect, rcv_msg}
use asio_kcp.Facade
use asio_kcp.Facade.{Server}
use asio_kcp.UdpMulticast.{Datagram}
use asio_kcp.Programs.TestMsg.{find}

-- The global variables.
pub record TestServer (Cb : Type 0) : Type 0 where
  pub total_msgs : ℕ
  pub total_bytes : ℕ
  pub client_info : Map Bytes
  pub multicast_group_id : ℕ
  pub multicast_address : Bytes
  pub multicast_port : ℕ
  pub reliable_multicast : Bool
  pub kcp_server : Server Cb

-- "MULTICAST:addr:port:group_id".
unfoldable pub multicast_info : Bytes → ℕ → ℕ → Bytes
multicast_info address port group_id =
    codes "MULTICAST:"
    ++ address
    ++ codes ":"
    ++ format_unsigned port
    ++ codes ":"
    ++ format_unsigned group_id

module _ (kcp : Kcp) (accepts : Datagram → Bool) where
  open kcp use {Cb}

  abbrev pub client_id : Option Bytes → Bytes
  client_id none = codes "unknown"
  client_id (some msg) = msg

  -- The datagrams go to the multicast group.
  abbrev pub echo_to_group : Bytes → TestServer Cb → TestServer Cb × List Datagram
  echo_to_group echo_msg s =
      let (server, reliable) =
        Facade.send_reliable_msg_to_multicast_group accepts s.multicast_group_id (some echo_msg)
          s.kcp_server in
      let plain =
        Facade.send_msg_to_multicast_group accepts s.multicast_group_id (some echo_msg)
          s.kcp_server in
      if s.reliable_multicast then (record s { kcp_server = server }, reliable) else (s, plain)

  unfoldable pub event_callback :
      ℕ → EventType → Option Bytes → TestServer Cb → TestServer Cb × List Datagram
  unfolding Facade.send_msg multicast_info
  event_callback conv connect msg s =
      let s' = record s { client_info = insert conv (client_id msg) s.client_info } in
      let info = multicast_info s.multicast_address s.multicast_port s.multicast_group_id in
      if s.multicast_group_id == 0
      then (s', [])
      else (record s' { kcp_server = (Facade.send_msg kcp conv info s.kcp_server).0 }, [])
  event_callback conv disconnect msg s = (record s { client_info = erase conv s.client_info }, [])
  event_callback conv rcv_msg none s = (s, [])
  event_callback conv rcv_msg (some msg) s =
      let s' = record s {
        total_msgs = (s.total_msgs + 1) % u64_mod;
        total_bytes = (s.total_bytes + length msg) % u64_mod;
      } in
      if not (s.multicast_group_id == 0) && starts_with (codes "echo:") msg
      then echo_to_group (drop 5 msg) s'
      else (s', [])
  event_callback conv _ msg s = (s, [])

-- `find(c, from)`.
abbrev pub find_char : ℕ → ℕ → Bytes → Option ℕ
find_char c from [] = none
find_char c zero (x ∷ s) =
    let later = find_char c zero s in
    if x == c then some 0 else (elim later [ none ↦ none | some n ↦ some (n + 1) ])
find_char c (suc from) (x ∷ s) = elim (find_char c from s) [ none ↦ none | some n ↦ some (n + 1) ]

abbrev pub starts_number : Bytes → Bool
starts_number [] = false
starts_number (c ∷ s) = is_digit c

-- `std::stoi` has a number to convert.
abbrev pub has_number : Bytes → Bool
has_number [] = false
has_number (c ∷ s) =
    if is_space c
    then has_number s
    else if c == b'-' || c == b'+'
    then starts_number s
    else is_digit c

abbrev pub int_range : ℤ → Option ℤ
int_range (pos n) = if ltb n (2 ^ 31) then some (pos n) else none
int_range (negsuc n) = if ltb n (2 ^ 31) then some (negsuc n) else none

-- `none` stands for an exception: no number, or none of the range of an int.
unfoldable pub stoi : Bytes → Option ℤ
unfolding atol
stoi s = if has_number s then int_range (atol s) else none

-- The cast to an unsigned type of `m` values.
abbrev pub cast : ℕ → ℤ → ℕ
cast m (pos n) = n % m
cast m (negsuc n) = m - 1 - n % m

-- `substr(from, upto - from)`.
abbrev pub between : ℕ → ℕ → Bytes → Bytes
between from upto s = take (upto - from) (drop from s)

-- `main`, on the text of `get_multicast_group_info`: the address and the port are between their names and the
-- ends of their lines. The outer `none` is an exception, the inner one means that a name is not there.
abbrev pub line_at : ℕ → Bytes → Bytes
line_at from s = elim (find_char 10 from s) [ none ↦ drop from s | some end ↦ between from end s ]

unfoldable pub parse_group_info : Bytes → Option (Option (Bytes × ℕ))
unfolding stoi
parse_group_info info = elim (find (codes "Multicast Address: ") info) [
  | none ↦ some none
  | some addr_pos ↦ elim (find (codes "Port: ") info) [
    | none ↦ some none
    | some port_pos ↦ elim (stoi (line_at (port_pos + 6) info)) [
      | none ↦ none
      | some port ↦ some (some (line_at (addr_pos + 19) info, cast (2 ^ 16) port))
    ]
  ]
]

-- The characters of a test client's message are chosen at random.
abbrev pub random_chars : (ℕ → ℕ) → ℕ → ℕ → Bytes
random_chars alphanum i zero = []
random_chars alphanum i (suc n) = alphanum i ∷ random_chars alphanum (i + 1) n

unfoldable pub generate_random_message : (ℕ → ℕ) → ℕ → Bytes
generate_random_message alphanum size = codes "echo:" ++ random_chars alphanum 0 (size - 5)
