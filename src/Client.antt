-- ===== src/Client.antt =====
-- client_lib/kcp_client.cpp: one client. The clock, and what the calls of the system answer, are
-- arguments; datagrams to the server and callbacks are effects. A failed `send` is only logged.
pub mod Queue
pub mod Reports
pub mod Verdict
pub mod Connect
pub mod Handshake
pub mod Messages
pub mod Goodbye
use asio_kcp.Prelude.{
  ℕ, zero, suc, ◌+◌, ◌-◌, ◌*◌, ◌%◌, ◌^◌, Bool, true, false, ◌&&◌, List, [], ◌∷◌, ◌++◌, map, Option,
  none, some, Bytes, codes, length, take, ltb, u32_mod, u64_mod, if◌then◌else◌,
}
use asio_kcp.Prelude.Int.{ℤ, pos, negsuc, neg, is_negative}
use asio_kcp.ConnectPacket.{
  making_connect_packet, is_send_back_conv_packet, grab_conv_from_send_back_conv_packet,
  is_disconnect_packet,
}
use asio_kcp.Kcp.{Kcp}
use Queue.{push, grab_all}

-- `eEventType`, less the marks that are no event.
pub data EventType : Type 0 where
  connect connect_failed disconnect rcv_msg : EventType

pub data Effect : Type 0 where
  send_to_server : Bytes → Effect
  event : ℕ → EventType → Bytes → Effect

-- `sockaddr_in`: the port and the address in the order of the host.
pub record SockAddr : Type 0 where
  pub sin_port : ℕ
  pub sin_addr : ℕ

-- `kcp_client`. The descriptor is -1 where there is no socket.
pub record Client (Cb : Type 0) : Type 0 where
  pub in_connect_stage : Bool
  pub connect_start_time : ℕ
  pub last_send_connect_msg_time : ℕ
  pub connect_succeed : Bool
  pub has_event_func : Bool
  pub send_msg_queue : List Bytes
  pub udp_port_bind : ℤ
  pub server_ip : Bytes
  pub server_port : ℤ
  pub udp_socket : ℤ
  pub servaddr : SockAddr
  pub p_kcp : Option Cb

-- How a call ends: by its end, or by the use of a null pointer.
pub data Exit : Type 0 where
  returned null_pointer : Exit

pub record Outcome (Cb : Type 0) : Type 0 where
  pub client : Client Cb
  pub effects : List Effect
  pub exit : Exit

-- The arguments of `connect_async`.
pub record Target : Type 0 where
  pub udp_port_bind : ℤ
  pub server_ip : Bytes
  pub server_port : ℤ

-- What the system answers to `init_udp_connect`: the address if it is good, the socket, and whether the calls
-- after it succeed, in their order. The result of `bind` is only logged.
pub record ConnectCalls : Type 0 where
  pub inet_pton : Option ℕ
  pub socket : Option ℕ
  pub get_flags : Bool
  pub set_non_block : Bool
  pub udp_connect : Bool

-- `recv`: nothing is there (EAGAIN), another error, or a datagram.
pub data Received : Type 0 where
  try_again failed : Received
  datagram : Bytes → Received

abbrev pub max_msg_size : ℕ
max_msg_size = 1024 * 10

abbrev pub kcp_resend_connect_msg_interval : ℕ
kcp_resend_connect_msg_interval = 500

abbrev pub kcp_connect_timeout_time : ℕ
kcp_connect_timeout_time = 5000

abbrev pub kcp_err_already_connected : ℤ
kcp_err_already_connected = neg 2001

abbrev pub kcp_err_address_invalid : ℤ
kcp_err_address_invalid = neg 2002

abbrev pub kcp_err_create_socket_fail : ℤ
kcp_err_create_socket_fail = neg 2003

abbrev pub kcp_err_set_non_block_fail : ℤ
kcp_err_set_non_block_fail = neg 2004

abbrev pub kcp_err_connect_func_fail : ℤ
kcp_err_connect_func_fail = neg 2010

-- The difference of two uint64_t.
abbrev pub since : ℕ → ℕ → ℕ
since t cur_clock = (cur_clock + u64_mod - t) % u64_mod

-- The calls on the new socket.
-- `htons` takes an uint16_t.
abbrev pub to_u16 : ℤ → ℕ
to_u16 (pos n) = n % 2 ^ 16
to_u16 (negsuc n) = 2 ^ 16 - 1 - n % 2 ^ 16

unfoldable pub set_up_socket : ConnectCalls → ℤ
set_up_socket calls =
    if calls.get_flags && calls.set_non_block
    then if calls.udp_connect then pos 0 else kcp_err_connect_func_fail
    else kcp_err_set_non_block_fail

module _ {Cb : Type 0} where
  unfoldable pub create : Client Cb
  create = record {
    in_connect_stage = false;
    connect_start_time = 0;
    last_send_connect_msg_time = 0;
    connect_succeed = false;
    has_event_func = false;
    send_msg_queue = [];
    udp_port_bind = pos 0;
    server_ip = [];
    server_port = pos 0;
    udp_socket = negsuc 0;
    servaddr = record { sin_port = 0; sin_addr = 0 };
    p_kcp = none;
  }

  unfoldable pub set_event_callback : Client Cb → Client Cb
  set_event_callback c = record c { has_event_func = true }

  -- The address of the server with a new port.
  abbrev pub with_port : Client Cb → Client Cb
  with_port c = record c {
    servaddr = record { sin_port = to_u16 c.server_port; sin_addr = c.servaddr.sin_addr };
  }

  -- And with what `inet_pton` gives.
  abbrev pub with_address : ℕ → Client Cb → Client Cb
  with_address address c = record c {
    servaddr = record { sin_port = to_u16 c.server_port; sin_addr = address };
  }

  unfoldable pub init_udp_connect : ConnectCalls → Client Cb → Client Cb × ℤ
  unfolding set_up_socket
  init_udp_connect calls c = elim calls.inet_pton [
    | none ↦ (with_port c, kcp_err_address_invalid)
    | some address ↦ elim calls.socket [
      | none ↦
          (record (with_address address c) { udp_socket = negsuc 0 }, kcp_err_create_socket_fail)
      | some fd ↦ (record (with_address address c) { udp_socket = pos fd }, set_up_socket calls)
    ]
  ]

  abbrev pub start_connect : ℕ → Client Cb × ℤ → Client Cb × ℤ
  start_connect clock (c, ret) =
      if is_negative ret
      then (c, ret)
      else (record c { in_connect_stage = true; connect_start_time = clock }, pos 0)

  -- The arguments are kept before anything can fail.
  abbrev pub aimed : Target → Client Cb → Client Cb
  aimed target c = record c {
    udp_port_bind = target.udp_port_bind;
    server_ip = target.server_ip;
    server_port = target.server_port;
  }

  unfoldable pub connect_async : Target → ConnectCalls → ℕ → Client Cb → Client Cb × ℤ
  unfolding init_udp_connect
  connect_async target calls clock c = elim c.udp_socket [
    | negsuc zero ↦ start_connect clock (init_udp_connect calls (aimed target c))
    | _ ↦ (c, kcp_err_already_connected)
  ]

  unfoldable pub need_send_connect_packet : ℕ → Client Cb → Bool
  need_send_connect_packet cur_clock c =
      ltb kcp_resend_connect_msg_interval (since c.last_send_connect_msg_time cur_clock)

  unfoldable pub connect_timeout : ℕ → Client Cb → Bool
  connect_timeout cur_clock c = ltb kcp_connect_timeout_time (since c.connect_start_time cur_clock)

  unfoldable pub do_send_connect_packet : ℕ → Client Cb → Client Cb × List Effect
  do_send_connect_packet cur_clock c = (
    record c { last_send_connect_msg_time = cur_clock },
    send_to_server making_connect_packet ∷ [],
  )

  unfoldable pub send_msg : Bytes → Client Cb → Client Cb
  unfolding push
  send_msg msg c = record c { send_msg_queue = push msg c.send_msg_queue }

  -- A call of the callback that does not look whether there is one.
  abbrev pub notify : ℕ → EventType → Bytes → Client Cb → Outcome Cb
  notify conv type_ msg c =
      if c.has_event_func
      then record { client = c; effects = event conv type_ msg ∷ []; exit = returned }
      else record { client = c; effects = []; exit = null_pointer }

  -- One that does.
  abbrev pub notify_if : Client Cb → ℕ → EventType → Bytes → List Effect
  notify_if c conv type_ msg = if c.has_event_func then event conv type_ msg ∷ [] else []

  abbrev pub before : List Effect → Outcome Cb → Outcome Cb
  before effects r = record r { effects = effects ++ r.effects }

module _ (kcp : Kcp) where
  open kcp use {Cb}

  unfoldable pub init_kcp : ℕ → Client Cb → Client Cb
  init_kcp conv c = record c { p_kcp = some (kcp.nodelay 1 2 1 1 (kcp.create conv)) }

  -- A packet that the server sent back. The conv that the callback is told is read from the block.
  abbrev pub connected : ℕ → Client Cb → Outcome Cb
  unfolding init_kcp
  connected conv c =
      notify (kcp.conv (kcp.nodelay 1 2 1 1 (kcp.create conv))) connect (codes "connect succeed")
        (record (init_kcp conv c) { in_connect_stage = false; connect_succeed = true })

  -- The buffer has 1400 bytes.
  unfoldable pub try_recv_connect_back_packet : Received → Client Cb → Outcome Cb
  unfolding init_kcp
  try_recv_connect_back_packet (datagram bytes) c =
      let recv_buf = take 1400 bytes in
      if is_send_back_conv_packet recv_buf
      then connected (grab_conv_from_send_back_conv_packet recv_buf) c
      else record { client = c; effects = []; exit = returned }
  try_recv_connect_back_packet _ c = record { client = c; effects = []; exit = returned }

  abbrev pub leave_stage : Outcome Cb → Outcome Cb
  leave_stage r = elim r.exit [
    | returned ↦ record r { client = record (r.client) { in_connect_stage = false } }
    | null_pointer ↦ r
  ]

  unfoldable pub do_asio_kcp_connect : ℕ → Received → Client Cb → Outcome Cb
  unfolding connect_timeout need_send_connect_packet do_send_connect_packet
      try_recv_connect_back_packet
  do_asio_kcp_connect cur_clock received c =
      if connect_timeout cur_clock c
      then leave_stage (notify 0 connect_failed (codes "connect timeout") c)
      else if need_send_connect_packet cur_clock c
      then before (do_send_connect_packet cur_clock c).1
          (try_recv_connect_back_packet received (do_send_connect_packet cur_clock c).0)
      else try_recv_connect_back_packet received c

  -- The loop over the messages that were grabbed; a failed `ikcp_send` is only logged.
  unfoldable pub send_all : List Bytes → Cb → Cb
  send_all [] cb = cb
  send_all (msg ∷ msgs) cb = send_all msgs (kcp.send msg cb).0

  unfoldable pub do_send_msg_in_queue : Cb → Client Cb → Client Cb × Cb
  unfolding grab_all send_all
  do_send_msg_in_queue cb c =
      let (queue, msgs) = grab_all c.send_msg_queue in
      (record c { send_msg_queue = queue }, send_all msgs cb)

  -- An error gives the empty string.
  unfoldable pub recv_udp_package_from_kcp : Cb → Cb × Bytes
  recv_udp_package_from_kcp cb =
      let (cb', result) = kcp.recv max_msg_size cb in
      (cb', elim result [ none ↦ [] | some msg ↦ msg ])

  -- The loop: messages until one is empty. `none` where the fuel does not suffice.
  unfoldable pub recv_loop : ℕ → Cb → Client Cb → Option (Cb × List Effect)
  unfolding recv_udp_package_from_kcp
  recv_loop zero cb c = none
  recv_loop (suc fuel) cb c =
      let (cb', msg) = recv_udp_package_from_kcp cb in
      let rest = recv_loop fuel cb' c in
      elim msg [
        | [] ↦ some (cb', [])
        | b ∷ bs ↦ elim rest [
          | none ↦ none
          | some (last, effects) ↦
              some (last, notify_if c (kcp.conv cb') rcv_msg (b ∷ bs) ++ effects)
        ]
      ]

  unfoldable pub handle_udp_packet : ℕ → Bytes → Cb → Client Cb → Option (Cb × List Effect)
  unfolding recv_loop
  handle_udp_packet fuel udp_packet cb c =
      if is_disconnect_packet udp_packet
      then some (cb, notify_if c (kcp.conv cb) disconnect udp_packet)
      else recv_loop fuel (kcp.input udp_packet cb) c

  -- What `do_recv_udp_packet_in_loop` and `ikcp_update` do in turn. The text of the event for an error is
  -- taken from the stream before anything is written to it.
  abbrev pub finish : ℕ → Client Cb → Cb → List Effect → Exit → Outcome Cb
  finish cur_clock c cb effects null_pointer = record {
    client = record c { p_kcp = some cb };
    effects = effects;
    exit = null_pointer;
  }
  finish cur_clock c cb effects returned =
      let (cb', bufs) = kcp.update (cur_clock % u32_mod) cb in
      record {
        client = record c { p_kcp = some cb' };
        effects = effects ++ map send_to_server bufs;
        exit = returned;
      }

  -- The buffer has twice the size of a message. Zero bytes are ignored.
  unfoldable pub do_recv_udp_packet_in_loop :
      ℕ → Received → Cb → Client Cb → Option (Cb × List Effect × Exit)
  unfolding handle_udp_packet
  do_recv_udp_packet_in_loop fuel try_again cb c = some (cb, [], returned)
  do_recv_udp_packet_in_loop fuel failed cb c =
      let r = notify (kcp.conv cb) disconnect [] c in some (cb, r.effects, r.exit)
  do_recv_udp_packet_in_loop fuel (datagram bytes) cb c = elim (take (max_msg_size * 2) bytes) [
    | [] ↦ some (cb, [], returned)
    | b ∷ bs ↦ elim (handle_udp_packet fuel (b ∷ bs) cb c) [
      | none ↦ none
      | some (cb', effects) ↦ some (cb', effects, returned)
    ]
  ]

  -- `update` of a connected client, with its block.
  unfoldable pub update_connected : ℕ → ℕ → Received → Cb → Client Cb → Option (Outcome Cb)
  unfolding do_send_msg_in_queue do_recv_udp_packet_in_loop
  update_connected fuel cur_clock received cb c =
      let (c', cb') = do_send_msg_in_queue cb c in
      elim (do_recv_udp_packet_in_loop fuel received cb' c') [
        | none ↦ none
        | some (cb'', effects, exit) ↦ some (finish cur_clock c' cb'' effects exit)
      ]

  abbrev pub idle : Client Cb → Outcome Cb
  idle c = record { client = c; effects = []; exit = returned }

  unfoldable pub update : ℕ → ℕ → Received → Client Cb → Option (Outcome Cb)
  unfolding do_asio_kcp_connect update_connected
  update fuel cur_clock received c =
      if c.in_connect_stage
      then some (do_asio_kcp_connect cur_clock received c)
      else if c.connect_succeed
      then elim c.p_kcp [
        | none ↦ some (record (idle c) { exit = null_pointer })
        | some cb ↦ update_connected fuel cur_clock received cb c
      ]
      else some (idle c)
