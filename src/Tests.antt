-- ===== src/Tests.antt =====
-- A small server, a small KCP and small inputs, on which the modules below evaluate the theorems.
mod Packets
mod Servers
mod Clients
mod Multicast
mod Texts
mod Streams
mod Queues
mod Buffers
mod Programs
mod Sessions
mod Threads
use asio_kcp.Prelude.{
  ℕ, ◌+◌, ◌*◌, ◌<◌, ◌≡◌, refl, Bool, true, false, List, [], ◌∷◌, ◌++◌, Option, none, some, Bytes,
  codes, arith, length, drop, ltb, if◌then◌else◌, replicate,
}
use asio_kcp.Prelude.Int.{pos}
use asio_kcp.Kcp.{Kcp}
use asio_kcp.Server.{Endpoint}
use asio_kcp.Server.Connection.{Connection}
use asio_kcp.Server.Manager.{Manager}
use asio_kcp.Server.Invariant.{IsValid}
use asio_kcp.Client.{Client}

-- The conv, and the messages that have come.
abbrev pub Block : Type 0
Block = ℕ × List Bytes

-- The header has 24 bytes, the first of which are the conv.
abbrev pub conv_of : Bytes → Option ℕ
conv_of (a ∷ b ∷ rest) = if ltb (length rest) 22 then none else some (a + 256 * b)
conv_of _ = none

abbrev pub next : Block → Block × Option Bytes
next (conv, []) = ((conv, []), none)
next (conv, m ∷ ms) = ((conv, ms), some m)

abbrev pub toy : Kcp
toy = record {
  Cb = Block;
  create = λ conv. (conv, []);
  nodelay = λ _ _ _ _ cb. cb;
  send = λ msg cb. (cb, pos 0);
  input = λ bytes cb. (cb.0, cb.1 ++ drop 24 bytes ∷ []);
  recv = λ size cb. next cb;
  update = λ clock cb. (cb, []);
  get_conv = conv_of;
  conv = λ cb. cb.0;
}

abbrev pub home : Endpoint
home = record { address = 0x7f000001; port = 4000 }

abbrev pub nowhere : Endpoint
nowhere = record { address = 0; port = 0 }

abbrev pub peer : Connection Block
peer = record {
  conv = 1001;
  p_kcp = (1001, []);
  udp_remote_endpoint = home;
  last_packet_recv_time = 5;
}

abbrev pub empty_server : Manager Block
empty_server = record {
  stopped = false;
  socket_open = true;
  receiving = true;
  timing = true;
  udp_remote_endpoint = nowhere;
  cur_clock = 0;
  connections = record { connections = []; static_cur_conv = 1000 };
}

abbrev pub busy_server : Manager Block
busy_server = record empty_server {
  connections = record { connections = (1001, peer) ∷ []; static_cur_conv = 1001 };
  cur_clock = 7;
}

pub empty_server-IsValid : IsValid empty_server
empty_server-IsValid = record {
  container = record { ordered = tt; given_out = tt; above = omega arith };
  stopped_empty = λ h. refl;
  closed = λ h. refl;
  timed = λ h. refl;
}

pub busy_server-IsValid : IsValid busy_server
busy_server-IsValid = record {
  container = record {
    ordered = (omega arith, tt);
    given_out = ((refl, omega arith), tt);
    above = omega arith;
  };
  stopped_empty = λ h. cc;
  closed = λ h. refl;
  timed = λ h. refl;
}

-- A packet of KCP for the conv 1001 with one byte.
abbrev pub data_packet : Bytes
data_packet = 233 ∷ 3 ∷ replicate 22 0 ++ 65 ∷ []

abbrev pub connecting : Client Block
connecting = record {
  in_connect_stage = true;
  connect_start_time = 100000;
  last_send_connect_msg_time = 0;
  connect_succeed = false;
  has_event_func = true;
  send_msg_queue = [];
  udp_port_bind = pos 0;
  server_ip = codes "127.0.0.1";
  server_port = pos 12345;
  udp_socket = pos 3;
  servaddr = record { sin_port = 12345; sin_addr = 0x7f000001 };
  p_kcp = none;
}
