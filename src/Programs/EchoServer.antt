-- ===== src/Programs/EchoServer.antt =====
-- server/server.cpp: the server that sends every message back. The library calls `event_callback` before the
-- handler that reports the event goes on; here the callbacks of a handler run behind it, in the same order: a
-- handler does nothing with a connection after it has reported a message of it.
pub mod Echo
use asio_kcp.Prelude.{
  sym, ap, ◌∙◌, ℕ, suc, ◌+◌, ◌<◌, ◌≡◌, refl, Bool, true, false, List, [], ◌∷◌, ◌++◌, Option, none,
  some, Bytes, length, ltb, lt→ltb, arith, ◌==◌, u32_mod, ◌%◌, ◌*◌, if◌then◌else◌, Option-cases,
  inl, inr,
}
use asio_kcp.ConnectPacket.{is_connect_packet}
use asio_kcp.Kcp.{Kcp}
use asio_kcp.Server.{
  Endpoint, Effect, send_to, event, EventType, connect, disconnect, rcv_msg, lag_notify,
  count_of_event_type,
}
use asio_kcp.Server.Connection
use asio_kcp.Server.Connection.{Connection}
use asio_kcp.Server.Container
use asio_kcp.Server.Manager
use asio_kcp.Server.Manager.{Manager, returned}
use asio_kcp.Server.Invariant.{IsValid, find_by_conv-conv}
use asio_kcp.Server.Routing.{put-find_by_conv}
use asio_kcp.Facade
use asio_kcp.Facade.{Server}

pub record EchoServer (Cb : Type 0) : Type 0 where
  pub stopped : Bool
  -- A wait is pending on `test_timer_`.
  pub test_timer : Bool
  pub kcp_server : Server Cb

module _ {Cb : Type 0} where
  unfoldable pub hook_test_timer : EchoServer Cb → EchoServer Cb
  hook_test_timer s = if s.stopped then s else record s { test_timer = true }

  -- The constructor.
  unfoldable pub create : EchoServer Cb
  unfolding hook_test_timer Facade.start
  create =
      hook_test_timer (record { stopped = false; test_timer = false; kcp_server = Facade.start })

  -- The result is also what `server::stop` sends and reports; if it throws, `stopped_` is not set.
  unfoldable pub handle_stop : EchoServer Cb → EchoServer Cb × List Effect
  unfolding Facade.stop
  handle_stop s =
      let (server, effects, exit) = Facade.stop s.kcp_server in
      let stopped' : Bool = elim exit [ returned ↦ true | _ ↦ s.stopped ] in
      (record s { stopped = stopped'; kcp_server = server }, effects)

  unfoldable pub handle_test_timer : EchoServer Cb → EchoServer Cb
  unfolding hook_test_timer
  handle_test_timer s = hook_test_timer (record s { test_timer = false })

  -- `conv` is the static variable.
  unfoldable pub test_force_disconnect : ℕ → EchoServer Cb → EchoServer Cb × List Effect × ℕ
  unfolding Facade.force_disconnect
  test_force_disconnect conv s =
      let (server, effects) = Facade.force_disconnect conv s.kcp_server in
      (record s { kcp_server = server }, effects, (conv + 1) % u32_mod)

  abbrev pub manager_of : EchoServer Cb → Manager Cb
  manager_of s = s.kcp_server.connection_manager

  abbrev pub with_manager : Manager Cb → EchoServer Cb → EchoServer Cb
  with_manager m s = record s { kcp_server = record (s.kcp_server) { connection_manager = m } }

module _ (kcp : Kcp) where
  open kcp use {Cb}

  -- What it prints is left out.
  unfoldable pub event_callback : ℕ → EventType → Bytes → EchoServer Cb → EchoServer Cb
  unfolding Facade.send_msg
  event_callback conv rcv_msg msg s = record s {
    kcp_server = (Facade.send_msg kcp conv msg s.kcp_server).0;
  }
  event_callback conv _ msg s = s

  unfoldable pub callbacks : List Effect → EchoServer Cb → EchoServer Cb
  unfolding event_callback
  callbacks [] s = s
  callbacks (send_to ep bytes ∷ effects) s = callbacks effects s
  callbacks (event conv type msg ∷ effects) s = callbacks effects (event_callback conv type msg s)

  -- A datagram, with the callbacks of its events.
  unfoldable pub handle_datagram : Endpoint → Bytes → EchoServer Cb → EchoServer Cb
  unfolding callbacks Manager.handle_udp_receive_from
  handle_datagram ep udp_data s =
      let r = Manager.handle_udp_receive_from kcp false ep udp_data (manager_of s) in
      callbacks r.effects (with_manager r.manager s)

  -- The block after the message that it has received, if any, has been handed back to it.
  abbrev pub echoed : Cb × Option Bytes → Cb
  echoed (cb, none) = cb
  echoed (cb, some []) = cb
  echoed (cb, some (b ∷ bs)) = (kcp.send (b ∷ bs) cb).0
