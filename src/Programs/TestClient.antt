-- ===== src/Programs/TestClient.antt =====
-- client_with_asio/client_with_asio.cpp: a client whose updates and messages are driven by two timers. A
-- callback runs behind the update that calls it; its client has one, so it uses no null pointer there.
pub mod Ends
pub mod Goodbye
use asio_kcp.Prelude.{
  ℕ, ◌+◌, Bool, true, false, List, [], ◌∷◌, Option, none, some, Bytes, if◌then◌else◌,
}
use asio_kcp.Kcp.{Kcp}
use asio_kcp.Client
use asio_kcp.Client.{
  Client, Effect, EventType, connect_failed, disconnect, event, send_to_server, Received,
  ConnectCalls, Target,
}
use asio_kcp.Programs.TestMsg

-- `client_with_asio`.
pub record TestClient (Cb : Type 0) : Type 0 where
  pub stopped : Bool
  pub test_str_size : ℕ
  -- A wait is pending on `client_timer_`, and on `client_timer_send_msg_`.
  pub client_timer : Bool
  pub client_timer_send_msg : Bool
  pub kcp_client : Client Cb

module _ {Cb : Type 0} where
  unfoldable pub stop_all : TestClient Cb → TestClient Cb
  stop_all t = record t { stopped = true }

  unfoldable pub hook_client_timer : TestClient Cb → TestClient Cb
  hook_client_timer t = if t.stopped then t else record t { client_timer = true }

  unfoldable pub hook_timer_send_msg : TestClient Cb → TestClient Cb
  hook_timer_send_msg t = if t.stopped then t else record t { client_timer_send_msg = true }

  -- The constructor; the result of the connect is not looked at.
  unfoldable pub create : Target → ConnectCalls → ℕ → ℕ → TestClient Cb
  unfolding hook_client_timer hook_timer_send_msg Client.create Client.set_event_callback
      Client.connect_async
  create target calls clock test_str_size =
      let t = hook_client_timer (record {
        stopped = false;
        test_str_size = test_str_size;
        client_timer = false;
        client_timer_send_msg = false;
        kcp_client = Client.set_event_callback Client.create;
      }) in
      let (c, ret) = Client.connect_async target calls clock t.kcp_client in
      hook_timer_send_msg (record t { kcp_client = c })

  unfoldable pub send_test_msg : ℕ → TestClient Cb → TestClient Cb
  unfolding Client.send_msg TestMsg.make_test_str
  send_test_msg clock t = record t {
    kcp_client = Client.send_msg (TestMsg.make_test_str clock t.test_str_size) t.kcp_client;
  }

  unfoldable pub handle_timer_send_msg : ℕ → TestClient Cb → TestClient Cb
  unfolding send_test_msg hook_timer_send_msg
  handle_timer_send_msg clock t =
      hook_timer_send_msg (send_test_msg clock (record t { client_timer_send_msg = false }))

  unfoldable pub handle_client_event_callback : EventType → TestClient Cb → TestClient Cb
  handle_client_event_callback connect_failed t = record t { stopped = true }
  handle_client_event_callback disconnect t = record t { stopped = true }
  handle_client_event_callback _ t = t

  -- The calls of the callback among the effects, in their order.
  unfoldable pub called_back : List Effect → TestClient Cb → TestClient Cb
  unfolding handle_client_event_callback
  called_back [] t = t
  called_back (send_to_server msg ∷ es) t = called_back es t
  called_back (event conv type_ msg ∷ es) t = called_back es (handle_client_event_callback type_ t)

module _ (kcp : Kcp) where
  open kcp use {Cb}

  -- The timer is hooked again before the update.
  unfoldable pub handle_client_time :
      ℕ → ℕ → Received → TestClient Cb → Option (TestClient Cb × List Effect)
  unfolding hook_client_timer Client.update called_back
  handle_client_time fuel clock received t =
      let hooked = hook_client_timer (record t { client_timer = false }) in
      elim (Client.update kcp fuel clock received hooked.kcp_client) [
        | none ↦ none
        | some r ↦ some (called_back r.effects (record hooked { kcp_client = r.client }), r.effects)
      ]
