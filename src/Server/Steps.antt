-- ===== src/Server/Steps.antt =====
-- The event loop (`io_service::run` calls the handlers one after the other) and the application's
-- calls between them. A handler runs only while its operation is pending.
use asio_kcp.Prelude.{ℕ, Bool, List, [], ◌∷◌, ◌++◌, Bytes, if◌then◌else◌}
use asio_kcp.Kcp.{Kcp}
use asio_kcp.Server.{Endpoint, Effect}
use asio_kcp.Server.Manager
use asio_kcp.Server.Manager.{Manager, Outcome, returned}

pub data Input : Type 0 where
  udp_receive : Bool → Endpoint → Bytes → Input
  timer : ℕ → Input
  send : ℕ → Bytes → Input
  force_disconnect : ℕ → Input
  stop : Input

module _ (kcp : Kcp) where
  open kcp use {Cb}

  abbrev pub idle : Manager Cb → Outcome Cb
  idle m = record { manager = m; effects = []; exit = returned }

  unfoldable pub step : Manager Cb → Input → Outcome Cb
  step m (udp_receive error ep udp_data) =
      if m.receiving then Manager.handle_udp_receive_from kcp error ep udp_data m else idle m
  step m (timer clock) = if m.timing then Manager.handle_kcp_time kcp clock m else idle m
  step m (send conv msg) = idle (Manager.send_msg kcp conv msg m).0
  step m (force_disconnect conv) = Manager.force_disconnect conv m
  step m stop = Manager.stop_all m

  unfoldable pub run : Manager Cb → List Input → Manager Cb × List Effect
  unfolding step
  run m [] = (m, [])
  run m (i ∷ is) =
      let r = step m i in let (m', effects) = run r.manager is in (m', r.effects ++ effects)
