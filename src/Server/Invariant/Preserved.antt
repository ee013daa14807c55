-- ===== src/Server/Invariant/Preserved.antt =====
-- Every step of the server keeps the invariant.
use asio_kcp.Prelude.{
  sym, ◌∙◌, ℕ, ◌+◌, ◌<◌, ◌≡◌, refl, true, false, [], Option, some, arith, u32_mod, Option-cases,
  inl, inr,
}
use asio_kcp.Prelude.Maps.{Map}
use asio_kcp.Kcp.{Kcp}
use asio_kcp.Server.Connection.{Connection}
use asio_kcp.Server.Container
use asio_kcp.Server.Container.{Container}
use asio_kcp.Server.Manager
use asio_kcp.Server.Manager.{Manager, Outcome, Exit, returned, assert_exception, system_error}
use asio_kcp.Server.Steps
use asio_kcp.Server.Steps.{Input, udp_receive, timer, send, force_disconnect, stop}
use asio_kcp.Server.Invariant.{IsValid, erase-IsValid, update_all_kcp-IsValid}
use asio_kcp.Server.Invariant.Handlers.{
  found-not-stopped, handle_udp_receive_from-IsValid, send_msg-IsValid, if-IsValid,
}

module _ (kcp : Kcp) where
  open kcp use {Cb}

  pub hook_kcp_timer-keeps :
      (m : Manager Cb)
      → ((Manager.hook_kcp_timer m).stopped ≡ m.stopped)
        × ((Manager.hook_kcp_timer m).socket_open ≡ m.socket_open)
        × ((Manager.hook_kcp_timer m).connections ≡ m.connections)
        × (m.stopped ≡ false → (Manager.hook_kcp_timer m).timing ≡ true)
  unfolding Manager.hook_kcp_timer
  hook_kcp_timer-keeps m = ground arith

  update_entries-nil :
      (manager : Option ℕ) (clock : ℕ) (m : Map (Connection Cb))
      → m ≡ []
      → (Container.update_entries kcp manager clock m).0 ≡ []
  unfolding Container.update_entries
  update_entries-nil manager clock m e = rw e

  pub handle_kcp_time-IsValid :
      (clock : ℕ) (m : Manager Cb)
      → IsValid m
      → IsValid (Manager.handle_kcp_time kcp clock m).manager
  unfolding Manager.handle_kcp_time
  handle_kcp_time-IsValid clock m v =
      let m' = Manager.hook_kcp_timer (record m { timing = false }) in
      let (s, o, c, t) = hook_kcp_timer-keeps (record m { timing = false }) in
      record {
        container = update_all_kcp-IsValid kcp (some clock) clock m'.connections (rw c v.container);
        stopped_empty = λ h.
            update_entries-nil (some clock) clock m'.connections.connections
              (rw c (v.stopped_empty (sym s ∙ h)));
        closed = λ h. s ∙ v.closed (sym o ∙ h);
        timed = λ h. t (sym s ∙ h);
      }

  force_disconnect-IsValid :
      (conv : ℕ) (m : Manager Cb) → IsValid m → IsValid (Manager.force_disconnect conv m).manager
  unfolding Manager.force_disconnect
  force_disconnect-IsValid conv m v =
      elim (Option-cases (Container.find_by_conv conv m.connections)) [
        | inl e ↦ rw (e, Manager.force_disconnect) v
        | inr (c, e) ↦
            let running = found-not-stopped kcp conv m v e in
            rw (e, Manager.force_disconnect)
              (record {
                container = erase-IsValid conv m.connections v.container;
                stopped_empty = λ h. cc;
                closed = v.closed;
                timed = v.timed;
              })
      ]

  stop_all-IsValid : (m : Manager Cb) → IsValid m → IsValid (Manager.stop_all m).manager
  unfolding Manager.stop_all
  stop_all-IsValid m v = record {
    container = record { ordered = tt; given_out = tt; above = v.container.above };
    stopped_empty = λ _. refl;
    closed = λ h. cc;
    timed = λ h. cc;
  }

  -- Every handler and every call of the application keeps the invariant, while a conv is left to give
  -- out: the connections stand in order under their own convs, each of which is above 1000 and has been
  -- given out, a stopped server has no connection and a closed socket, and otherwise the timer is set.
  pub step-IsValid :
      (m : Manager Cb) (i : Input)
      → m.connections.static_cur_conv + 1 < u32_mod
      → IsValid m
      → IsValid (Steps.step kcp m i).manager
  unfolding Steps.step
  step-IsValid m (udp_receive error ep udp_data) h v =
      if-IsValid kcp m.receiving _ _ (handle_udp_receive_from-IsValid kcp error ep udp_data m h v) v
  step-IsValid m (timer clock) h v =
      if-IsValid kcp m.timing _ _ (handle_kcp_time-IsValid clock m v) v
  step-IsValid m (send conv msg) h v = send_msg-IsValid kcp conv msg m v
  step-IsValid m (force_disconnect conv) h v = force_disconnect-IsValid conv m v
  step-IsValid m stop h v = stop_all-IsValid m v
