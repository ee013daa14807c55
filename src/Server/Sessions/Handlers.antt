-- ===== src/Server/Sessions/Handlers.antt =====
-- The handlers and the calls of a running server do what its sessions specify.
use mathlib.Core.Path.{subst, subst₂}
use asio_kcp.Prelude.{
  ℕ, ◌+◌, ◌<◌, ◌≡◌, refl, ap, ◌∙◌, sym, Bool, Option, true, false, not, ◌&&◌, ltb, [], ◌∷◌, none,
  some, Bytes, codes, length, arith, u32_mod, if◌then◌else◌, Option-cases, Bool-cases, inl, inr,
}
use asio_kcp.Prelude.Maps.{lookup-erase}
use asio_kcp.Kcp.{Kcp}
use asio_kcp.Server.{Endpoint, event, disconnect}
use asio_kcp.Server.Connection
use asio_kcp.Server.Connection.{Connection}
use asio_kcp.Server.Container
use asio_kcp.Server.Manager
use asio_kcp.Server.Manager.{Manager, Outcome, returned}
use asio_kcp.Server.Steps
use asio_kcp.Server.Steps.{Input, udp_receive, timer, send, force_disconnect, stop}
use asio_kcp.Server.Invariant.{IsValid}
use asio_kcp.Server.Routing.{put-find_by_conv}
use asio_kcp.Server.Timeouts.{handle_kcp_time_lem, kept}
use asio_kcp.Server.Sessions.{
  Sessions, timer_turn, timer_kept, specified_running, specified_datagram,
}
use asio_kcp.Server.Sessions.Outcomes.{nothing_outcome, update_entries-turns, silent_lem}
use asio_kcp.Server.Sessions.Datagrams.{
  Views, for_sessions-entries, changed_view, Follows, datagram-Follows,
}

module _ (kcp : Kcp) where
  open kcp use {Cb}

  silence-Follows :
      (error : Bool) (ep : Endpoint) (udp_data : Bytes) (m : Manager Cb) (a : Sessions Cb)
      → IsValid m
      → Views m a
      → m.receiving ≡ true
      → (not error && ltb 0 (length udp_data)) ≡ false
      → Follows kcp (Manager.handle_udp_receive_from kcp error ep udp_data m) (a, [])
  silence-Follows error ep udp_data m a v w on e =
      rw (nothing_outcome kcp m ep udp_data (v.closed w.open_socket) error e) (
        refl,
        record {
          open_socket = w.open_socket;
          sessions = w.sessions;
          last_conv = w.last_conv;
          clock = w.clock;
          listens = sym on ∙ w.listens;
          goes_on = w.goes_on;
        },
      )

  heard-Follows :
      (error : Bool) (ep : Endpoint) (udp_data : Bytes) (m : Manager Cb) (a : Sessions Cb)
      → m.connections.static_cur_conv + 1 < u32_mod
      → IsValid m
      → Views m a
      → m.receiving ≡ true
      → Follows kcp (Manager.handle_udp_receive_from kcp error ep udp_data m) (
          if not error && ltb 0 (length udp_data)
          then specified_datagram kcp ep udp_data a
          else (a, []))
  heard-Follows true ep udp_data m a h v w on = silence-Follows true ep udp_data m a v w on refl
  heard-Follows false ep udp_data m a h v w on = elim (Bool-cases (ltb 0 (length udp_data))) [
    | inl t ↦ rw t (datagram-Follows kcp ep udp_data m a h v w on t)
    | inr f ↦ rw f (silence-Follows false ep udp_data m a v w on f)
  ]

  pub receive-Follows :
      (error : Bool) (ep : Endpoint) (udp_data : Bytes) (m : Manager Cb) (a : Sessions Cb)
      → m.connections.static_cur_conv + 1 < u32_mod
      → IsValid m
      → Views m a
      → Follows kcp
          (Steps.step kcp m (udp_receive error ep udp_data))
          (specified_running kcp (udp_receive error ep udp_data) a)
  unfolding Steps.step
  receive-Follows error ep udp_data m a h v w = elim (Bool-cases m.receiving) [
    | inr off ↦
        let deaf : a.listening ≡ false = sym w.listens ∙ off in
        subst₂
          (λ b c.
            Follows kcp
              (if b
                then Manager.handle_udp_receive_from kcp error ep udp_data m
                else Steps.idle kcp m)
              (if c && not error && ltb 0 (length udp_data)
                then specified_datagram kcp ep udp_data a
                else (a, [])))
          (sym off) (sym deaf) (refl, w)
    | inl on ↦
        let hears : a.listening ≡ true = sym w.listens ∙ on in
        subst₂
          (λ b c.
            Follows kcp
              (if b
                then Manager.handle_udp_receive_from kcp error ep udp_data m
                else Steps.idle kcp m)
              (if c && not error && ltb 0 (length udp_data)
                then specified_datagram kcp ep udp_data a
                else (a, [])))
          (sym on) (sym hears) (heard-Follows error ep udp_data m a h v w on)
  ]

  timer_fields :
      (clock : ℕ) (m : Manager Cb)
      → m.stopped ≡ false
      → let r = Manager.handle_kcp_time kcp clock m in
        (r.manager.socket_open ≡ m.socket_open)
        × (r.manager.connections.static_cur_conv ≡ m.connections.static_cur_conv)
        × (r.manager.cur_clock ≡ clock)
        × (r.manager.receiving ≡ m.receiving)
        × (r.effects
            ≡ (Container.update_entries kcp (some clock) clock m.connections.connections).1)
  unfolding Manager.handle_kcp_time Manager.hook_kcp_timer Container.update_all_kcp
  timer_fields clock m on = ground (arith, on)

  kept_lem :
      (clock : ℕ) (c : Option (Connection Cb))
      → kept kcp (some clock) clock c ≡ timer_kept kcp clock c
  unfolding Connection.is_timeout Connection.update_kcp
  kept_lem clock none = refl
  kept_lem clock (some c) = rw (silent_lem kcp clock c) refl

  pub timer-Follows :
      (clock : ℕ) (m : Manager Cb) (a : Sessions Cb)
      → IsValid m
      → Views m a
      → Follows kcp (Steps.step kcp m (timer clock)) (specified_running kcp (timer clock) a)
  unfolding Steps.step
  timer-Follows clock m a v w =
      let on = v.closed w.open_socket in
      let (o, l, c, r, e) = timer_fields clock m on in
      subst (λ r. Follows kcp r (specified_running kcp (timer clock) a))
        (sym (
          ap (λ b. if b then Manager.handle_kcp_time kcp clock m else Steps.idle kcp m)
            (v.timed on)))
        (
          e
              ∙ update_entries-turns kcp clock m.connections.connections
              ∙ sym (for_sessions-entries (timer_turn kcp clock) m a v w),
          record {
            open_socket = o ∙ w.open_socket;
            sessions = λ k.
                (handle_kcp_time_lem kcp clock m v).0 k
                ∙ kept_lem clock (Container.find_by_conv k m.connections)
                ∙ ap (timer_kept kcp clock) (w.sessions k);
            last_conv = l ∙ w.last_conv;
            clock = c;
            listens = r ∙ w.listens;
            goes_on = w.goes_on;
          },
        )

  pub send-Follows :
      (conv : ℕ) (msg : Bytes) (m : Manager Cb) (a : Sessions Cb)
      → Views m a
      → Follows kcp (Steps.step kcp m (send conv msg)) (specified_running kcp (send conv msg) a)
  unfolding Steps.step Manager.send_msg Connection.send_kcp_msg
  send-Follows conv msg m a w = elim (Option-cases (Container.find_by_conv conv m.connections)) [
    | inl e ↦ rw (e, Manager.send_msg, sym (w.sessions conv) ∙ e, specified_running) (refl, w)
    | inr (c, e) ↦
        rw (e, Manager.send_msg, sym (w.sessions conv) ∙ e, specified_running)
          (
            refl,
            record {
              open_socket = w.open_socket;
              sessions = λ k.
                  put-find_by_conv kcp conv k _ m ∙ changed_view k conv conv _ _ m a w refl refl;
              last_conv = w.last_conv;
              clock = w.clock;
              listens = w.listens;
              goes_on = w.goes_on;
            },
          )
  ]

  pub force_disconnect-Follows :
      (conv : ℕ) (m : Manager Cb) (a : Sessions Cb)
      → IsValid m
      → Views m a
      → Follows kcp
          (Steps.step kcp m (force_disconnect conv))
          (specified_running kcp (force_disconnect conv) a)
  unfolding Steps.step Manager.force_disconnect Container.find_by_conv Container.destroyed
      Connection.clean
  force_disconnect-Follows conv m a v w =
      elim (Option-cases (Container.find_by_conv conv m.connections)) [
        | inl e ↦
            rw (e, Manager.force_disconnect, sym (w.sessions conv) ∙ e, specified_running) (refl, w)
        | inr (c, e) ↦
            rw (e, Manager.force_disconnect, sym (w.sessions conv) ∙ e, specified_running)
              (
                ap
                    (λ o.
                      event conv disconnect (codes "server force disconnect")
                      ∷ Container.destroyed (Manager.self m) o)
                    e,
                record {
                  open_socket = w.open_socket;
                  sessions = λ k.
                      lookup-erase conv k 1001 m.connections.connections v.container.ordered
                      ∙ changed_view k conv conv none none m a w refl refl;
                  last_conv = w.last_conv;
                  clock = w.clock;
                  listens = w.listens;
                  goes_on = w.goes_on;
                },
              )
      ]
