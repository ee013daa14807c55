-- ===== src/Server/Sessions/Refinement.antt =====
-- The server does what its sessions specify.
use mathlib.Core.Path.{subst}
use asio_kcp.Prelude.{
  ◌+◌, ◌<◌, ◌≤◌, ◌≡◌, ◌⊎◌, refl, ◌∙◌, sym, false, List, [], ◌∷◌, length, arith, u32_mod,
  if◌then◌else◌, inl, inr,
}
use asio_kcp.Prelude.Maps.{lookup}
use asio_kcp.Kcp.{Kcp}
use asio_kcp.Server.{Effect}
use asio_kcp.Server.Container
use asio_kcp.Server.Manager
use asio_kcp.Server.Manager.{Manager, Outcome, returned}
use asio_kcp.Server.Steps
use asio_kcp.Server.Steps.{Input, udp_receive, timer, send, force_disconnect, stop}
use asio_kcp.Server.Invariant.{IsValid, start-IsValid}
use asio_kcp.Server.Invariant.Preserved.{step-IsValid}
use asio_kcp.Server.Shutdown.{IsStopped, step-IsStopped}
use asio_kcp.Server.Sessions.{
  Sessions, no_sessions, goodbye_to, specified_running, specified, specified_run,
}
use asio_kcp.Server.Sessions.Outcomes.{clear-goodbyes}
use asio_kcp.Server.Sessions.Datagrams.{Views, for_sessions-entries}
use asio_kcp.Server.Sessions.Handlers.{
  receive-Follows, timer-Follows, send-Follows, force_disconnect-Follows,
}

module _ (kcp : Kcp) where
  open kcp use {Cb}

  -- What the server shows: the sessions, or the silence of its end.
  abbrev pub Shows : Manager Cb → Sessions Cb → Type 0
  Shows m a = (IsValid m × Views m a) ⊎ ((a.running ≡ false) × IsStopped m)

  abbrev Meets : Outcome Cb → Sessions Cb × List Effect → Type 0
  Meets r s = (r.effects ≡ s.1) × Shows r.manager s.0

  running-Shows :
      (i : Input) (m : Manager Cb) (a : Sessions Cb)
      → m.connections.static_cur_conv + 1 < u32_mod
      → IsValid m
      → Views m a
      → Meets (Steps.step kcp m i) (specified_running kcp i a)
  unfolding Steps.step Manager.stop_all
  running-Shows (udp_receive error ep udp_data) m a h v w =
      let (e, w') = receive-Follows kcp error ep udp_data m a h v w in
      (e, inl (step-IsValid kcp m (udp_receive error ep udp_data) h v, w'))
  running-Shows (timer clock) m a h v w =
      let (e, w') = timer-Follows kcp clock m a v w in
      (e, inl (step-IsValid kcp m (timer clock) h v, w'))
  running-Shows (send conv msg) m a h v w =
      let (e, w') = send-Follows kcp conv msg m a w in
      (e, inl (step-IsValid kcp m (send conv msg) h v, w'))
  running-Shows (force_disconnect conv) m a h v w =
      let (e, w') = force_disconnect-Follows kcp conv m a v w in
      (e, inl (step-IsValid kcp m (force_disconnect conv) h v, w'))
  running-Shows stop m a h v w = (
    clear-goodbyes m.cur_clock m.connections.connections
        ∙ sym (for_sessions-entries goodbye_to m a v w),
    inr (refl, record { stopped = refl; closed = refl; empty = refl }),
  )

  step-Shows :
      (i : Input) (m : Manager Cb) (a : Sessions Cb)
      → a.last + 1 < u32_mod
      → Shows m a
      → Meets (Steps.step kcp m i) (specified kcp i a)
  unfolding specified
  step-Shows i m a h (inl (v, w)) =
      subst (λ b. Meets (Steps.step kcp m i) (if b then specified_running kcp i a else (a, [])))
        (sym w.goes_on) (running-Shows i m a (omega (arith, w.last_conv)) v w)
  step-Shows i m a h (inr (off, v)) =
      let (v', quiet) = step-IsStopped kcp m i v in
      subst (λ b. Meets (Steps.step kcp m i) (if b then specified_running kcp i a else (a, [])))
        (sym off) (quiet, inr (off, v'))

  last_le : (i : Input) (a : Sessions Cb) → (specified kcp i a).0.last ≤ a.last + 1
  unfolding specified
  last_le (udp_receive error ep udp_data) a = ground arith
  last_le (timer clock) a = ground arith
  last_le (send conv msg) a = ground arith
  last_le (force_disconnect conv) a = ground arith
  last_le stop a = ground arith

  run-Shows :
      (is : List Input) (m : Manager Cb) (a : Sessions Cb)
      → a.last + length is < u32_mod
      → Shows m a
      → (Steps.run kcp m is).1 ≡ specified_run kcp a is
  unfolding Steps.run specified_run
  run-Shows [] m a h s = refl
  run-Shows (i ∷ is) m a h s =
      let (e, s') = step-Shows i m a (omega arith) s in
      rw
        (
          e,
          run-Shows is (Steps.step kcp m i).manager (specified kcp i a).0
              (omega (arith, last_le i a)) s',
        )
        refl

  start-Shows : Shows Manager.start no_sessions
  unfolding Manager.start Container.find_by_conv lookup
  start-Shows = inl (
    start-IsValid,
    record {
      open_socket = refl;
      sessions = λ k. refl;
      last_conv = refl;
      clock = refl;
      listens = refl;
      goes_on = refl;
    },
  )

  -- From its start on, for any datagrams, timers and calls in any order, the server sends the datagrams and reports
  -- the events that its sessions specify, in this order. A connect packet opens a session under the next
  -- conv, with a new block of KCP, and is answered. A datagram of KCP goes into the block of the session that it
  -- names, and what `ikcp_recv` then gives is reported. The timer sends what KCP has for each session; it
  -- ends the sessions that have heard something, at a time other than 0, and then nothing for more
  -- than ten seconds, and those alone, with a disconnect event and packet. A message goes into the block of its
  -- session. A session that is thrown out ends with such an event and packet. A datagram in which `ikcp_get_conv`
  -- finds no conv ends the listening: from then on all datagrams are lost, connect packets too. A stop says goodbye to
  -- all sessions, and then nothing more comes. It is assumed that so few inputs come that no
  -- conv wraps. The sessions are gone through in the order of their convs, the model's order of the
  -- unordered map.
  pub sessions_refinement :
      (is : List Input)
      → 1000 + length is < u32_mod
      → (Steps.run kcp Manager.start is).1 ≡ specified_run kcp no_sessions is
  sessions_refinement is h = run-Shows is Manager.start no_sessions h start-Shows
