-- ===== src/Server/Shutdown.antt =====
-- The end of the server.
use asio_kcp.Prelude.{
  ℕ, ◌≡◌, inl, inr, refl, ap, ◌∙◌, Bool, true, false, not, ◌&&◌, List, [], ◌∷◌, none, some, arith,
  ltb, if◌then◌else◌, Bytes, Option-cases, length,
}
use asio_kcp.Prelude.Maps.{Map, lookup}
use asio_kcp.Kcp.{Kcp}
use asio_kcp.Server.{Endpoint, Effect, send_to}
use asio_kcp.Server.Connection
use asio_kcp.Server.Connection.{Connection}
use asio_kcp.Server.Container
use asio_kcp.Server.Container.{Container}
use asio_kcp.Server.Manager
use asio_kcp.Server.Manager.{Manager, Outcome, Exit, returned, assert_exception, system_error}
use asio_kcp.Server.Steps
use asio_kcp.Server.Steps.{Input, udp_receive, timer, send, force_disconnect, stop}
use asio_kcp.ConnectPacket.{is_connect_packet, making_disconnect_packet}

module _ {Cb : Type 0} where
  pub record IsStopped (m : Manager Cb) : Type 0 where
    pub stopped : m.stopped ≡ true
    pub closed : m.socket_open ≡ false
    pub empty : m.connections.connections ≡ []

  -- A disconnect packet for each connection, with its conv and to its last address.
  abbrev pub farewells : Map (Connection Cb) → List Effect
  farewells [] = []
  farewells ((k, c) ∷ m) =
      send_to c.udp_remote_endpoint (making_disconnect_packet c.conv) ∷ farewells m

  clear-farewells : (now : ℕ) (m : Map (Connection Cb)) → Container.clear (some now) m ≡ farewells m
  unfolding Container.clear Connection.clean
  clear-farewells now [] = refl
  clear-farewells now ((k, c) ∷ m) =
      ap (◌∷◌ (send_to c.udp_remote_endpoint (making_disconnect_packet c.conv)))
        (clear-farewells now m)

module _ (kcp : Kcp) where
  open kcp use {Cb}

  nothing_found :
      (conv : ℕ) (m : Manager Cb) → IsStopped m → Container.find_by_conv conv m.connections ≡ none
  unfolding Container.find_by_conv lookup
  nothing_found conv m v = rw (v.empty)

  -- The handler leaves a stopped server as it is, in silence.
  abbrev pub IsQuiet : Outcome Cb → Type 0
  IsQuiet r = IsStopped r.manager × (r.effects ≡ [])

  if-IsQuiet :
      (b : Bool) (r r' : Outcome Cb) → IsQuiet r → IsQuiet r' → IsQuiet (if b then r else r')
  if-IsQuiet true r r' q q' = q
  if-IsQuiet false r r' q q' = q'

  hook-IsStopped : (m : Manager Cb) → IsStopped m → IsStopped (Manager.hook_udp_async_receive m)
  unfolding Manager.hook_udp_async_receive
  hook-IsStopped m v = ground arith

  end_receive-IsQuiet : (r : Outcome Cb) → IsQuiet r → IsQuiet (Manager.end_receive kcp r)
  end_receive-IsQuiet r q = by_exit r.exit
    where
      by_exit :
          (x : Exit)
          → IsQuiet (
              let r' : Outcome Cb = elim x [
                | returned ↦ record r { manager = Manager.hook_udp_async_receive r.manager }
                | _ ↦ r
              ] in
              r')
      by_exit returned = (hook-IsStopped r.manager q.0, q.1)
      by_exit assert_exception = q
      by_exit system_error = q

  handle_kcp_packet-IsQuiet :
      (udp_data : Bytes) (m : Manager Cb)
      → IsStopped m
      → IsQuiet (Manager.handle_kcp_packet kcp udp_data m)
  unfolding Manager.handle_kcp_packet
  handle_kcp_packet-IsQuiet udp_data m v = elim (Option-cases (kcp.get_conv udp_data)) [
    | inl e ↦ rw (e, Manager.handle_kcp_packet) (v, refl)
    | inr (conv, e) ↦
        rw (e, Manager.handle_kcp_packet) (rw (nothing_found conv m v, Manager.deliver) (v, refl))
  ]

  handle_connect_packet-IsQuiet :
      (m : Manager Cb) → IsStopped m → IsQuiet (Manager.handle_connect_packet kcp m)
  unfolding Manager.handle_connect_packet
  handle_connect_packet-IsQuiet m v = ground arith

  handle_udp_receive_from-IsQuiet :
      (error : Bool) (ep : Endpoint) (udp_data : Bytes) (m : Manager Cb)
      → IsStopped m
      → IsQuiet (Manager.handle_udp_receive_from kcp error ep udp_data m)
  unfolding Manager.handle_udp_receive_from
  handle_udp_receive_from-IsQuiet error ep udp_data m v =
      let m' = record m { receiving = false; udp_remote_endpoint = ep } in
      let v' : IsStopped m' = record { stopped = v.stopped; closed = v.closed; empty = v.empty } in
      end_receive-IsQuiet _ (
        if-IsQuiet (not error && ltb 0 (length udp_data)) _ _
          (if-IsQuiet (is_connect_packet udp_data) _ _ (handle_connect_packet-IsQuiet m' v')
            (handle_kcp_packet-IsQuiet udp_data m' v'))
          (v', refl))

  handle_kcp_time-IsQuiet :
      (clock : ℕ) (m : Manager Cb) → IsStopped m → IsQuiet (Manager.handle_kcp_time kcp clock m)
  unfolding Manager.handle_kcp_time
  handle_kcp_time-IsQuiet clock m v = ground arith

  pub step-IsStopped :
      (m : Manager Cb) (i : Input)
      → IsStopped m
      → IsStopped (Steps.step kcp m i).manager × ((Steps.step kcp m i).effects ≡ [])
  unfolding Steps.step Manager.send_msg Manager.force_disconnect Manager.stop_all
  step-IsStopped m (udp_receive error ep udp_data) v =
      if-IsQuiet m.receiving _ _ (handle_udp_receive_from-IsQuiet error ep udp_data m v) (v, refl)
  step-IsStopped m (timer clock) v =
      if-IsQuiet m.timing _ _ (handle_kcp_time-IsQuiet clock m v) (v, refl)
  step-IsStopped m (send conv msg) v = (rw (nothing_found conv m v, Manager.send_msg) v, refl)
  step-IsStopped m (force_disconnect conv) v =
      rw (nothing_found conv m v, Manager.force_disconnect) (v, refl)
  step-IsStopped m stop v = (
    record { stopped = refl; closed = refl; empty = refl },
    clear-farewells m.cur_clock _ ∙ ap farewells v.empty,
  )

  run-IsStopped :
      (is : List Input) (m : Manager Cb)
      → IsStopped m
      → IsStopped (Steps.run kcp m is).0 × ((Steps.run kcp m is).1 ≡ [])
  unfolding Steps.run
  run-IsStopped [] m v = (v, refl)
  run-IsStopped (i ∷ is) m v =
      let (v', quiet) = step-IsStopped m i v in
      let (v'', quiet') = run-IsStopped is (Steps.step kcp m i).manager v' in
      (v'', rw (quiet, quiet'))

  -- `stop_all` sends every connection a disconnect packet with its conv, and nothing else; from then on,
  -- whatever datagrams, timers and calls still come, the server has no connection, sends no datagram and
  -- calls the application no more.
  pub stop_all_lem :
      (m : Manager Cb) (is : List Input)
      → let r = Manager.stop_all m in
        (r.effects ≡ farewells m.connections.connections)
        × IsStopped (Steps.run kcp r.manager is).0
        × ((Steps.run kcp r.manager is).1 ≡ [])
  unfolding Manager.stop_all
  stop_all_lem m is =
      let (v, quiet) =
        run-IsStopped is (Manager.stop_all m).manager
          (record { stopped = refl; closed = refl; empty = refl }) in
      (clear-farewells m.cur_clock m.connections.connections, v, quiet)
