-- ===== src/Server/Routing.antt =====
-- Other datagrams at the server: the packets of KCP.
use asio_kcp.Prelude.{
  ℕ, ◌<◌, ◌≡◌, ◌⊎◌, inl, inr, refl, Bool, true, false, List, [], ◌∷◌, none, some, arith, ◌==◌,
  if◌then◌else◌, Bytes, Option-cases, Bool-cases, length, ==_iff,
}
use asio_kcp.Prelude.Maps.{lookup-insert}
use asio_kcp.ConnectPacket.{is_connect_packet}
use asio_kcp.Kcp.{Kcp}
use asio_kcp.Server.{Endpoint}
use asio_kcp.Server.Connection
use asio_kcp.Server.Connection.{Connection}
use asio_kcp.Server.Container
use asio_kcp.Server.Container.{Container}
use asio_kcp.Server.Manager
use asio_kcp.Server.Manager.{Manager, Outcome, Exit, returned, assert_exception, system_error}
use asio_kcp.Server.Steps
use asio_kcp.Server.Steps.{Input, udp_receive, timer, send, force_disconnect, stop}

module _ (kcp : Kcp) where
  open kcp use {Cb}

  pub put-find_by_conv :
      (k j : ℕ) (c : Connection Cb) (m : Manager Cb)
      → Container.find_by_conv j (Manager.put kcp k c m).connections
        ≡ (if k == j then some c else Container.find_by_conv j m.connections)
  unfolding Container.find_by_conv
  put-find_by_conv k j c m = lookup-insert k j c m.connections.connections

  -- A packet of KCP that names a conv reaches the connection with this conv and no other, and only that
  -- connection is changed: it takes the sender of the packet for its remote endpoint and the clock for
  -- the time of its last packet, so that a client may change its address. If no connection has the conv,
  -- nothing changes and nothing is sent.
  pub deliver_lem :
      (conv : ℕ) (udp_data : Bytes) (m : Manager Cb)
      → let r = Manager.deliver kcp conv udp_data m in
        ((Container.find_by_conv conv m.connections ≡ none) × (r.manager ≡ m) × (r.effects ≡ []))
        ⊎ ((c : Connection Cb) × (c' : Connection Cb) × (Container.find_by_conv conv m.connections
              ≡ some c)
            × (c'.conv ≡ c.conv)
            × (c'.udp_remote_endpoint ≡ m.udp_remote_endpoint)
            × (c'.last_packet_recv_time ≡ m.cur_clock)
            × ((j : ℕ)
                → Container.find_by_conv j r.manager.connections
                  ≡ (if conv == j then some c' else Container.find_by_conv j m.connections)))
  unfolding Manager.deliver Connection.input
  deliver_lem conv udp_data m = elim (Option-cases (Container.find_by_conv conv m.connections)) [
    | inl e ↦ rw (e, Manager.deliver) (inl (refl, refl, refl))
    | inr (c, e) ↦
        rw (e, Manager.deliver)
          (inr (
            c,
            (Connection.input kcp (Manager.self m) udp_data m.udp_remote_endpoint c).0,
            refl,
            refl,
            refl,
            refl,
            λ j. put-find_by_conv conv j _ m,
          ))
  ]

  not_connect : (udp_data : Bytes) → length udp_data < 24 → is_connect_packet udp_data ≡ false
  unfolding is_connect_packet
  not_connect udp_data h = elim (Bool-cases (length udp_data == 34)) [
    | inl e ↦ absurd (omega (arith, (==_iff (length udp_data) 34).0 e))
    | inr e ↦ rw e
  ]

  -- The inputs without the datagrams.
  abbrev pub without_datagrams : List Input → List Input
  without_datagrams [] = []
  without_datagrams (udp_receive error ep udp_data ∷ is) = without_datagrams is
  without_datagrams (timer clock ∷ is) = timer clock ∷ without_datagrams is
  without_datagrams (send conv msg ∷ is) = send conv msg ∷ without_datagrams is
  without_datagrams (force_disconnect conv ∷ is) = force_disconnect conv ∷ without_datagrams is
  without_datagrams (stop ∷ is) = stop ∷ without_datagrams is

  -- Only its own handler waits for the next datagram.
  step-receiving :
      (m : Manager Cb) (i : Input)
      → m.receiving ≡ false
      → (Steps.step kcp m i).manager.receiving ≡ false
  unfolding Steps.step Manager.handle_kcp_time Manager.hook_kcp_timer Manager.send_msg
      Manager.force_disconnect Manager.stop_all
  step-receiving m (udp_receive error ep udp_data) off = rw off refl
  step-receiving m (timer clock) off = ground arith
  step-receiving m (send conv msg) off =
      elim (Option-cases (Container.find_by_conv conv m.connections)) [
        | inl e ↦ rw (Manager.send_msg, e) off
        | inr (c, e) ↦ rw (Manager.send_msg, e) off
      ]
  step-receiving m (force_disconnect conv) off =
      elim (Option-cases (Container.find_by_conv conv m.connections)) [
        | inl e ↦ rw (Manager.force_disconnect, e) off
        | inr (c, e) ↦ rw (Manager.force_disconnect, e) off
      ]
  step-receiving m stop off = off

  ignored :
      (m : Manager Cb) (error : Bool) (ep : Endpoint) (udp_data : Bytes)
      → m.receiving ≡ false
      → Steps.step kcp m (udp_receive error ep udp_data) ≡ Steps.idle kcp m
  unfolding Steps.step
  ignored m error ep udp_data off = rw off refl

  run-without_datagrams :
      (is : List Input) (m : Manager Cb)
      → m.receiving ≡ false
      → Steps.run kcp m is ≡ Steps.run kcp m (without_datagrams is)
  unfolding Steps.run
  run-without_datagrams [] m off = refl
  run-without_datagrams (udp_receive error ep udp_data ∷ is) m off =
      rw (ignored m error ep udp_data off) (run-without_datagrams is m off)
  run-without_datagrams (timer clock ∷ is) m off =
      rw
        (run-without_datagrams is (Steps.step kcp m (timer clock)).manager
          (step-receiving m (timer clock) off))
        refl
  run-without_datagrams (send conv msg ∷ is) m off =
      rw
        (run-without_datagrams is (Steps.step kcp m (send conv msg)).manager
          (step-receiving m (send conv msg) off))
        refl
  run-without_datagrams (force_disconnect conv ∷ is) m off =
      rw
        (run-without_datagrams is (Steps.step kcp m (force_disconnect conv)).manager
          (step-receiving m (force_disconnect conv) off))
        refl
  run-without_datagrams (stop ∷ is) m off =
      rw (run-without_datagrams is (Steps.step kcp m stop).manager (step-receiving m stop off)) refl

  short_packet-receiving :
      (m : Manager Cb) (ep : Endpoint) (udp_data : Bytes)
      → ((p : Bytes) → length p < 24 → kcp.get_conv p ≡ none)
      → 0 < length udp_data
      → length udp_data < 24
      → m.receiving ≡ true
      → let r = Steps.step kcp m (udp_receive false ep udp_data) in
        (r.exit ≡ assert_exception)
        × (r.effects ≡ [])
        × (r.manager.connections ≡ m.connections)
        × (r.manager.receiving ≡ false)
  unfolding Steps.step Manager.handle_udp_receive_from
  short_packet-receiving m ep udp_data documented some_data short on =
      ground (arith, documented udp_data short, not_connect udp_data short)

  -- A datagram that is not empty and shorter than KCP's header ends the receiving for good: its handler
  -- throws before it waits for the next datagram, with the connections as they were and nothing sent; and whatever comes after
  -- it, datagrams, firings of the timer and calls, in any number and order, the server does exactly
  -- what it does without the datagrams. (`ikcp_get_conv` is documented to fail on a datagram so short.)
  pub short_packet_stops_receiving :
      (m : Manager Cb) (ep : Endpoint) (udp_data : Bytes)
      → ((p : Bytes) → length p < 24 → kcp.get_conv p ≡ none)
      → 0 < length udp_data
      → length udp_data < 24
      → m.receiving ≡ true
      → let r = Steps.step kcp m (udp_receive false ep udp_data) in
        (r.exit ≡ assert_exception)
        × (r.effects ≡ [])
        × (r.manager.connections ≡ m.connections)
        × ((is : List Input)
            → Steps.run kcp r.manager is ≡ Steps.run kcp r.manager (without_datagrams is))
  short_packet_stops_receiving m ep udp_data documented some_data short on =
      let (thrown, quiet, same, off) =
        short_packet-receiving m ep udp_data documented some_data short on in
      (thrown, quiet, same, λ is. run-without_datagrams is _ off)
