-- ===== src/Client/Verdict.antt =====
-- The calls of `update` on a client: its state, and what the application hears of the connect.
use mathlib.Core.Path.{subst}
use asio_kcp.Prelude.{
  ℕ, ◌+◌, ◌%◌, u32_mod, ◌≡◌, ◌⊎◌, refl, sym, true, false, List, map, Option, none, some, Bytes,
  arith, take, Bool-cases, inl, inr,
}
use asio_kcp.Prelude.Int.{is_negative}
use asio_kcp.ConnectPacket.{is_send_back_conv_packet}
use asio_kcp.Kcp.{Kcp}
use asio_kcp.Client
use asio_kcp.Client.Reports.{
  Whenever, verdicts, stage, verdicts-append, verdicts-sends, IsPlain, do_recv-IsPlain,
}
use asio_kcp.Client.{
  Client, Effect, send_to_server, event, EventType, connect, connect_failed, disconnect, rcv_msg,
  Exit, returned, null_pointer, Outcome, Received, try_again, failed, datagram,
}

module _ {Cb : Type 0} where
  pub record IsValid (c : Client Cb) : Type 0 where
    pub connecting :
        c.in_connect_stage ≡ true → (c.connect_succeed ≡ false) × (is_negative c.udp_socket ≡ false)
    pub connected :
        c.connect_succeed ≡ true
        → ((cb : Cb) × (c.p_kcp ≡ some cb)) × (is_negative c.udp_socket ≡ false)

module _ (kcp : Kcp) where
  open kcp use {Cb}

  -- What an `update` of a client with a callback does for the verdict.
  abbrev pub Tells : Client Cb → Outcome Cb → Type 0
  Tells c r =
      (r.exit ≡ returned)
      × (r.client.has_event_func ≡ true)
      × IsValid r.client
      × (verdicts r.effects + stage r.client.in_connect_stage ≡ stage c.in_connect_stage)

  try_recv-Tells :
      (received : Received) (c : Client Cb)
      → IsValid c
      → c.has_event_func ≡ true
      → c.in_connect_stage ≡ true
      → Tells c (Client.try_recv_connect_back_packet kcp received c)
  unfolding Client.try_recv_connect_back_packet Client.init_kcp
  try_recv-Tells try_again c v has e = (refl, has, v, omega arith)
  try_recv-Tells failed c v has e = (refl, has, v, omega arith)
  try_recv-Tells (datagram bytes) c v has e =
      elim (Bool-cases (is_send_back_conv_packet (take 1400 bytes))) [
        | inl t ↦
            rw (t, has, e)
              (
                refl,
                refl,
                record { connecting = λ h. cc; connected = λ h. ((_, refl), (v.connecting e).1) },
                omega arith,
              )
        | inr f ↦ rw f (refl, has, v, omega arith)
      ]

  do_asio_kcp_connect-Tells :
      (clock : ℕ) (received : Received) (c : Client Cb)
      → IsValid c
      → c.has_event_func ≡ true
      → c.in_connect_stage ≡ true
      → Tells c (Client.do_asio_kcp_connect kcp clock received c)
  unfolding Client.do_asio_kcp_connect Client.do_send_connect_packet
  do_asio_kcp_connect-Tells clock received c v has e =
      elim (Bool-cases (Client.connect_timeout clock c)) [
        | inl t ↦
            rw (Client.do_asio_kcp_connect, t, has, e)
              (refl, refl, record { connecting = λ h. cc; connected = λ h. v.connected h }, refl)
        | inr f ↦ elim (Bool-cases (Client.need_send_connect_packet clock c)) [
          | inl n ↦
              rw (Client.do_asio_kcp_connect, f, n)
                (try_recv-Tells received (Client.do_send_connect_packet clock c).0
                  (record { connecting = v.connecting; connected = v.connected }) has e)
          | inr n ↦ rw (Client.do_asio_kcp_connect, f, n) (try_recv-Tells received c v has e)
        ]
      ]

  update_connected-Tells :
      (fuel clock : ℕ) (received : Received) (cb : Cb) (c : Client Cb)
      → IsValid c
      → c.has_event_func ≡ true
      → Whenever (Tells c) (Client.update_connected kcp fuel clock received cb c)
  unfolding Client.update_connected Client.do_send_msg_in_queue
  update_connected-Tells fuel clock received cb c v has =
      let (c', cb') = Client.do_send_msg_in_queue kcp cb c in
      finished (Client.do_recv_udp_packet_in_loop kcp fuel received cb' c')
        (do_recv-IsPlain kcp fuel received cb' c' has)
    where
      finished :
          (o : Option (Cb × List Effect × Exit))
          → Whenever (IsPlain kcp) o
          → Whenever (Tells c) (elim o as (λ _. Option (Outcome Cb)) [
            | none ↦ none
            | some (cb'', effects, exit) ↦
                some (
                  Client.finish kcp clock
                    (Client.do_send_msg_in_queue kcp cb c).0
                    cb''
                    effects
                    exit)
          ])
      finished none h = tt
      finished (some (cb'', effects, null_pointer)) (quiet, e) = cc
      finished (some (cb'', effects, returned)) (quiet, e) = (
        refl,
        has,
        record { connecting = v.connecting; connected = λ h. ((_, refl), (v.connected h).1) },
        omega (
          arith,
          verdicts-append effects (map send_to_server (kcp.update (clock % u32_mod) cb'').1),
          verdicts-sends (kcp.update (clock % u32_mod) cb'').1,
          quiet,
        ),
      )

  -- The three branches of `update`.
  pub update-stage :
      (fuel clock : ℕ) (received : Received) (c : Client Cb)
      → c.in_connect_stage ≡ true
      → Client.update kcp fuel clock received c
        ≡ some (Client.do_asio_kcp_connect kcp clock received c)
  unfolding Client.update
  update-stage fuel clock received c e = rw (Client.update, e) refl

  pub update-connected :
      (fuel clock : ℕ) (received : Received) (c : Client Cb) (cb : Cb)
      → c.in_connect_stage ≡ false
      → c.connect_succeed ≡ true
      → c.p_kcp ≡ some cb
      → Client.update kcp fuel clock received c
        ≡ Client.update_connected kcp fuel clock received cb c
  unfolding Client.update
  update-connected fuel clock received c cb e e' k = ground arith

  pub update-idle :
      (fuel clock : ℕ) (received : Received) (c : Client Cb)
      → c.in_connect_stage ≡ false
      → c.connect_succeed ≡ false
      → Client.update kcp fuel clock received c ≡ some (Client.idle kcp c)
  unfolding Client.update
  update-idle fuel clock received c e e' = rw (Client.update, e, e') refl

  -- An `update` of a well-formed client with a callback uses no null pointer and reports the end of a connect if and
  -- only if the client was in the connect stage and leaves it, and then once; and it keeps the state
  -- well-formed: a client in the connect stage has a socket and no connection, a connected one has a
  -- socket and a block of KCP.
  pub update_lem :
      (fuel clock : ℕ) (received : Received) (c : Client Cb)
      → IsValid c
      → c.has_event_func ≡ true
      → Whenever (Tells c) (Client.update kcp fuel clock received c)
  unfolding Client.update
  update_lem fuel clock received c v has = elim (Bool-cases c.in_connect_stage) [
    | inl e ↦
        subst (Whenever (Tells c)) (sym (update-stage fuel clock received c e))
          (do_asio_kcp_connect-Tells clock received c v has e)
    | inr f ↦ elim (Bool-cases c.connect_succeed) [
      | inl t ↦
          let ((cb, k), _) = v.connected t in
          subst (Whenever (Tells c)) (sym (update-connected fuel clock received c cb f t k))
            (update_connected-Tells fuel clock received cb c v has)
      | inr n ↦
          subst (Whenever (Tells c)) (sym (update-idle fuel clock received c f n))
            (refl, has, v, omega arith)
    ]
  ]

  -- The reply of the server is at the socket.
  abbrev pub Replied : Received → Type 0
  Replied received =
      (bytes : Bytes) × ((received ≡ datagram bytes)
        × (is_send_back_conv_packet (take 1400 bytes) ≡ true))

  -- What ends a connect.
  abbrev pub EndsConnect : ℕ → Received → Client Cb → Type 0
  EndsConnect clock received c = (Client.connect_timeout clock c ≡ true) ⊎ Replied received

  -- A null pointer is used, or the connect goes on without a callback.
  abbrev pub Fails : Outcome Cb → Type 0
  Fails r = r.exit ≡ null_pointer

  abbrev pub GoesOn : Outcome Cb → Type 0
  GoesOn r =
      (r.exit ≡ returned) × (r.client.in_connect_stage ≡ true) × (r.client.has_event_func ≡ false)

  try_recv-Fails :
      (received : Received) (c : Client Cb)
      → c.has_event_func ≡ false
      → c.in_connect_stage ≡ true
      → (Replied received × Fails (Client.try_recv_connect_back_packet kcp received c))
        ⊎ ((¬ Replied received) × GoesOn (Client.try_recv_connect_back_packet kcp received c))
  unfolding Client.try_recv_connect_back_packet Client.init_kcp
  try_recv-Fails try_again c unset e = inr ((λ replied. cc (replied.1.0)), (refl, e, unset))
  try_recv-Fails failed c unset e = inr ((λ replied. cc (replied.1.0)), (refl, e, unset))
  try_recv-Fails (datagram bytes) c unset e =
      elim (Bool-cases (is_send_back_conv_packet (take 1400 bytes))) [
        | inl t ↦ rw (t, unset) (inl ((bytes, (refl, t)), refl))
        | inr f ↦ rw f (inr (no_reply f, (refl, e, unset)))
      ]
    where
      no_reply : is_send_back_conv_packet (take 1400 bytes) ≡ false → ¬ Replied (datagram bytes)
      no_reply f (other, (same, t)) = cc

  with_timeout :
      {F G : Type 0} (clock : ℕ) (received : Received) (c : Client Cb)
      → Client.connect_timeout clock c ≡ false
      → (Replied received × F) ⊎ ((¬ Replied received) × G)
      → (EndsConnect clock received c × F) ⊎ ((¬ EndsConnect clock received c) × G)
  with_timeout clock received c f (inl (r, x)) = inl (inr r, x)
  with_timeout clock received c f (inr (unreplied, x)) =
      inr ((λ h. elim h [ inl t ↦ cc | inr r ↦ unreplied r ]), x)

  connect-timed_out :
      (clock : ℕ) (received : Received) (c : Client Cb)
      → c.has_event_func ≡ false
      → Client.connect_timeout clock c ≡ true
      → Fails (Client.do_asio_kcp_connect kcp clock received c)
  unfolding Client.do_asio_kcp_connect
  connect-timed_out clock received c unset t = rw (Client.do_asio_kcp_connect, t, unset) refl

  -- What the socket gives decides, where the connect has not timed out.
  connect-in_time :
      (clock : ℕ) (received : Received) (c : Client Cb)
      → c.has_event_func ≡ false
      → c.in_connect_stage ≡ true
      → Client.connect_timeout clock c ≡ false
      → (Replied received × Fails (Client.do_asio_kcp_connect kcp clock received c))
        ⊎ ((¬ Replied received) × GoesOn (Client.do_asio_kcp_connect kcp clock received c))
  unfolding Client.do_asio_kcp_connect Client.do_send_connect_packet
  connect-in_time clock received c unset e f =
      elim (Bool-cases (Client.need_send_connect_packet clock c)) [
        | inl n ↦
            rw (Client.do_asio_kcp_connect, f, n)
              (try_recv-Fails received (Client.do_send_connect_packet clock c).0 unset e)
        | inr n ↦ rw (Client.do_asio_kcp_connect, f, n) (try_recv-Fails received c unset e)
      ]

  connect-Fails :
      (clock : ℕ) (received : Received) (c : Client Cb)
      → c.has_event_func ≡ false
      → c.in_connect_stage ≡ true
      → (EndsConnect clock received c × Fails (Client.do_asio_kcp_connect kcp clock received c))
        ⊎ ((¬ EndsConnect clock received c)
            × GoesOn (Client.do_asio_kcp_connect kcp clock received c))
  connect-Fails clock received c unset e = elim (Bool-cases (Client.connect_timeout clock c)) [
    | inl t ↦ inl (inl t, connect-timed_out clock received c unset t)
    | inr f ↦ with_timeout clock received c f (connect-in_time clock received c unset e f)
  ]

  -- The end of a connect is reported through a callback that is not looked for, though the application need not set
  -- one. In the connect stage, without a callback, `update` has a result whatever the socket gives: with the
  -- connect timed out, or with the reply of the server, that is the use of a null pointer; with neither
  -- it returns and the connect goes on. So no connect without a callback ends in any other way.
  pub verdict_null_pointer :
      (fuel clock : ℕ) (received : Received) (c : Client Cb)
      → c.has_event_func ≡ false
      → c.in_connect_stage ≡ true
      → (r : Outcome Cb) × ((Client.update kcp fuel clock received c ≡ some r)
          × (EndsConnect clock received c → r.exit ≡ null_pointer)
          × (¬ EndsConnect clock received c → GoesOn r))
  verdict_null_pointer fuel clock received c unset e = (
    Client.do_asio_kcp_connect kcp clock received c,
    elim (connect-Fails clock received c unset e) [
      | inl (ends, fails) ↦
          (update-stage fuel clock received c e, (λ _. fails), λ not_yet. absurd (not_yet ends))
      | inr (not_yet, on) ↦
          (update-stage fuel clock received c e, (λ ends. absurd (not_yet ends)), λ _. on)
    ],
  )
