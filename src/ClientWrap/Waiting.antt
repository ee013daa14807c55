-- ===== src/ClientWrap/Waiting.antt =====
-- The connect that waits: it ends, with the result that the client reports.
use asio_kcp.Prelude.{
  ℕ, ◌≡◌, ◌⊎◌, inl, inr, refl, sym, ◌∙◌, true, false, List, [], ◌∷◌, ◌++◌, map, some, Bytes, codes,
  append-nil, Bool-cases,
}
use asio_kcp.Prelude.Int.{ℤ, pos}
use asio_kcp.Kcp.{Kcp}
use asio_kcp.Client
use asio_kcp.Client.{
  Client, Effect, EventType, connect, connect_failed, event, send_to_server, Outcome, Received,
  try_again, failed, datagram,
}
use asio_kcp.Client.Verdict.{update-stage}
use asio_kcp.ClientWrap
use asio_kcp.ClientWrap.Turns.{
  Turn, times_out, connects, waits, do_asio_kcp_connect-Turn, over-Turn,
}
use asio_kcp.ClientWrap.{ClientWrap, Tick, kcp_err_kcp_connect_timeout, is_unknown}

-- A tick that comes when the time for the connect is over.
abbrev pub ComesLate : {Cb : Type 0} → Client Cb → List Tick → Type 0
ComesLate c [] = ⊥
ComesLate c ((clock, received) ∷ ts) = (Client.connect_timeout clock c ≡ true) ⊎ ComesLate c ts

module _ (kcp : Kcp) where
  open kcp use {Cb}

  -- The wrapper after an update of its client in the connect stage.
  abbrev pub relayed : ℕ → Received → ClientWrap Cb → ClientWrap Cb × List Effect
  relayed clock received w =
      let r = Client.do_asio_kcp_connect kcp clock received w.client in
      ClientWrap.relay r.effects (record w { client = r.client })

  loop-step :
      (fuel clock : ℕ) (received : Received) (ts : List Tick) (w : ClientWrap Cb)
      (rest : ClientWrap Cb × List Effect × ℤ)
      → is_unknown w.connect_result ≡ true
      → w.client.in_connect_stage ≡ true
      → ClientWrap.do_asio_kcp_connect_loop kcp fuel ts (relayed clock received w).0 ≡ some rest
      → ClientWrap.do_asio_kcp_connect_loop kcp fuel ((clock, received) ∷ ts) w
        ≡ some (rest.0, (relayed clock received w).1 ++ rest.1, rest.2)
  unfolding ClientWrap.do_asio_kcp_connect_loop ClientWrap.update
  loop-step fuel clock received ts w rest unknown e h =
      rw
        (
          ClientWrap.do_asio_kcp_connect_loop,
          unknown,
          update-stage kcp fuel clock received w.client e,
          h,
        )
        refl

  loop-done :
      (fuel : ℕ) (ts : List Tick) (w : ClientWrap Cb)
      → is_unknown w.connect_result ≡ false
      → ClientWrap.do_asio_kcp_connect_loop kcp fuel ts w ≡ some (w, [], w.connect_result)
  unfolding ClientWrap.do_asio_kcp_connect_loop
  loop-done fuel [] w known = rw (ClientWrap.do_asio_kcp_connect_loop, known) refl
  loop-done fuel (t ∷ ts) w known = rw (ClientWrap.do_asio_kcp_connect_loop, known) refl

  relay-sends :
      (bufs : List Bytes) (es : List Effect) (w : ClientWrap Cb)
      → (ClientWrap.relay (map send_to_server bufs ++ es) w).0 ≡ (ClientWrap.relay es w).0
  unfolding ClientWrap.relay
  relay-sends [] es w = refl
  relay-sends (b ∷ bs) es w = relay-sends bs es w

  -- The end of the wait: 0 and a connected client, or the error for the time and no connection.
  abbrev pub IsSettled : ClientWrap Cb → ℤ → Type 0
  IsSettled w r =
      (w.client.in_connect_stage ≡ false)
      × (((r ≡ pos 0) × (w.client.connect_succeed ≡ true))
          ⊎ ((r ≡ kcp_err_kcp_connect_timeout) × (w.client.connect_succeed ≡ false)))

  abbrev pub Ends : ℕ → List Tick → ClientWrap Cb → Type 0
  Ends fuel ts w =
      (end : ClientWrap Cb × List Effect × ℤ) × ((ClientWrap.do_asio_kcp_connect_loop kcp fuel ts w
          ≡ some end)
        × IsSettled end.0 end.2)

  keeps_late :
      (c c' : Client Cb) (ts : List Tick)
      → c'.connect_start_time ≡ c.connect_start_time
      → ComesLate c ts
      → ComesLate c' ts
  unfolding Client.connect_timeout
  keeps_late c c' [] e h = h
  keeps_late c c' ((clock, received) ∷ ts) e (inl h) = inl (rw e h)
  keeps_late c c' ((clock, received) ∷ ts) e (inr h) = inr (keeps_late c c' ts e h)

  failed_end :
      (fuel clock : ℕ) (received : Received) (ts : List Tick) (w : ClientWrap Cb) (r : Outcome Cb)
      → is_unknown w.connect_result ≡ true
      → w.client.in_connect_stage ≡ true
      → w.client.connect_succeed ≡ false
      → r ≡ Client.do_asio_kcp_connect kcp clock received w.client
      → r.client.in_connect_stage ≡ false
      → r.client.connect_succeed ≡ w.client.connect_succeed
      → r.effects ≡ event 0 connect_failed (codes "connect timeout") ∷ []
      → Ends fuel ((clock, received) ∷ ts) w
  unfolding ClientWrap.relay ClientWrap.handle_client_event_callback
  failed_end fuel clock received ts w r unknown e lost same off still told =
      let w' = record w { client = r.client; connect_result = kcp_err_kcp_connect_timeout } in
      let state : (relayed clock received w).0 ≡ w' = rw⁻¹ same (rw told refl) in
      (
        _,
        (
          loop-step fuel clock received ts w (w', [], kcp_err_kcp_connect_timeout) unknown e
              (rw state (loop-done fuel ts w' refl)),
          (off, inr (refl, still ∙ lost)),
        ),
      )

  connected_end :
      (fuel clock : ℕ) (received : Received) (ts : List Tick) (w : ClientWrap Cb) (r : Outcome Cb)
      (bufs : List Bytes) (conv : ℕ)
      → is_unknown w.connect_result ≡ true
      → w.client.in_connect_stage ≡ true
      → r ≡ Client.do_asio_kcp_connect kcp clock received w.client
      → r.client.in_connect_stage ≡ false
      → r.client.connect_succeed ≡ true
      → r.effects ≡ map send_to_server bufs ++ event conv connect (codes "connect succeed") ∷ []
      → Ends fuel ((clock, received) ∷ ts) w
  unfolding ClientWrap.relay ClientWrap.handle_client_event_callback
  connected_end fuel clock received ts w r bufs conv unknown e same off on told =
      let w' = record w { client = r.client; connect_result = pos 0 } in
      let state : (relayed clock received w).0 ≡ w' = rw⁻¹ same (
        rw told (
          relay-sends bufs (event conv connect (codes "connect succeed") ∷ [])
            (record w { client = r.client }))) in
      (
        _,
        (
          loop-step fuel clock received ts w (w', [], pos 0) unknown e
              (rw state (loop-done fuel ts w' refl)),
          (off, inl (refl, on)),
        ),
      )

  waiting_state :
      (clock : ℕ) (received : Received) (w : ClientWrap Cb) (r : Outcome Cb) (bufs : List Bytes)
      → r ≡ Client.do_asio_kcp_connect kcp clock received w.client
      → r.effects ≡ map send_to_server bufs
      → (relayed clock received w).0 ≡ record w { client = r.client }
  unfolding ClientWrap.relay
  waiting_state clock received w r bufs same told = rw⁻¹ same (
      rw (told, sym (append-nil (map send_to_server bufs)))
        (relay-sends bufs [] (record w { client = r.client })))

  -- The blocking connect ends: if the result is not known yet, the client is in the connect stage, has its
  -- callback and is not connected, and among the times at which the loop updates it there is one that is
  -- over five seconds after the start, then the loop returns, with 0 and a connected client or with
  -- KCP_ERR_KCP_CONNECT_TIMEOUT and a client that is not, whatever the socket receives in between; and the
  -- client has left the connect stage.
  pub connect_loop-Ends :
      (fuel : ℕ) (ts : List Tick) (w : ClientWrap Cb)
      → is_unknown w.connect_result ≡ true
      → w.client.in_connect_stage ≡ true
      → w.client.has_event_func ≡ true
      → w.client.connect_succeed ≡ false
      → ComesLate w.client ts
      → Ends fuel ts w
  connect_loop-Ends fuel [] w unknown e has lost late = absurd late
  connect_loop-Ends fuel ((clock, received) ∷ ts) w unknown e has lost late =
      elim (Bool-cases (Client.connect_timeout clock w.client)) [
        | inl t ↦
            let (off, still, told) = over-Turn kcp clock received w.client has t in
            failed_end fuel clock received ts w _ unknown e lost refl off still told
        | inr f ↦
            by_turn _ refl (do_asio_kcp_connect-Turn kcp clock received w.client e has f)
              (later f late)
              (λ w' k e' has' lost' late'. connect_loop-Ends fuel ts w' k e' has' lost' late')
      ]
    where
      later :
          Client.connect_timeout clock w.client ≡ false
          → (Client.connect_timeout clock w.client ≡ true) ⊎ ComesLate w.client ts
          → ComesLate w.client ts
      later f (inl t) = cc
      later f (inr h) = h

      by_turn :
          (r : Outcome Cb)
          → r ≡ Client.do_asio_kcp_connect kcp clock received w.client
          → Turn w.client r
          → ComesLate w.client ts
          → ((w' : ClientWrap Cb)
              → is_unknown w'.connect_result ≡ true
              → w'.client.in_connect_stage ≡ true
              → w'.client.has_event_func ≡ true
              → w'.client.connect_succeed ≡ false
              → ComesLate w'.client ts
              → Ends fuel ts w')
          → Ends fuel ((clock, received) ∷ ts) w
      by_turn r same (times_out _ off still told) h rest =
          failed_end fuel clock received ts w r unknown e lost same off still told
      by_turn r same (connects _ bufs conv off on told) h rest =
          connected_end fuel clock received ts w r bufs conv unknown e same off on told
      by_turn r same (waits _ bufs k still told) h rest =
          let w' = record w { client = r.client } in
          let (end, (e', settled)) =
            rest w' unknown k.in_stage k.has (still ∙ lost)
              (keeps_late w.client r.client ts k.start h) in
          (
            _,
            (
              loop-step fuel clock received ts w end unknown e
                  (rw (waiting_state clock received w r bufs same told) e'),
              settled,
            ),
          )
