-- ===== src/ClientWrap/Turns.antt =====
-- One update of the client in the connect stage.
use asio_kcp.Prelude.{
  ℕ, ◌≡◌, ◌≢◌, ap, inl, inr, refl, ◌∙◌, true, false, List, [], ◌∷◌, ◌++◌, map, Bytes, codes, take,
  Bool-cases, arith,
}
use asio_kcp.ConnectPacket.{
  making_connect_packet, is_send_back_conv_packet, grab_conv_from_send_back_conv_packet,
}
use asio_kcp.Kcp.{Kcp}
use asio_kcp.Client
use asio_kcp.Client.{
  Client, Effect, EventType, connect, connect_failed, event, send_to_server, Outcome, Received,
  try_again, failed, datagram,
}

-- A tick that comes when the time for the connect is over.
module _ {Cb : Type 0} where
  -- Still connecting, with the same time to end.
  pub record Keeps (c c' : Client Cb) : Type 0 where
    pub in_stage : c'.in_connect_stage ≡ true
    pub start : c'.connect_start_time ≡ c.connect_start_time
    pub has : c'.has_event_func ≡ true

  -- What an update in the connect stage may do: the time is over; a reply came; or neither.
  pub data Turn (c : Client Cb) : Outcome Cb → Type 0 where
    times_out :
        (r : Outcome Cb)
        → r.client.in_connect_stage ≡ false
        → r.client.connect_succeed ≡ c.connect_succeed
        → r.effects ≡ event 0 connect_failed (codes "connect timeout") ∷ []
        → Turn c r
    connects :
        (r : Outcome Cb) (bufs : List Bytes) (conv : ℕ)
        → r.client.in_connect_stage ≡ false
        → r.client.connect_succeed ≡ true
        → r.effects ≡ map send_to_server bufs ++ event conv connect (codes "connect succeed") ∷ []
        → Turn c r
    waits :
        (r : Outcome Cb) (bufs : List Bytes)
        → Keeps c r.client
        → r.client.connect_succeed ≡ c.connect_succeed
        → r.effects ≡ map send_to_server bufs
        → Turn c r

  sends_first :
      (c c' : Client Cb) (msg : Bytes) (r : Outcome Cb)
      → c'.connect_start_time ≡ c.connect_start_time
      → c'.connect_succeed ≡ c.connect_succeed
      → (r.effects ≢ event 0 connect_failed (codes "connect timeout") ∷ [])
      → Turn c' r
      → Turn c (Client.before (send_to_server msg ∷ []) r)
  sends_first c c' msg r same same' ne (times_out _ off lost e) = absurd (ne e)
  sends_first c c' msg r same same' ne (connects _ bufs conv off on e) =
      connects _ (msg ∷ bufs) conv off on (ap (◌∷◌ (send_to_server msg)) e)
  sends_first c c' msg r same same' ne (waits _ bufs k s e) =
      waits _ (msg ∷ bufs) (record { in_stage = k.in_stage; start = k.start ∙ same; has = k.has })
        (s ∙ same') (ap (◌∷◌ (send_to_server msg)) e)

module _ (kcp : Kcp) where
  open kcp use {Cb}

  connected-Turn :
      (conv : ℕ) (c : Client Cb) → c.has_event_func ≡ true → Turn c (Client.connected kcp conv c)
  unfolding Client.init_kcp
  connected-Turn conv c has =
      connects (Client.connected kcp conv c) [] (kcp.conv (kcp.nodelay 1 2 1 1 (kcp.create conv)))
        (ground arith) (ground arith) (ground arith)

  stays :
      (c : Client Cb)
      → c.in_connect_stage ≡ true
      → c.has_event_func ≡ true
      → Turn c (Client.idle kcp c)
  stays c e has = waits _ [] (record { in_stage = e; start = refl; has = has }) refl refl

  -- Without the time being over.
  try_recv-Turn :
      (received : Received) (c : Client Cb)
      → c.in_connect_stage ≡ true
      → c.has_event_func ≡ true
      → Turn c (Client.try_recv_connect_back_packet kcp received c)
  unfolding Client.try_recv_connect_back_packet
  try_recv-Turn try_again c e has = stays c e has
  try_recv-Turn failed c e has = stays c e has
  try_recv-Turn (datagram bytes) c e has =
      elim (Bool-cases (is_send_back_conv_packet (take 1400 bytes))) [
        | inl t ↦
            rw t (connected-Turn (grab_conv_from_send_back_conv_packet (take 1400 bytes)) c has)
        | inr f ↦ rw f (stays c e has)
      ]

  no_timeout :
      (received : Received) (c : Client Cb)
      → (Client.try_recv_connect_back_packet kcp received c).effects
        ≢ event 0 connect_failed (codes "connect timeout") ∷ []
  unfolding Client.try_recv_connect_back_packet
  no_timeout try_again c = cc
  no_timeout failed c = cc
  no_timeout (datagram bytes) c = ground arith

  pub do_asio_kcp_connect-Turn :
      (clock : ℕ) (received : Received) (c : Client Cb)
      → c.in_connect_stage ≡ true
      → c.has_event_func ≡ true
      → Client.connect_timeout clock c ≡ false
      → Turn c (Client.do_asio_kcp_connect kcp clock received c)
  unfolding Client.do_asio_kcp_connect Client.do_send_connect_packet
  do_asio_kcp_connect-Turn clock received c e has f =
      elim (Bool-cases (Client.need_send_connect_packet clock c)) [
        | inl n ↦
            rw (Client.do_asio_kcp_connect, f, n)
              (sends_first c (record c { last_send_connect_msg_time = clock }) making_connect_packet
                _ refl refl (no_timeout received (record c { last_send_connect_msg_time = clock }))
                (try_recv-Turn received (record c { last_send_connect_msg_time = clock }) e has))
        | inr n ↦ rw (Client.do_asio_kcp_connect, f, n) (try_recv-Turn received c e has)
      ]

  pub over-Turn :
      (clock : ℕ) (received : Received) (c : Client Cb)
      → c.has_event_func ≡ true
      → Client.connect_timeout clock c ≡ true
      → ((Client.do_asio_kcp_connect kcp clock received c).client.in_connect_stage ≡ false)
        × ((Client.do_asio_kcp_connect kcp clock received c).client.connect_succeed
            ≡ c.connect_succeed)
        × ((Client.do_asio_kcp_connect kcp clock received c).effects
            ≡ event 0 connect_failed (codes "connect timeout") ∷ [])
  unfolding Client.do_asio_kcp_connect
  over-Turn clock received c has t = rw (Client.do_asio_kcp_connect, t, has) (refl, refl, refl)
