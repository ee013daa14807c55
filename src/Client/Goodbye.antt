-- ===== src/Client/Goodbye.antt =====
-- What a connected client makes of the disconnect packet of the server.
use asio_kcp.Prelude.{
  ℕ, ◌<◌, ◌*◌, ◌^◌, ◌≡◌, refl, ap, ◌%◌, u32_mod, ◌∙◌, true, false, List, [], ◌∷◌, map, some, Bytes,
  arith, take, take-all,
}
use asio_kcp.StdText.{format_unsigned}
use asio_kcp.ConnectPacket.{making_disconnect_packet, is_disconnect_packet}
use asio_kcp.ConnectPacket.Handshake.{disconnect_round_trip}
use asio_kcp.Kcp.{Kcp}
use asio_kcp.Client
use asio_kcp.Client.{
  Client, Effect, Exit, Outcome, Received, datagram, event, disconnect, send_to_server, returned,
  max_msg_size,
}
use asio_kcp.Client.Queue.{grab_all}
use asio_kcp.Client.Handshake.{length-digits}
use asio_kcp.Client.Verdict.{update-connected}

disconnect_fits :
    (conv : ℕ)
    → take (max_msg_size * 2) (making_disconnect_packet conv) ≡ making_disconnect_packet conv
unfolding making_disconnect_packet format_unsigned
disconnect_fits conv =
    take-all (max_msg_size * 2) (making_disconnect_packet conv)
      (ground (arith, length-digits 20 conv))

module _ (kcp : Kcp) where
  open kcp use {Cb}

  -- KCP keeps its conv when a message is sent.
  abbrev pub KeepsConv : Type 0
  KeepsConv = (msg : Bytes) (cb : Cb) → kcp.conv (kcp.send msg cb).0 ≡ kcp.conv cb

  send_all-KeepsConv :
      (msgs : List Bytes) (cb : Cb)
      → KeepsConv
      → kcp.conv (Client.send_all kcp msgs cb) ≡ kcp.conv cb
  unfolding Client.send_all
  send_all-KeepsConv [] cb keeps = refl
  send_all-KeepsConv (msg ∷ msgs) cb keeps =
      send_all-KeepsConv msgs (kcp.send msg cb).0 keeps ∙ keeps msg cb

  handle_disconnect :
      (fuel : ℕ) (packet : Bytes) (b : ℕ) (bs : Bytes) (cb : Cb) (c : Client Cb)
      → take (max_msg_size * 2) packet ≡ b ∷ bs
      → is_disconnect_packet (b ∷ bs) ≡ true
      → c.has_event_func ≡ true
      → Client.do_recv_udp_packet_in_loop kcp fuel (datagram packet) cb c
        ≡ some (cb, event (kcp.conv cb) disconnect (b ∷ bs) ∷ [], returned)
  unfolding Client.do_recv_udp_packet_in_loop Client.handle_udp_packet
  handle_disconnect fuel packet b bs cb c fits is has =
      rw (Client.do_recv_udp_packet_in_loop, fits, Client.handle_udp_packet, is, has) refl

  handle_goodbye :
      (fuel conv : ℕ) (cb : Cb) (c : Client Cb)
      → conv < 2 ^ 32
      → c.has_event_func ≡ true
      → Client.do_recv_udp_packet_in_loop kcp fuel (datagram (making_disconnect_packet conv)) cb c
        ≡ some (cb, event (kcp.conv cb) disconnect (making_disconnect_packet conv) ∷ [], returned)
  unfolding making_disconnect_packet
  handle_goodbye fuel conv cb c h has =
      handle_disconnect fuel (making_disconnect_packet conv) _ _ cb c (disconnect_fits conv)
        (disconnect_round_trip conv h).0 has

  sent :
      (fuel clock conv : ℕ) (cb : Cb) (c : Client Cb)
      → conv < 2 ^ 32
      → c.has_event_func ≡ true
      → let cb' = Client.send_all kcp c.send_msg_queue cb in
        Client.update_connected kcp fuel clock (datagram (making_disconnect_packet conv)) cb c
        ≡ some (
            Client.finish kcp clock
              (record c { send_msg_queue = [] })
              cb'
              (event (kcp.conv cb') disconnect (making_disconnect_packet conv) ∷ [])
              returned)
  unfolding Client.update_connected Client.do_send_msg_in_queue grab_all
  sent fuel clock conv cb c h has =
      rw
        (
          Client.update_connected,
          handle_goodbye fuel conv (Client.send_all kcp c.send_msg_queue cb)
              (record c { send_msg_queue = [] }) h has,
        )
        refl

  -- A connected client with a callback reports the disconnect packet of the server, with its own conv and the packet as the
  -- text, and goes on; what KCP has to send goes out behind.
  pub update_goodbye :
      (fuel clock conv : ℕ) (c : Client Cb) (cb : Cb)
      → conv < 2 ^ 32
      → KeepsConv
      → c.in_connect_stage ≡ false
      → c.connect_succeed ≡ true
      → c.has_event_func ≡ true
      → c.p_kcp ≡ some cb
      → (r : Outcome Cb) × (bufs : List Bytes) × (Client.update kcp fuel clock
            (datagram (making_disconnect_packet conv))
            c
          ≡ some r)
        × (r.effects
            ≡ event (kcp.conv cb) disconnect (making_disconnect_packet conv)
              ∷ map send_to_server bufs)
        × (r.exit ≡ returned)
  unfolding Client.update_connected Client.do_send_msg_in_queue
  update_goodbye fuel clock conv c cb h keeps e e' has k =
      let c' = record c { send_msg_queue = [] } in
      let cb' = Client.send_all kcp c.send_msg_queue cb in
      let packet = making_disconnect_packet conv in
      (
        Client.finish kcp clock c' cb' (event (kcp.conv cb') disconnect packet ∷ []) returned,
        (kcp.update (clock % u32_mod) cb').1,
        update-connected kcp fuel clock (datagram packet) c cb e e' k
            ∙ sent fuel clock conv cb c h has,
        ap
            (λ n.
              event n disconnect packet ∷ map send_to_server (kcp.update (clock % u32_mod) cb').1)
            (send_all-KeepsConv c.send_msg_queue cb keeps),
        refl,
      )
