-- ===== src/Client/Handshake.antt =====
-- A connect that is done by the client and the server together.
use asio_kcp.Prelude.{
  ℕ, zero, suc, ◌+◌, ◌<◌, ◌≤◌, ◌/◌, ◌%◌, ◌≡◌, refl, ◌∙◌, true, false, [], ◌∷◌, some, arith, length,
  take-all, length-append, take, u32_mod, codes, ==-refl,
}
use asio_kcp.StdText.{digits, format_unsigned}
use asio_kcp.ConnectPacket.{making_connect_packet, making_send_back_conv_packet}
use asio_kcp.ConnectPacket.Handshake.{send_back_conv_round_trip, making_connect_lem}
use asio_kcp.Kcp.{Kcp}
use asio_kcp.Server.{Endpoint, send_to}
use asio_kcp.Server.Connection
use asio_kcp.Server.Container
use asio_kcp.Server.Manager
use asio_kcp.Server.Manager.{Manager}
use asio_kcp.Server.Invariant
use asio_kcp.Server.Handshake.{connect_lem}
use asio_kcp.Client
use asio_kcp.Client.{
  Client, Effect, Outcome, Received, try_again, datagram, send_to_server, event, connect, returned,
  ConnectCalls,
}
use asio_kcp.Client.Verdict.{update-stage}

pub length-digits : (f n : ℕ) → length (digits f n) ≤ f
unfolding digits
length-digits zero n = omega arith
length-digits (suc f) n =
    ground
      (arith, length-digits f (n / 10), length-append (digits f (n / 10)) ((b'0' + n % 10) ∷ []))

-- The reply of the server fits the client's buffer.
reply_fits :
    (conv : ℕ) → take 1400 (making_send_back_conv_packet conv) ≡ making_send_back_conv_packet conv
unfolding making_send_back_conv_packet format_unsigned
reply_fits conv =
    take-all 1400 (making_send_back_conv_packet conv) (ground (arith, length-digits 20 conv))

module _ (kcp : Kcp) where
  open kcp use {Cb}

  update-sends :
      (fuel clock : ℕ) (c : Client Cb)
      → c.in_connect_stage ≡ true
      → Client.connect_timeout clock c ≡ false
      → Client.need_send_connect_packet clock c ≡ true
      → Client.update kcp fuel clock try_again c
        ≡ some (record {
          client = record c { last_send_connect_msg_time = clock };
          effects = send_to_server making_connect_packet ∷ [];
          exit = returned;
        })
  unfolding Client.do_asio_kcp_connect Client.do_send_connect_packet
      Client.try_recv_connect_back_packet
  update-sends fuel clock c e t n =
      update-stage kcp fuel clock try_again c e ∙ rw (Client.do_asio_kcp_connect, t, n) refl

  update-receives :
      (fuel clock conv : ℕ) (c : Client Cb)
      → conv < u32_mod
      → c.in_connect_stage ≡ true
      → c.has_event_func ≡ true
      → Client.connect_timeout clock c ≡ false
      → Client.need_send_connect_packet clock c ≡ false
      → let cb = kcp.nodelay 1 2 1 1 (kcp.create conv) in
        Client.update kcp fuel clock (datagram (making_send_back_conv_packet conv)) c
        ≡ some (record {
          client = record c { in_connect_stage = false; connect_succeed = true; p_kcp = some cb };
          effects = event (kcp.conv cb) connect (codes "connect succeed") ∷ [];
          exit = returned;
        })
  unfolding Client.do_asio_kcp_connect Client.try_recv_connect_back_packet Client.init_kcp
  update-receives fuel clock conv c h e has t n =
      let (recognised, same) = send_back_conv_round_trip conv h in
      update-stage kcp fuel clock (datagram (making_send_back_conv_packet conv)) c e
      ∙ rw (Client.do_asio_kcp_connect, t, n, reply_fits conv, recognised, same, has) refl

  -- A client in the connect stage with a callback, whose last request is over half a second old and whose
  -- time is not over, sends one connect packet; a server with an open socket, a valid state and a conv left
  -- that gets it makes a connection to the sender under a new conv and answers with one datagram; and when
  -- the client gets that, in time and before it would send again, it has a block of KCP with the same conv,
  -- is connected, and calls back with `eConnect`.
  pub handshake_lem :
      (fuel clock later : ℕ) (c : Client Cb) (m : Manager Cb) (ep : Endpoint)
      → c.in_connect_stage ≡ true
      → c.has_event_func ≡ true
      → Client.connect_timeout clock c ≡ false
      → Client.need_send_connect_packet clock c ≡ true
      → Client.connect_timeout later c ≡ false
      → Client.need_send_connect_packet later (record c { last_send_connect_msg_time = clock })
        ≡ false
      → m.connections.static_cur_conv + 1 < u32_mod
      → m.socket_open ≡ true
      → Invariant.IsValid m
      → let conv = m.connections.static_cur_conv + 1 in
        let waits = record c { last_send_connect_msg_time = clock } in
        let r = Manager.handle_udp_receive_from kcp false ep making_connect_packet m in
        let cb = kcp.nodelay 1 2 1 1 (kcp.create conv) in
        (Client.update kcp fuel clock try_again c
          ≡ some (record {
            client = waits;
            effects = send_to_server making_connect_packet ∷ [];
            exit = returned;
          }))
        × (r.effects ≡ send_to ep (making_send_back_conv_packet conv) ∷ [])
        × (Container.find_by_conv conv r.manager.connections ≡ some (Connection.create kcp conv ep))
        × (Client.update kcp fuel later (datagram (making_send_back_conv_packet conv)) waits
            ≡ some (record {
              client = record waits {
                in_connect_stage = false;
                connect_succeed = true;
                p_kcp = some cb;
              };
              effects = event (kcp.conv cb) connect (codes "connect succeed") ∷ [];
              exit = returned;
            }))
  unfolding Client.connect_timeout
  handshake_lem fuel clock later c m ep e has t n t' n' few open_ v =
      let conv = m.connections.static_cur_conv + 1 in
      let (replied, _, _, _, table, _, _) =
        connect_lem kcp m ep making_connect_packet making_connect_lem few open_ v in
      (
        update-sends fuel clock c e t n,
        replied,
        table conv ∙ rw (==-refl conv) refl,
        update-receives fuel later conv (record c { last_send_connect_msg_time = clock }) few e has
            t' n',
      )
