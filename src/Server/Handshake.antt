-- ===== src/Server/Handshake.antt =====
-- A connect packet at the server.
use asio_kcp.Prelude.{
  &&-left, ==_iff, Option-cases, inl, inr, length, ℕ, ◌+◌, ◌<◌, ◌≡◌, refl, true, false, [], ◌∷◌,
  none, some, arith, u32_mod, ◌==◌, if◌then◌else◌, Bytes,
}
use asio_kcp.Prelude.Maps.{insert, lookup-insert}
use asio_kcp.ConnectPacket.{
  is_connect_packet, is_send_back_conv_packet, making_send_back_conv_packet,
  grab_conv_from_send_back_conv_packet,
}
use asio_kcp.ConnectPacket.Handshake.{send_back_conv_round_trip}
use asio_kcp.Kcp.{Kcp}
use asio_kcp.Server.{Endpoint, send_to}
use asio_kcp.Server.Connection
use asio_kcp.Server.Connection.{Connection}
use asio_kcp.Server.Container
use asio_kcp.Server.Manager
use asio_kcp.Server.Manager.{Manager, returned}
use asio_kcp.Server.Invariant.{IsValid, find_by_conv-conv}

module _ (kcp : Kcp) where
  open kcp use {Cb}

  -- The next conv to give out is not in the table.
  pub fresh :
      (k : ℕ) (m : Manager Cb)
      → m.connections.static_cur_conv < k
      → IsValid m
      → Container.find_by_conv k m.connections ≡ none
  fresh k m h v = elim (Option-cases (Container.find_by_conv k m.connections)) [
    | inl e ↦ e
    | inr (c, e) ↦ absurd (omega (arith, (find_by_conv-conv k m.connections v.container e).1))
  ]

  pub connect_length : (packet : Bytes) → is_connect_packet packet ≡ true → length packet ≡ 34
  unfolding is_connect_packet
  connect_length packet h = (==_iff (length packet) 34).0 (&&-left _ _ h)

  pub connect_outcome :
      (m : Manager Cb) (ep : Endpoint) (packet : Bytes)
      → is_connect_packet packet ≡ true
      → m.connections.static_cur_conv + 1 < u32_mod
      → m.socket_open ≡ true
      → m.stopped ≡ false
      → Container.find_by_conv (m.connections.static_cur_conv + 1) m.connections ≡ none
      → let conv = m.connections.static_cur_conv + 1 in
        Manager.handle_udp_receive_from kcp false ep packet m ≡ record {
          manager = record m {
            receiving = true;
            udp_remote_endpoint = ep;
            connections = record {
              connections = insert conv (Connection.create kcp conv ep) m.connections.connections;
              static_cur_conv = conv;
            };
          };
          effects = send_to ep (making_send_back_conv_packet conv) ∷ [];
          exit = returned;
        }
  unfolding Manager.handle_udp_receive_from
  connect_outcome m ep packet p h o s f = ground (arith, connect_length packet p)

  -- While a conv is left to give out, a server with an open socket and a valid state answers a connect packet with one datagram to
  -- the sender, which the sender takes for the reply and from which it reads a conv; no connection had
  -- that conv before, afterwards it is that of a new connection to the sender, and all other
  -- connections are as they were; and the server waits for the next datagram.
  pub connect_lem :
      (m : Manager Cb) (ep : Endpoint) (packet : Bytes)
      → is_connect_packet packet ≡ true
      → m.connections.static_cur_conv + 1 < u32_mod
      → m.socket_open ≡ true
      → IsValid m
      → let conv = m.connections.static_cur_conv + 1 in
        let r = Manager.handle_udp_receive_from kcp false ep packet m in
        (r.effects ≡ send_to ep (making_send_back_conv_packet conv) ∷ [])
        × (is_send_back_conv_packet (making_send_back_conv_packet conv) ≡ true)
        × (grab_conv_from_send_back_conv_packet (making_send_back_conv_packet conv) ≡ conv)
        × (Container.find_by_conv conv m.connections ≡ none)
        × ((j : ℕ)
            → Container.find_by_conv j r.manager.connections ≡ (
                if conv == j
                then some (Connection.create kcp conv ep)
                else Container.find_by_conv j m.connections))
        × (r.manager.receiving ≡ true)
        × (r.exit ≡ returned)
  unfolding Container.find_by_conv
  connect_lem m ep packet p h o v =
      let conv = m.connections.static_cur_conv + 1 in
      let new = fresh conv m (omega arith) v in
      let (known, same) = send_back_conv_round_trip conv h in
      rw (connect_outcome m ep packet p h o (v.closed o) new) (
        refl,
        known,
        same,
        new,
        λ j. lookup-insert conv j (Connection.create kcp conv ep) m.connections.connections,
        refl,
        refl,
      )
