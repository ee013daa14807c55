-- ===== src/Programs/TestClient/Goodbye.antt =====
-- A client that the server throws out: from the call at the server to the end of the test client.
use asio_kcp.Prelude.{
  ℕ, ◌<◌, ◌^◌, ◌≡◌, refl, true, false, [], ◌∷◌, List, map, Option, none, some, Bytes, codes,
  ==-refl, ◌∙◌, ap,
}
use asio_kcp.ConnectPacket.{making_disconnect_packet}
use asio_kcp.Kcp.{Kcp}
use asio_kcp.Server
use asio_kcp.Server.{send_to}
use asio_kcp.Server.Connection.{Connection}
use asio_kcp.Server.Container
use asio_kcp.Server.Manager
use asio_kcp.Server.Manager.{Manager}
use asio_kcp.Server.Invariant.{IsValid}
use asio_kcp.Server.Calls.{force_disconnect_lem, goodbye}
use asio_kcp.Client
use asio_kcp.Client.{Client, Effect, datagram, event, disconnect, send_to_server}
use asio_kcp.Client.Goodbye.{KeepsConv, update_goodbye}
use asio_kcp.Programs.TestClient.{
  TestClient, hook_client_timer, called_back, handle_client_event_callback, handle_client_time,
}

sends-stopped :
    {Cb : Type 0} (bufs : List Bytes) (t : TestClient Cb)
    → called_back (map send_to_server bufs) t ≡ t
unfolding called_back
sends-stopped [] t = refl
sends-stopped (buf ∷ bufs) t = sends-stopped bufs t

module _ (kcp : Kcp) where
  open kcp use {Cb}

  abbrev hooked : TestClient Cb → TestClient Cb
  hooked t = record t { client_timer = true }

  hook_lem :
      (t : TestClient Cb)
      → t.stopped ≡ false
      → hook_client_timer (record t { client_timer = false }) ≡ hooked t
  unfolding hook_client_timer
  hook_lem t live = rw live refl

  handle_client_time-update :
      (fuel clock : ℕ) (received : Client.Received) (t : TestClient Cb) (r : Client.Outcome Cb)
      → t.stopped ≡ false
      → Client.update kcp fuel clock received t.kcp_client ≡ some r
      → handle_client_time kcp fuel clock received t
        ≡ some (called_back r.effects (record (hooked t) { kcp_client = r.client }), r.effects)
  unfolding handle_client_time hook_client_timer
  handle_client_time-update fuel clock received t r live e =
      ap updated (hook_lem t live) ∙ rw e refl
    where
      updated : TestClient Cb → Option (TestClient Cb × List Effect)
      updated u = elim (Client.update kcp fuel clock received u.kcp_client) [
        | none ↦ none
        | some r ↦ some (called_back r.effects (record u { kcp_client = r.client }), r.effects)
      ]

  -- The end that the callback makes of the event.
  stops :
      (conv : ℕ) (text : Bytes) (bufs : List Bytes) (t : TestClient Cb)
      → (called_back (event conv disconnect text ∷ map send_to_server bufs) t).stopped ≡ true
  unfolding called_back handle_client_event_callback
  stops conv text bufs t = ap (λ u. u.stopped) (sends-stopped bufs (record t { stopped = true }))

  -- A client that the server throws out comes to know of it, and the test client ends. Where a connection with a
  -- 32-bit conv is in a valid server, `force_disconnect` tells the application of it, sends a packet to
  -- the endpoint of the connection, and removes the connection. When the timer of the test client
  -- at the other end, running, connected, with a callback and a block of the same conv, fires and
  -- receives this packet, its callback is called with `eDisconnect`, the conv and the packet, before
  -- what KCP sends in this update; and the test client is stopped. KCP keeps its conv when a message is sent.
  pub thrown_out :
      (fuel clock conv : ℕ) (m : Manager Cb) (c : Connection Cb) (t : TestClient Cb) (cb : Cb)
      → conv < 2 ^ 32
      → KeepsConv kcp
      → IsValid m
      → Container.find_by_conv conv m.connections ≡ some c
      → t.stopped ≡ false
      → t.kcp_client.in_connect_stage ≡ false
      → t.kcp_client.connect_succeed ≡ true
      → t.kcp_client.has_event_func ≡ true
      → t.kcp_client.p_kcp ≡ some cb
      → kcp.conv cb ≡ conv
      → let r = Manager.force_disconnect conv m in
        let packet = making_disconnect_packet conv in
        (r.effects
          ≡ Server.event conv Server.disconnect (codes "server force disconnect")
            ∷ send_to c.udp_remote_endpoint packet
            ∷ [])
        × (Container.find_by_conv conv r.manager.connections ≡ none)
        × ((t' : TestClient Cb) × (bufs : List Bytes) × (handle_client_time kcp fuel clock
                (datagram packet)
                t
              ≡ some (t', event conv disconnect packet ∷ map send_to_server bufs))
            × (t'.stopped ≡ true))
  thrown_out fuel clock conv m c t cb h keeps v found live e e' has k same =
      let (removed, told) = force_disconnect_lem conv m v in
      let (r, bufs, updated, effects, _) =
        update_goodbye kcp fuel clock conv t.kcp_client cb h keeps e e' has k in
      let timed =
        handle_client_time-update fuel clock (datagram (making_disconnect_packet conv)) t r live
          updated in
      let t' = record (hooked t) { kcp_client = r.client } in
      let packet = making_disconnect_packet conv in
      (
        told ∙ ap (goodbye conv) found,
        removed conv ∙ rw (==-refl conv) refl,
        (
          called_back r.effects t',
          bufs,
          timed
              ∙ ap (λ es. some (called_back r.effects t', es))
                  (effects ∙ ap (λ n. event n disconnect packet ∷ map send_to_server bufs) same),
          ap (λ es. (called_back es t').stopped) effects ∙ stops (kcp.conv cb) packet bufs t',
        ),
      )
