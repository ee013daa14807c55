-- ===== src/Programs/MulticastTest/Main/Goodbye.antt =====
-- How the loop of the client without multicast ends.
use asio_kcp.Prelude.{
  ℕ, ◌<◌, ◌^◌, ◌≡◌, refl, ap, ◌∙◌, append-nil, true, false, List, [], ◌∷◌, map, some, Bytes,
}
use asio_kcp.Prelude.Int.{pos}
use asio_kcp.ConnectPacket.{making_disconnect_packet}
use asio_kcp.MulticastClient.{JoinCalls}
use asio_kcp.Kcp.{Kcp}
use asio_kcp.Client
use asio_kcp.Client.{Client, Effect, Outcome, datagram, event, disconnect, send_to_server}
use asio_kcp.Client.Goodbye.{KeepsConv, update_goodbye}
use asio_kcp.Programs.MulticastTest.Plain
use asio_kcp.Programs.MulticastTest.Plain.{PlainClient}
use asio_kcp.Programs.MulticastTest.Main
use asio_kcp.Programs.MulticastTest.Main.{
  End, exits, Program, Turn, State, main_loop, called_back, send_random,
}
use asio_kcp.Programs.MulticastTest.Main.Waiting.{plain_program}

-- The global variables of a client that has lost its connection.
abbrev lost : PlainClient → PlainClient
lost g = record g { connected = false; running = false }

module _ (kcp : Kcp) where
  open kcp use {Cb}

  sends_only :
      (calls : Main.JoinCalls) (created : Main.Bool) (bufs : List Bytes) (g : PlainClient)
      → called_back plain_program kcp calls created (map send_to_server bufs) g ≡ some g
  unfolding called_back
  sends_only calls created [] g = refl
  sends_only calls created (buf ∷ bufs) g = sends_only calls created bufs g

  told_lost :
      (calls : Main.JoinCalls) (created : Main.Bool) (conv : ℕ) (text : Bytes) (bufs : List Bytes)
      (g : PlainClient)
      → called_back plain_program kcp calls created
          (event conv disconnect text ∷ map send_to_server bufs)
          g
        ≡ some (lost g)
  unfolding called_back Plain.client_event_callback
  told_lost calls created conv text bufs g = sends_only calls created bufs (lost g)

  loop_stopped :
      (fuel n : ℕ) (ts : List Turn) (t : Turn) (s : State plain_program kcp)
      → s.globals.running ≡ false
      → main_loop plain_program kcp fuel (pos n) (t ∷ ts) s ≡ some (exits 0 [])
  unfolding main_loop
  loop_stopped fuel n ts t s f = rw (main_loop, f) refl

  loop_turn :
      (fuel n : ℕ) (ts : List Turn) (t : Turn) (s : State plain_program kcp) (r : Outcome Cb)
      (g : PlainClient) (end : End)
      → s.globals.running ≡ true
      → s.globals.connected ≡ true
      → Client.update kcp fuel t.tick.0 t.tick.1 (send_random plain_program kcp t n s).client
        ≡ some r
      → called_back plain_program kcp t.calls t.created r.effects s.globals ≡ some g
      → main_loop plain_program kcp fuel
          (pos n)
          ts
          (record (send_random plain_program kcp t n s) { client = r.client; globals = g })
        ≡ some end
      → main_loop plain_program kcp fuel (pos n) (t ∷ ts) s ≡ some (Main.behind r.effects end)
  unfolding main_loop
  loop_turn fuel n ts t s r g end run on e told rest = rw (main_loop, run, on, e, told, rest) refl

  -- The client without multicast ends when the server throws it out. A turn of the loop of a running client, connected
  -- under a 32-bit conv, at which the disconnect packet of the server arrives, queues its random
  -- message, calls the callback with `eDisconnect` and sends what KCP has; and the loop ends at the
  -- next turn with the result 0. KCP keeps its conv when a message is sent.
  pub main_loop_lem :
      (fuel clock conv n : ℕ) (t t' : Turn) (ts : List Turn) (s : State plain_program kcp) (cb : Cb)
      → conv < 2 ^ 32
      → KeepsConv kcp
      → t.tick ≡ (clock, datagram (making_disconnect_packet conv))
      → s.globals.running ≡ true
      → s.globals.connected ≡ true
      → s.client.in_connect_stage ≡ false
      → s.client.connect_succeed ≡ true
      → s.client.has_event_func ≡ true
      → s.client.p_kcp ≡ some cb
      → kcp.conv cb ≡ conv
      → (bufs : List Bytes) × (main_loop plain_program kcp fuel (pos n) (t ∷ t' ∷ ts) s
          ≡ some (
              exits 0
                (event conv disconnect (making_disconnect_packet conv) ∷ map send_to_server bufs)))
  unfolding send_random Client.send_msg
  main_loop_lem fuel clock conv n t t' ts s cb h keeps tick run on e e' has k same =
      let packet = making_disconnect_packet conv in
      let s' = send_random plain_program kcp t n s in
      let (r, bufs, updated, effects, _) =
        update_goodbye kcp fuel clock conv s'.client cb h keeps e e' has k in
      let told = effects ∙ ap (λ m. event m disconnect packet ∷ map send_to_server bufs) same in
      (
        bufs,
        loop_turn fuel n (t' ∷ ts) t s r (lost s.globals) (exits 0 []) run on
              (ap (λ i. Client.update kcp fuel i.0 i.1 s'.client) tick ∙ updated)
              (ap (λ es. called_back plain_program kcp t.calls t.created es s.globals) told
                ∙ told_lost t.calls t.created conv packet bufs s.globals)
              (loop_stopped fuel n ts t' _ refl)
            ∙ ap (λ es. some (exits 0 es)) (append-nil r.effects ∙ told),
      )
