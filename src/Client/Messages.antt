-- ===== src/Client/Messages.antt =====
-- The messages of a connected client, in both directions, and the end of the loop that receives.
use mathlib.Core.List.{foldl}
use asio_kcp.Prelude.{
  ℕ, zero, suc, ◌<◌, ◌*◌, ◌≡◌, ◌⊎◌, refl, ◌∙◌, List, [], ◌∷◌, ◌++◌, Option, none, some, Bytes,
  arith, take, Bool-cases, Option-cases, inl, inr,
}
use asio_kcp.ConnectPacket.{is_disconnect_packet}
use asio_kcp.Kcp.{Kcp}
use asio_kcp.Client
use asio_kcp.Client.{
  Client, Effect, Exit, Outcome, Received, try_again, failed, datagram, rcv_msg, disconnect,
  returned, null_pointer,
}
use asio_kcp.Client.Queue.{push, push_all, push_all_lem, grab_all}
use asio_kcp.Client.Verdict.{update-stage, update-connected, update-idle}

abbrev pub HasResult : {A : Type 0} → Option A → Type 0
HasResult {A} o = (a : A) × (o ≡ some a)

module _ {Cb : Type 0} where
  abbrev pub send_each : List Bytes → Client Cb → Client Cb
  send_each [] c = c
  send_each (msg ∷ msgs) c = send_each msgs (Client.send_msg msg c)

  send_each_lem :
      (msgs : List Bytes) (c : Client Cb)
      → send_each msgs c ≡ record c { send_msg_queue = push_all msgs c.send_msg_queue }
  unfolding Client.send_msg push
  send_each_lem [] c = refl
  send_each_lem (msg ∷ msgs) c = send_each_lem msgs (Client.send_msg msg c)

module _ (kcp : Kcp) where
  open kcp use {Cb}

  send_all_lem :
      (msgs : List Bytes) (cb : Cb)
      → Client.send_all kcp msgs cb ≡ foldl (λ block msg. (kcp.send msg block).0) cb msgs
  unfolding Client.send_all
  send_all_lem [] cb = refl
  send_all_lem (msg ∷ msgs) cb = send_all_lem msgs (kcp.send msg cb).0

  -- The messages that the application sends, in any number between two updates, are given to `ikcp_send` one
  -- after the other in the order in which they were sent, behind those that waited before, each once; and
  -- none waits afterwards.
  pub send_order :
      (msgs : List Bytes) (cb : Cb) (c : Client Cb)
      → Client.do_send_msg_in_queue kcp cb (send_each msgs c) ≡ (
        record c { send_msg_queue = [] },
        foldl (λ block msg. (kcp.send msg block).0) cb (c.send_msg_queue ++ msgs),
      )
  unfolding Client.do_send_msg_in_queue grab_all
  send_order msgs cb c =
      rw
        (
          send_each_lem msgs c,
          push_all_lem msgs c.send_msg_queue,
          send_all_lem (c.send_msg_queue ++ msgs) cb,
        )
        refl

  -- `ikcp_recv` takes a message off a queue.
  abbrev pub TakesOff : (Cb → ℕ) → Type 0
  TakesOff waiting =
      (size : ℕ) (cb : Cb) (msg : Bytes)
      → (kcp.recv size cb).1 ≡ some msg
      → waiting (kcp.recv size cb).0 < waiting cb

  -- One turn of the loop, by what `ikcp_recv` gives.
  recv_loop-done :
      (fuel : ℕ) (cb : Cb) (c : Client Cb) (result : Option Bytes)
      → (kcp.recv Client.max_msg_size cb).1 ≡ result
      → (result ≡ none) ⊎ (result ≡ some [])
      → Client.recv_loop kcp (suc fuel) cb c ≡ some ((kcp.recv Client.max_msg_size cb).0, [])
  unfolding Client.recv_loop Client.recv_udp_package_from_kcp
  recv_loop-done fuel cb c result e (inl n) = rw (Client.recv_loop, e ∙ n) refl
  recv_loop-done fuel cb c result e (inr n) = rw (Client.recv_loop, e ∙ n) refl

  recv_loop-more :
      (fuel : ℕ) (cb : Cb) (c : Client Cb) (b : ℕ) (bs : Bytes) (r : Cb × List Effect)
      → (kcp.recv Client.max_msg_size cb).1 ≡ some (b ∷ bs)
      → Client.recv_loop kcp fuel (kcp.recv Client.max_msg_size cb).0 c ≡ some r
      → Client.recv_loop kcp (suc fuel) cb c
        ≡ some (
          r.0,
          Client.notify_if c (kcp.conv (kcp.recv Client.max_msg_size cb).0) rcv_msg (b ∷ bs) ++ r.1,
        )
  unfolding Client.recv_loop Client.recv_udp_package_from_kcp
  recv_loop-more fuel cb c b bs r e rest = rw (Client.recv_loop, e, rest) refl

  -- The loop ends: with more fuel than messages wait it has a result, the same for any such fuel.
  pub recv_loop_ends :
      (waiting : Cb → ℕ) (fuel fuel' : ℕ) (cb : Cb) (c : Client Cb)
      → TakesOff waiting
      → waiting cb < fuel
      → waiting cb < fuel'
      → (r : Cb × List Effect) × ((Client.recv_loop kcp fuel cb c ≡ some r)
          × (Client.recv_loop kcp fuel' cb c ≡ some r))
  recv_loop_ends waiting zero fuel' cb c takes h h' = absurd (omega (arith, h))
  recv_loop_ends waiting (suc fuel) zero cb c takes h h' = absurd (omega (arith, h'))
  recv_loop_ends waiting (suc fuel) (suc fuel') cb c takes h h' =
      let cb' = (kcp.recv Client.max_msg_size cb).0 in
      by_result (kcp.recv Client.max_msg_size cb).1 refl (λ less.
        recv_loop_ends waiting fuel fuel' cb' c takes (omega (arith, less, h))
          (omega (arith, less, h')))
    where
      by_result :
          (result : Option Bytes)
          → (kcp.recv Client.max_msg_size cb).1 ≡ result
          → (waiting (kcp.recv Client.max_msg_size cb).0 < waiting cb
              → (r : Cb × List Effect) × ((Client.recv_loop kcp fuel
                      (kcp.recv Client.max_msg_size cb).0
                      c
                    ≡ some r)
                  × (Client.recv_loop kcp fuel' (kcp.recv Client.max_msg_size cb).0 c ≡ some r)))
          → (r : Cb × List Effect) × ((Client.recv_loop kcp (suc fuel) cb c ≡ some r)
              × (Client.recv_loop kcp (suc fuel') cb c ≡ some r))
      by_result none e _ = (
        _,
        (recv_loop-done fuel cb c none e (inl refl), recv_loop-done fuel' cb c none e (inl refl)),
      )
      by_result (some []) e _ = (
        _,
        (
          recv_loop-done fuel cb c (some []) e (inr refl),
          recv_loop-done fuel' cb c (some []) e (inr refl),
        ),
      )
      by_result (some (b ∷ bs)) e rest =
          let (r, (x, y)) = rest (takes Client.max_msg_size cb (b ∷ bs) e) in
          (_, (recv_loop-more fuel cb c b bs r e x, recv_loop-more fuel' cb c b bs r e y))

  -- The block when a datagram has been put in.
  abbrev pub fed : Received → Cb → Cb
  fed (datagram bytes) cb = kcp.input (take (Client.max_msg_size * 2) bytes) cb
  fed _ cb = cb

  do_recv-HasResult :
      (waiting : Cb → ℕ) (fuel : ℕ) (received : Received) (cb : Cb) (c : Client Cb)
      → TakesOff waiting
      → waiting (fed received cb) < fuel
      → HasResult (Client.do_recv_udp_packet_in_loop kcp fuel received cb c)
  unfolding Client.do_recv_udp_packet_in_loop Client.handle_udp_packet
  do_recv-HasResult waiting fuel try_again cb c takes h = (_, refl)
  do_recv-HasResult waiting fuel failed cb c takes h = (_, refl)
  do_recv-HasResult waiting fuel (datagram bytes) cb c takes h =
      by_packet (take (Client.max_msg_size * 2) bytes) h
    where
      by_packet :
          (packet : Bytes)
          → waiting (kcp.input packet cb) < fuel
          → HasResult (elim packet as (λ _. Option (Cb × List Effect × Exit)) [
            | [] ↦ some (cb, [], returned)
            | b ∷ bs ↦ elim (Client.handle_udp_packet kcp fuel (b ∷ bs) cb c) [
              | none ↦ none
              | some (cb', effects) ↦ some (cb', effects, returned)
            ]
          ])
      by_packet [] h' = (_, refl)
      by_packet (b ∷ bs) h' = elim (Bool-cases (is_disconnect_packet (b ∷ bs))) [
        | inl d ↦ (
          (cb, Client.notify_if c (kcp.conv cb) disconnect (b ∷ bs), returned),
          rw (Client.handle_udp_packet, d) refl,
        )
        | inr d ↦
            let (r, (e, _)) =
              recv_loop_ends waiting fuel fuel (kcp.input (b ∷ bs) cb) c takes h' h' in
            ((r.0, r.1, returned), rw (Client.handle_udp_packet, d, e) refl)
      ]

  -- `update` returns, whatever its state, where each message that `ikcp_recv` gives leaves fewer waiting in
  -- KCP: with more fuel than messages wait, after the queue was sent and the datagram was put in, the model
  -- has a result.
  pub update_returns :
      (waiting : Cb → ℕ) (fuel clock : ℕ) (received : Received) (c : Client Cb)
      → TakesOff waiting
      → ((cb : Cb)
          → c.p_kcp ≡ some cb
          → waiting (fed received (Client.send_all kcp c.send_msg_queue cb)) < fuel)
      → HasResult (Client.update kcp fuel clock received c)
  unfolding Client.update Client.update_connected Client.do_send_msg_in_queue grab_all
  update_returns waiting fuel clock received c takes h = elim (Bool-cases c.in_connect_stage) [
    | inl e ↦ (_, update-stage kcp fuel clock received c e)
    | inr f ↦ elim (Bool-cases c.connect_succeed) [
      | inl t ↦ elim (Option-cases c.p_kcp) [
        | inl k ↦ (record (Client.idle kcp c) { exit = null_pointer }, ground arith)
        | inr (cb, k) ↦
            let ((cb', effects, exit), e) =
              do_recv-HasResult waiting fuel received (Client.send_all kcp c.send_msg_queue cb)
                (record c { send_msg_queue = [] }) takes (h cb k) in
            (
              Client.finish kcp clock (record c { send_msg_queue = [] }) cb' effects exit,
              update-connected kcp fuel clock received c cb f t k
                  ∙ rw (Client.update_connected, e) refl,
            )
      ]
      | inr n ↦ (_, update-idle kcp fuel clock received c f n)
    ]
  ]
