-- ===== src/Client/Reports.antt =====
-- How often effects report the end of a connect: never while the client is connected.
use asio_kcp.Prelude.{
  ℕ, zero, suc, ◌+◌, ◌*◌, ◌≡◌, refl, ◌∙◌, Bool, true, false, List, [], ◌∷◌, ◌++◌, map, Option, none,
  some, Bytes, arith, take, Bool-cases, inl, inr,
}
use asio_kcp.ConnectPacket.{is_disconnect_packet}
use asio_kcp.Kcp.{Kcp}
use asio_kcp.Client
use asio_kcp.Client.{
  Client, Effect, send_to_server, event, EventType, connect, connect_failed, disconnect, rcv_msg,
  Exit, returned, null_pointer, Outcome, Received, try_again, failed, datagram, ConnectCalls,
}

-- What holds of a result, if there is one.
abbrev pub Whenever {ℓ} : {A : Type ℓ} → (A → Type 0) → Option A → Type 0
Whenever P none = Unit
Whenever P (some a) = P a

-- How often effects report the end of a connect.
abbrev pub verdicts : List Effect → ℕ
verdicts [] = 0
verdicts (event conv connect msg ∷ es) = suc (verdicts es)
verdicts (event conv connect_failed msg ∷ es) = suc (verdicts es)
verdicts (_ ∷ es) = verdicts es

abbrev pub stage : Bool → ℕ
stage true = 1
stage false = 0

pub verdicts-append : (es es' : List Effect) → verdicts (es ++ es') ≡ verdicts es + verdicts es'
verdicts-append [] es' = omega arith
verdicts-append (send_to_server msg ∷ es) es' = verdicts-append es es'
verdicts-append (event conv connect msg ∷ es) es' = omega (arith, verdicts-append es es')
verdicts-append (event conv connect_failed msg ∷ es) es' = omega (arith, verdicts-append es es')
verdicts-append (event conv disconnect msg ∷ es) es' = verdicts-append es es'
verdicts-append (event conv rcv_msg msg ∷ es) es' = verdicts-append es es'

pub verdicts-sends : (bufs : List Bytes) → verdicts (map send_to_server bufs) ≡ 0
verdicts-sends [] = refl
verdicts-sends (b ∷ bs) = verdicts-sends bs

verdicts-notify :
    {Cb : Type 0} (c : Client Cb) (conv : ℕ) (msg : Bytes) (es : List Effect)
    → verdicts (Client.notify_if c conv rcv_msg msg ++ es) ≡ verdicts es
verdicts-notify c conv msg es = elim (Bool-cases c.has_event_func) [
  | inl t ↦ rw t refl
  | inr f ↦ rw f refl
]

module _ (kcp : Kcp) where
  open kcp use {Cb}

  turn :
      (c : Client Cb) (conv : ℕ) (cb : Cb) (msg : Bytes) (rest : Option (Cb × List Effect))
      → Whenever (λ r. verdicts r.1 ≡ 0) rest
      → Whenever
          (λ r. verdicts r.1 ≡ 0)
          (elim msg as (λ _. Option (Cb × List Effect)) [
            | [] ↦ some (cb, [])
            | b ∷ bs ↦ elim rest [
              | none ↦ none
              | some (last, effects) ↦
                  some (last, Client.notify_if c conv rcv_msg (b ∷ bs) ++ effects)
            ]
          ])
  turn c conv cb [] rest h = refl
  turn c conv cb (b ∷ bs) none h = tt
  turn c conv cb (b ∷ bs) (some (last, effects)) h = verdicts-notify c conv (b ∷ bs) effects ∙ h

  recv_loop-verdicts :
      (fuel : ℕ) (cb : Cb) (c : Client Cb)
      → Whenever (λ r. verdicts r.1 ≡ 0) (Client.recv_loop kcp fuel cb c)
  unfolding Client.recv_loop
  recv_loop-verdicts zero cb c = tt
  recv_loop-verdicts (suc fuel) cb c =
      let (cb', msg) = Client.recv_udp_package_from_kcp kcp cb in
      turn c (kcp.conv cb') cb' msg (Client.recv_loop kcp fuel cb' c)
        (recv_loop-verdicts fuel cb' c)

  -- What an `update` of a client with a callback does for the verdict.
  -- A read that ends in the callback's hands, with no verdict.
  abbrev pub IsPlain : Cb × List Effect × Exit → Type 0
  IsPlain (cb, effects, exit) = (verdicts effects ≡ 0) × (exit ≡ returned)

  handle_udp_packet-verdicts :
      (fuel : ℕ) (packet : Bytes) (cb : Cb) (c : Client Cb)
      → Whenever (λ r. verdicts r.1 ≡ 0) (Client.handle_udp_packet kcp fuel packet cb c)
  unfolding Client.handle_udp_packet
  handle_udp_packet-verdicts fuel packet cb c = elim (Bool-cases (is_disconnect_packet packet)) [
    | inl t ↦ elim (Bool-cases c.has_event_func) [
      | inl n ↦ rw (Client.handle_udp_packet, t, n) refl
      | inr n ↦ rw (Client.handle_udp_packet, t, n) refl
    ]
    | inr f ↦ rw (Client.handle_udp_packet, f) (recv_loop-verdicts fuel (kcp.input packet cb) c)
  ]

  read :
      (o : Option (Cb × List Effect))
      → Whenever (λ r. verdicts r.1 ≡ 0) o
      → Whenever IsPlain (elim o as (λ _. Option (Cb × List Effect × Exit)) [
        | none ↦ none
        | some (cb, effects) ↦ some (cb, effects, returned)
      ])
  read none h = tt
  read (some (cb, effects)) h = (h, refl)

  pub do_recv-IsPlain :
      (fuel : ℕ) (received : Received) (cb : Cb) (c : Client Cb)
      → c.has_event_func ≡ true
      → Whenever IsPlain (Client.do_recv_udp_packet_in_loop kcp fuel received cb c)
  unfolding Client.do_recv_udp_packet_in_loop
  do_recv-IsPlain fuel try_again cb c has = (refl, refl)
  do_recv-IsPlain fuel failed cb c has = rw has (refl, refl)
  do_recv-IsPlain fuel (datagram bytes) cb c has = nonempty (take (Client.max_msg_size * 2) bytes)
    where
      nonempty :
          (packet : Bytes)
          → Whenever IsPlain (elim packet as (λ _. Option (Cb × List Effect × Exit)) [
            | [] ↦ some (cb, [], returned)
            | b ∷ bs ↦ elim (Client.handle_udp_packet kcp fuel (b ∷ bs) cb c) [
              | none ↦ none
              | some (cb', effects) ↦ some (cb', effects, returned)
            ]
          ])
      nonempty [] = (refl, refl)
      nonempty (b ∷ bs) = read _ (handle_udp_packet-verdicts fuel (b ∷ bs) cb c)
