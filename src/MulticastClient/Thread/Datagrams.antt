-- ===== src/MulticastClient/Thread/Datagrams.antt =====
-- What the thread does with the datagrams of one pass.
use asio_kcp.Prelude.{
  ℕ, ◌≡◌, ◌⊎◌, refl, true, List, [], ◌∷◌, ◌++◌, some, Bytes, codes, drop, inl, inr, All, All-append,
  Bool-cases, Option-cases, leb, length, starts_with, ◌&&◌,
}
use asio_kcp.Prelude.Maps.{lookup}
use asio_kcp.StdText.{format_unsigned}
use asio_kcp.MulticastClient.{
  MulticastClient, GroupInfo, Action, callback, send_to_group, ntohl, receive, send_ack,
  handle_multicast_message, handle_reliable_message,
}
use asio_kcp.MulticastClient.Thread.{
  Arrival, not_readable, recv_failed, received, receive_from, receive_all,
}

-- An action that is for a datagram at a socket of the pass.
abbrev pub IsFor : Arrival → ℕ → Action → Type 0
IsFor not_readable group_id a = ⊥
IsFor recv_failed group_id a = ⊥
IsFor (received buffer c) group_id (callback g msg) =
    (g ≡ group_id) × (c.has_callback ≡ true) × ((msg ≡ buffer) ⊎ (msg ≡ drop 4 buffer))
IsFor (received buffer c) group_id (send_to_group addr port msg) =
    (info : GroupInfo) × (lookup group_id c.groups ≡ some info)
    × (addr ≡ info.multicast_addr)
    × (port ≡ info.port)
    × (msg ≡ codes "ACK:" ++ format_unsigned (ntohl buffer))

handle_multicast_message-IsFor :
    (g : ℕ) (buffer msg : Bytes) (c : MulticastClient)
    → (msg ≡ buffer) ⊎ (msg ≡ drop 4 buffer)
    → All (IsFor (received buffer c) g) (handle_multicast_message g msg c)
unfolding handle_multicast_message
handle_multicast_message-IsFor g buffer msg c h = elim (Bool-cases c.has_callback) [
  | inl t ↦ simp (t) ((refl, refl, h), tt)
  | inr f ↦ simp (f) tt
]

send_ack-IsFor :
    (g : ℕ) (buffer : Bytes) (c : MulticastClient)
    → All (IsFor (received buffer c) g) (send_ack g (ntohl buffer) c)
unfolding send_ack
send_ack-IsFor g buffer c = elim (Option-cases (lookup g c.groups)) [
  | inl n ↦ rw (send_ack, n) tt
  | inr (info, e) ↦ rw (send_ack, e) ((info, e, refl, refl, refl), tt)
]

receive-IsFor :
    (g : ℕ) (buffer : Bytes) (c : MulticastClient)
    → All (IsFor (received buffer c) g) (receive g buffer c)
unfolding receive handle_reliable_message
receive-IsFor g buffer c =
    elim (Bool-cases (leb 4 (length buffer) && starts_with (codes "ACK:") buffer)) [
      | inl t ↦ simp (t) tt
      | inr f ↦ elim (Bool-cases (leb 4 (length buffer))) [
        | inl t ↦
            rw (f, t)
              (All-append _ _ (send_ack g (ntohl buffer) c)
                (handle_multicast_message-IsFor g buffer (drop 4 buffer) c (inr refl))
                (send_ack-IsFor g buffer c))
        | inr u ↦ rw (f, u) (handle_multicast_message-IsFor g buffer buffer c (inl refl))
      ]
    ]

-- An action that belongs to a pass: it is for a datagram at the socket of a group of which the client is a
-- member as the pass begins.
abbrev pub Belongs : List ℕ → List Arrival → Action → Type 0
Belongs [] arrivals a = ⊥
Belongs (g ∷ gs) [] a = ⊥
Belongs (g ∷ gs) (arrival ∷ arrivals) a = IsFor arrival g a ⊎ Belongs gs arrivals a

pub All-map :
    {P Q : Action → Type 0}
    → ((a : Action) → P a → Q a)
    → (as_ : List Action) → All P as_
    → All Q as_
All-map f [] h = tt
All-map f (a ∷ as_) (h, hs) = (f a h, All-map f as_ hs)

receive_from-IsFor : (g : ℕ) (a : Arrival) → All (IsFor a g) (receive_from g a)
unfolding receive_from
receive_from-IsFor g not_readable = tt
receive_from-IsFor g recv_failed = tt
receive_from-IsFor g (received buffer c) = receive-IsFor g buffer c

pub receive_all-Belongs :
    (gs : List ℕ) (arrivals : List Arrival) → All (Belongs gs arrivals) (receive_all gs arrivals)
unfolding receive_all
receive_all-Belongs [] arrivals = tt
receive_all-Belongs (g ∷ gs) [] = tt
receive_all-Belongs (g ∷ gs) (a ∷ arrivals) =
    All-append _ (receive_from g a) (receive_all gs arrivals)
      (All-map (λ x h. inl h) (receive_from g a) (receive_from-IsFor g a))
      (All-map (λ x h. inr h) (receive_all gs arrivals) (receive_all-Belongs gs arrivals))
