-- ===== src/ThreadsafeQueue/Waiting.antt =====
-- What holds of the queue however its threads take turns.
use asio_kcp.Prelude.{
  ℕ, ◌+◌, ◌≤◌, ◌≡◌, refl, ◌≢◌, ◌⊎◌, inl, inr, sym, ◌∙◌, ap, List, [], ◌∷◌, ◌++◌, ◌<◌, length, arith,
  length-append, append_assoc, append-nil,
}
use asio_kcp.ThreadsafeQueue.{
  Thread, popping, grabbing, ThreadsafeQueue, create, push, try_pop, grab_all, wait_and_pop,
  wait_and_grab_all, look, Notifies, nobody, somebody, Step, pushes, tries, grabs, calls, resumes,
  spurious, taken_by,
}

module _ (A : Type 0) where
  -- The states that the steps lead to, with all that was put in and taken out, in the order of the steps.
  pub data Reaches : List A → List A → ThreadsafeQueue A → Type 0 where
    starts : Reaches [] [] create
    steps :
        {put taken : List A} {s s' : ThreadsafeQueue A} (more gone : List A)
        → Reaches put taken s
        → Step A s more gone s'
        → Reaches (put ++ more) (taken ++ gone) s'

length-split :
    (before after : List Thread) (t : Thread)
    → length (before ++ t ∷ after) ≡ 1 + length (before ++ after)
length-split before after t =
    omega (arith, length-append before (t ∷ after), length-append before after)

first_woken :
    (up : List Thread) {n : ℕ}
    → n < length up
    → (t : Thread) × (rest : List Thread) × (up ≡ t ∷ rest)
first_woken [] h = absurd (omega arith)
first_woken (t ∷ rest) h = (t, rest, refl)

module _ {A : Type 0} where
  abbrev pub Attended : ThreadsafeQueue A → Type 0
  Attended s = (s.asleep ≡ []) ⊎ (length s.data_queue ≤ length s.woken)

  of_parts : List A → List Thread → List Thread → ThreadsafeQueue A
  of_parts q sleeping up = record { data_queue = q; asleep = sleeping; woken = up }

  look-Attended :
      (t : Thread) (q : List A) (sleeping up : List Thread)
      → (sleeping ≡ []) ⊎ (length q ≤ 1 + length up)
      → Attended (look t (of_parts q sleeping up)).0
  unfolding look wait_and_pop wait_and_grab_all of_parts
  look-Attended (popping n) [] sleeping up h = inr (omega arith)
  look-Attended (popping n) (v ∷ vs) sleeping up (inl h) = inl h
  look-Attended (popping n) (v ∷ vs) sleeping up (inr h) = inr (omega arith)
  look-Attended (grabbing n) [] sleeping up h = inr (omega arith)
  look-Attended (grabbing n) (v ∷ vs) sleeping up h = inr (omega arith)

  try_pop-Attended :
      (q : List A) (sleeping up : List Thread)
      → Attended (of_parts q sleeping up)
      → Attended (try_pop (of_parts q sleeping up)).0
  unfolding try_pop of_parts
  try_pop-Attended [] sleeping up h = h
  try_pop-Attended (v ∷ vs) sleeping up (inl h) = inl h
  try_pop-Attended (v ∷ vs) sleeping up (inr h) = inr (omega arith)

  push-Attended :
      {sleeping up sleeping' up' : List Thread} (value : A) (q : List A)
      → Notifies sleeping up sleeping' up'
      → Attended (of_parts q sleeping up)
      → Attended (of_parts (q ++ value ∷ []) sleeping' up')
  unfolding of_parts
  push-Attended value q nobody h = inl refl
  push-Attended value q (somebody before after t) (inl h) =
      absurd (omega (arith, length-split before after t, ap length h))
  push-Attended value q (somebody {woken} before after t) (inr h) =
      inr (omega (arith, length-append q (value ∷ [])))

  spurious-Attended :
      (s : ThreadsafeQueue A) (t : Thread) (before after : List Thread)
      → s.asleep ≡ before ++ t ∷ after
      → Attended s
      → Attended (of_parts s.data_queue (before ++ after) (t ∷ s.woken))
  unfolding of_parts
  spurious-Attended s t before after e (inl h) =
      absurd (omega (arith, length-split before after t, ap length (sym e ∙ h)))
  spurious-Attended s t before after e (inr h) = inr (omega arith)

  Step-Attended :
      {s s' : ThreadsafeQueue A} {more gone : List A}
      → Step A s more gone s'
      → Attended s
      → Attended s'
  unfolding push of_parts grab_all
  Step-Attended (pushes s value sleeping up n) h = push-Attended value s.data_queue n h
  Step-Attended (tries s) h = try_pop-Attended s.data_queue s.asleep s.woken h
  Step-Attended (grabs s) h = inr (omega arith)
  Step-Attended (calls s t) h =
      look-Attended t s.data_queue s.asleep s.woken
        (elim h [ inl e ↦ inl e | inr l ↦ inr (omega arith) ])
  Step-Attended (resumes s t before after e) h =
      look-Attended t s.data_queue s.asleep (before ++ after) (elim h [
        | inl z ↦ inl z
        | inr l ↦ inr (omega (arith, length-split before after t, ap length e))
      ])
  Step-Attended (spurious s t before after e) h = spurious-Attended s t before after e h

  Reaches-Attended :
      {s : ThreadsafeQueue A} {put taken : List A} → Reaches A put taken s → Attended s
  unfolding create
  Reaches-Attended starts = inl refl
  Reaches-Attended (steps more gone r st) = Step-Attended st (Reaches-Attended r)

  look-takes :
      (t : Thread) (q : List A) (sleeping up : List Thread)
      → q ≢ []
      → (look t (of_parts q sleeping up)).1 ≢ []
  unfolding look wait_and_pop wait_and_grab_all of_parts
  look-takes (popping n) [] sleeping up h = absurd (h refl)
  look-takes (popping n) (v ∷ vs) sleeping up h = cc
  look-takes (grabbing n) [] sleeping up h = absurd (h refl)
  look-takes (grabbing n) (v ∷ vs) sleeping up h = cc

  some_value : (q : List A) → q ≢ [] → 0 < length q
  some_value [] h = absurd (h refl)
  some_value (v ∷ vs) h = omega arith

  -- No wake-up is lost, however threads push, pop, grab, wait and are notified: in a state with a value in
  -- the queue and a thread that sleeps, there is a thread that has been woken, as many at least as values, and
  -- every one of these takes a value from the queue when it gets the mutex.
  pub no_lost_wakeup :
      {s : ThreadsafeQueue A} {put taken : List A}
      → Reaches A put taken s
      → s.data_queue ≢ []
      → s.asleep ≢ []
      → (length s.data_queue ≤ length s.woken)
        × ((t : Thread) × (rest : List Thread) × (s.woken ≡ t ∷ rest))
        × ((t : Thread) (others : List Thread) → (look t (record s { woken = others })).1 ≢ [])
  unfolding of_parts
  no_lost_wakeup {s} r some_left some_asleep = elim (Reaches-Attended r) [
    | inl e ↦ absurd (some_asleep e)
    | inr l ↦ (
      l,
      first_woken s.woken {n = 0} (omega (arith, some_value s.data_queue some_left)),
      λ t others. look-takes t s.data_queue s.asleep others some_left,
    )
  ]

  abbrev Conserves : List A → List A → ThreadsafeQueue A × List A → Type 0
  Conserves q more r = q ++ more ≡ r.1 ++ r.0.data_queue

  look-Conserves :
      (t : Thread) (q : List A) (sleeping up : List Thread)
      → Conserves q [] (look t (of_parts q sleeping up))
  unfolding look wait_and_pop wait_and_grab_all of_parts
  look-Conserves (popping n) [] sleeping up = refl
  look-Conserves (popping n) (v ∷ vs) sleeping up = append-nil (v ∷ vs)
  look-Conserves (grabbing n) [] sleeping up = refl
  look-Conserves (grabbing n) (v ∷ vs) sleeping up = refl

  try_pop-Conserves :
      (q : List A) (sleeping up : List Thread)
      → let r = try_pop (of_parts q sleeping up) in Conserves q [] (r.0, taken_by r.1)
  unfolding try_pop of_parts
  try_pop-Conserves [] sleeping up = refl
  try_pop-Conserves (v ∷ vs) sleeping up = append-nil (v ∷ vs)

  Step-Conserves :
      {s s' : ThreadsafeQueue A} {more gone : List A}
      → Step A s more gone s'
      → Conserves s.data_queue more (s', gone)
  unfolding push of_parts grab_all
  Step-Conserves (pushes s value sleeping up n) = refl
  Step-Conserves (tries s) = try_pop-Conserves s.data_queue s.asleep s.woken
  Step-Conserves (grabs s) = refl
  Step-Conserves (calls s t) = look-Conserves t s.data_queue s.asleep s.woken
  Step-Conserves (resumes s t before after e) =
      look-Conserves t s.data_queue s.asleep (before ++ after)
  Step-Conserves (spurious s t before after e) = append-nil s.data_queue

  -- However threads take turns, the values that have been taken, in the order of their taking, followed by
  -- those in the queue are the values that have been put in, in the order of the pushes: nothing is lost,
  -- taken twice or overtaken.
  pub fifo_order :
      {s : ThreadsafeQueue A} {put taken : List A}
      → Reaches A put taken s
      → put ≡ taken ++ s.data_queue
  unfolding create
  fifo_order starts = refl
  fifo_order (steps {put} {taken} {s} {s'} more gone r st) =
      ap (λ l. l ++ more) (fifo_order r)
      ∙ append_assoc taken s.data_queue more
      ∙ ap (◌++◌ taken) (Step-Conserves st)
      ∙ sym (append_assoc taken gone s'.data_queue)
