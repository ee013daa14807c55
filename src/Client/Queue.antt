-- ===== src/Client/Queue.antt =====
-- client_lib/threadsafe_queue_mutex.hpp: the queue between the threads of the application and the one
-- that calls `update`. A call holds the mutex, so the calls happen one after the other.
use asio_kcp.Prelude.{
  ℕ, zero, suc, ◌+◌, ◌≡◌, refl, Bool, true, false, List, [], ◌∷◌, ◌++◌, Option, none, some, length,
  length-append, append_assoc, append-nil,
}

module _ {A : Type 0} where
  unfoldable pub size : List A → ℕ
  size queue = length queue

  unfoldable pub push : A → List A → List A
  push value queue = queue ++ value ∷ []

  -- `false` and no value, or `true` and the value that leaves the queue.
  unfoldable pub try_pop : List A → List A × Option A
  try_pop [] = ([], none)
  try_pop (x ∷ xs) = (xs, some x)

  unfoldable pub grab_all : List A → List A × List A
  grab_all queue = ([], queue)

  unfoldable pub is_empty : List A → Bool
  is_empty [] = true
  is_empty (x ∷ xs) = false

  abbrev pub push_all : List A → List A → List A
  push_all [] queue = queue
  push_all (x ∷ xs) queue = push_all xs (push x queue)

  abbrev pub pop_all : ℕ → List A → List A × List A
  pop_all zero queue = (queue, [])
  pop_all (suc n) queue =
      let (queue', value) = try_pop queue in
      elim value [
        | none ↦ (queue', [])
        | some x ↦ let (rest, xs) = pop_all n queue' in (rest, x ∷ xs)
      ]

  pub push_all_lem : (xs queue : List A) → push_all xs queue ≡ queue ++ xs
  unfolding push
  push_all_lem [] queue = rw (append-nil queue) refl
  push_all_lem (x ∷ xs) queue =
      rw (push_all_lem xs (queue ++ x ∷ []), append_assoc queue (x ∷ []) xs) refl

  pop_all_lem : (xs ys : List A) → pop_all (length xs) (xs ++ ys) ≡ (ys, xs)
  unfolding try_pop
  pop_all_lem [] ys = refl
  pop_all_lem (x ∷ xs) ys = rw (pop_all_lem xs ys) refl

  -- What is pushed comes out in the same order: popping as many values as the queue has after some pushes
  -- gives first the values that it had, then the new ones, and leaves it empty; `grab_all` gives the same
  -- values at once; and `size` counts them.
  pub queue_order :
      (queue xs : List A)
      → (pop_all (size (push_all xs queue)) (push_all xs queue) ≡ ([], queue ++ xs))
        × (grab_all (push_all xs queue) ≡ ([], queue ++ xs))
        × (size (push_all xs queue) ≡ size queue + length xs)
  unfolding size grab_all
  queue_order queue xs = rw (push_all_lem xs queue) (
    rw (append-nil (queue ++ xs)) at (pop_all_lem (queue ++ xs) []),
    refl,
    length-append queue xs,
  )
