-- ===== src/ThreadsafeQueue.antt =====
-- essential/utility/threadsafe_queue.hpp: a queue on whose condition variable threads wait. A method holds
-- the mutex and is one step, but for a wait: it gives the mutex up while its thread sleeps, and looks at the
-- queue again when the thread has been woken.
pub mod Waiting
use asio_kcp.Prelude.{ℕ, Bool, true, false, List, [], ◌∷◌, ◌++◌, Option, none, some, length, ◌≡◌}

-- A thread in one of the methods that wait.
pub data Thread : Type 0 where
  popping grabbing : ℕ → Thread

pub record ThreadsafeQueue (A : Type 0) : Type 0 where
  pub data_queue : List A
  -- The threads that wait for `data_cond`, and those that it has woken and that have not got the mutex yet.
  pub asleep : List Thread
  pub woken : List Thread

module _ {A : Type 0} where
  unfoldable pub create : ThreadsafeQueue A
  create = record { data_queue = []; asleep = []; woken = [] }

  -- The copy constructor takes the values alone.
  unfoldable pub copied : ThreadsafeQueue A → ThreadsafeQueue A
  copied other = record { data_queue = other.data_queue; asleep = []; woken = [] }

  unfoldable pub size : ThreadsafeQueue A → ℕ
  size s = length s.data_queue

  unfoldable pub empty : ThreadsafeQueue A → Bool
  empty s = elim s.data_queue [ [] ↦ true | _ ↦ false ]

  -- `notify_one` is a step of its own, `Notifies`, since it is not said which thread it wakes.
  unfoldable pub push : A → ThreadsafeQueue A → ThreadsafeQueue A
  push new_value s = record s { data_queue = s.data_queue ++ new_value ∷ [] }

  unfoldable pub try_pop : ThreadsafeQueue A → ThreadsafeQueue A × Option A
  try_pop s = elim s.data_queue [
    | [] ↦ (s, none)
    | value ∷ rest ↦ (record s { data_queue = rest }, some value)
  ]

  unfoldable pub grab_all : ThreadsafeQueue A → ThreadsafeQueue A × List A
  grab_all s = (record s { data_queue = [] }, s.data_queue)

  abbrev pub sleep : Thread → ThreadsafeQueue A → ThreadsafeQueue A
  sleep t s = record s { asleep = t ∷ s.asleep }

  -- A look of the thread `t` at the queue. It returns what it takes, or goes to sleep.
  unfoldable pub wait_and_pop : Thread → ThreadsafeQueue A → ThreadsafeQueue A × List A
  wait_and_pop t s = elim s.data_queue [
    | [] ↦ (sleep t s, [])
    | value ∷ rest ↦ (record s { data_queue = rest }, value ∷ [])
  ]

  unfoldable pub wait_and_grab_all : Thread → ThreadsafeQueue A → ThreadsafeQueue A × List A
  wait_and_grab_all t s = elim s.data_queue [
    | [] ↦ (sleep t s, [])
    | value ∷ rest ↦ (record s { data_queue = [] }, value ∷ rest)
  ]

  unfoldable pub look : Thread → ThreadsafeQueue A → ThreadsafeQueue A × List A
  unfolding wait_and_pop wait_and_grab_all
  look (popping n) s = wait_and_pop (popping n) s
  look (grabbing n) s = wait_and_grab_all (grabbing n) s

-- `notify_one`: it wakes a thread, if one waits.
pub data Notifies : List Thread → List Thread → List Thread → List Thread → Type 0 where
  nobody : {woken : List Thread} → Notifies [] woken [] woken
  somebody :
      {woken : List Thread} (before after : List Thread) (t : Thread)
      → Notifies (before ++ t ∷ after) woken (before ++ after) (t ∷ woken)

abbrev pub taken_by {ℓ} : {A : Type ℓ} → Option A → List A
taken_by none = []
taken_by (some a) = a ∷ []

-- A step, with the values that it puts in and those that it takes out.
pub data Step (A : Type 0) : ThreadsafeQueue A → List A → List A → ThreadsafeQueue A → Type 0 where
  pushes :
      (s : ThreadsafeQueue A) (value : A) (asleep woken : List Thread)
      → Notifies s.asleep s.woken asleep woken
      → Step A s (value ∷ []) [] (record (push value s) { asleep = asleep; woken = woken })
  tries : (s : ThreadsafeQueue A) → Step A s [] (taken_by (try_pop s).1) (try_pop s).0
  grabs : (s : ThreadsafeQueue A) → Step A s [] (grab_all s).1 (grab_all s).0
  -- A thread calls a method that waits.
  calls : (s : ThreadsafeQueue A) (t : Thread) → Step A s [] (look t s).1 (look t s).0
  -- A thread that was woken gets the mutex.
  resumes :
      (s : ThreadsafeQueue A) (t : Thread) (before after : List Thread)
      → s.woken ≡ before ++ t ∷ after
      → Step A s []
          (look t (record s { woken = before ++ after })).1
          (look t (record s { woken = before ++ after })).0
  -- A wait may end without a notification.
  spurious :
      (s : ThreadsafeQueue A) (t : Thread) (before after : List Thread)
      → s.asleep ≡ before ++ t ∷ after
      → Step A s [] [] (record s { asleep = before ++ after; woken = t ∷ s.woken })
