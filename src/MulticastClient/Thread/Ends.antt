-- ===== src/MulticastClient/Thread/Ends.antt =====
-- Which passes the thread makes, and to which of them its actions belong.
use mathlib.Core.Path.{subst}
use asio_kcp.Prelude.{
  ℕ, ◌≡◌, ◌≢◌, ◌⊎◌, refl, true, false, Bool, List, [], ◌∷◌, ◌++◌, inl, inr, All, All-append,
  Bool-cases, Exists,
}
use asio_kcp.Prelude.Maps.{keys}
use asio_kcp.MulticastClient.{Action}
use asio_kcp.MulticastClient.Thread.{
  Arrival, Poll, interrupted, poll_failed, timed_out, ready, Pass, Next, breaks, goes_on,
  receive_all, after_poll, receive_pass, receive_thread_func,
}
use asio_kcp.MulticastClient.Thread.Datagrams.{Belongs, All-map, receive_all-Belongs}

-- A run of the thread: the passes that it makes, with their actions, and how it ends.
pub data Run : List Pass → List Action → Bool → Type 0 where
  waits : Run [] [] true
  stopped : (p : Pass) (passes : List Pass) → p.client.running ≡ false → Run (p ∷ passes) [] false
  fails :
      (p : Pass) (passes : List Pass) (g : ℕ) (gs : List ℕ)
      → p.client.running ≡ true
      → keys p.client.groups ≡ g ∷ gs
      → p.poll ≡ poll_failed
      → Run (p ∷ passes) [] false
  passes_on :
      (p : Pass) (passes : List Pass) (now actions : List Action) (running : Bool)
      → p.client.running ≡ true
      → (keys p.client.groups ≡ []) ⊎ (p.poll ≢ poll_failed)
      → receive_pass p ≡ goes_on now
      → Run passes actions running
      → Run (p ∷ passes) (now ++ actions) running

Next-cases : (n : Next) → (n ≡ breaks) ⊎ ((now : List Action) × (n ≡ goes_on now))
Next-cases breaks = inl refl
Next-cases (goes_on now) = inr (now, refl)

after_poll-breaks : (gs : List ℕ) (poll : Poll) → after_poll gs poll ≡ breaks → poll ≡ poll_failed
unfolding after_poll
after_poll-breaks gs interrupted e = cc
after_poll-breaks gs poll_failed e = refl
after_poll-breaks gs timed_out e = cc
after_poll-breaks gs (ready arrivals) e = cc

breaks_only :
    (gs : List ℕ) (p : Pass)
    → keys p.client.groups ≡ gs
    → receive_pass p ≡ breaks
    → (g : ℕ) × (rest : List ℕ) × (keys p.client.groups ≡ g ∷ rest) × (p.poll ≡ poll_failed)
unfolding receive_pass
breaks_only [] p k e = cc (rw (receive_pass, k) at e)
breaks_only (g ∷ gs) p k e =
    (g, gs, k, after_poll-breaks (g ∷ gs) p.poll (rw (receive_pass, k) at e))

after_poll-goes_on :
    (gs : List ℕ) (poll : Poll) (now : List Action)
    → after_poll gs poll ≡ goes_on now
    → poll ≢ poll_failed
unfolding after_poll
after_poll-goes_on gs interrupted now e = λ f. cc
after_poll-goes_on gs poll_failed now e = cc
after_poll-goes_on gs timed_out now e = λ f. cc
after_poll-goes_on gs (ready arrivals) now e = λ f. cc

goes_on_only :
    (gs : List ℕ) (p : Pass) (now : List Action)
    → keys p.client.groups ≡ gs
    → receive_pass p ≡ goes_on now
    → (keys p.client.groups ≡ []) ⊎ (p.poll ≢ poll_failed)
unfolding receive_pass
goes_on_only [] p now k e = inl k
goes_on_only (g ∷ gs) p now k e =
    inr (after_poll-goes_on (g ∷ gs) p.poll now (rw (receive_pass, k) at e))

run :
    (passes : List Pass) → Run passes (receive_thread_func passes).0 (receive_thread_func passes).1
unfolding receive_thread_func
run [] = waits
run (p ∷ passes) = elim (Bool-cases p.client.running) [
  | inl t ↦ elim (Next-cases (receive_pass p)) [
    | inl e ↦
        let (g, gs, polled, f) = breaks_only _ p refl e in
        simp (t, e) (fails p passes g gs t polled f)
    | inr (now, e) ↦
        simp (t, e) (passes_on p passes now _ _ t (goes_on_only _ p now refl e) e (run passes))
  ]
  | inr f ↦ simp (f) (stopped p passes f)
]

abbrev pub arrivals_of : Poll → List Arrival
arrivals_of (ready arrivals) = arrivals
arrivals_of _ = []

abbrev pub BelongsToPass : Action → Pass → Type 0
BelongsToPass a p =
    (p.client.running ≡ true) × Belongs (keys p.client.groups) (arrivals_of p.poll) a

goes_on_inj : (now now' : List Action) → goes_on now ≡ goes_on now' → now ≡ now'
goes_on_inj now now' e = cc

after_poll-Belongs :
    (gs : List ℕ) (poll : Poll) (now : List Action)
    → after_poll gs poll ≡ goes_on now
    → All (Belongs gs (arrivals_of poll)) now
unfolding after_poll
after_poll-Belongs gs interrupted now e = subst (All (Belongs gs [])) (goes_on_inj [] now e) tt
after_poll-Belongs gs poll_failed now e = cc
after_poll-Belongs gs timed_out now e = subst (All (Belongs gs [])) (goes_on_inj [] now e) tt
after_poll-Belongs gs (ready arrivals) now e =
    subst (All (Belongs gs arrivals)) (goes_on_inj (receive_all gs arrivals) now e)
      (receive_all-Belongs gs arrivals)

receive_pass-Belongs :
    (gs : List ℕ) (p : Pass) (now : List Action)
    → keys p.client.groups ≡ gs
    → receive_pass p ≡ goes_on now
    → All (Belongs gs (arrivals_of p.poll)) now
unfolding receive_pass
receive_pass-Belongs [] p now k e =
    subst (All (Belongs [] (arrivals_of p.poll))) (goes_on_inj [] now (rw (receive_pass, k) at e))
      tt
receive_pass-Belongs (g ∷ gs) p now k e =
    after_poll-Belongs (g ∷ gs) p.poll now (rw (receive_pass, k) at e)

Run-Belongs :
    (passes : List Pass) (actions : List Action) (running : Bool)
    → Run passes actions running
    → All (λ a. Exists (BelongsToPass a) passes) actions
Run-Belongs _ _ _ waits = tt
Run-Belongs _ _ _ (stopped p passes f) = tt
Run-Belongs _ _ _ (fails p passes g gs t k e) = tt
Run-Belongs _ _ _ (passes_on p passes now actions running t may e r) =
    All-append _ now actions (All-map (λ a h. inl (t, h)) now (receive_pass-Belongs _ p now refl e))
      (All-map (λ a h. inr h) actions (Run-Belongs passes actions running r))

-- The thread makes its passes in their order: it waits for more after the last; it ends, with
-- `thread_running_` unset, at the first that finds the client stopped or, with a group to poll, at which
-- `poll` fails, and nothing is done for that pass nor for one after it; any other adds its actions to
-- those of the passes after it. Each action is for a datagram at the socket of a group of which the client is a
-- member as a pass begins that finds it running: the callback gets the number of that group and the datagram,
-- or the datagram without its first four bytes; an acknowledgement goes to the address of that group.
pub receive_thread_lem :
    (passes : List Pass)
    → Run passes (receive_thread_func passes).0 (receive_thread_func passes).1
      × All (λ a. Exists (BelongsToPass a) passes) (receive_thread_func passes).0
receive_thread_lem passes = (run passes, Run-Belongs passes _ _ (run passes))
