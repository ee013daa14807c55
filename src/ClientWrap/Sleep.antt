-- ===== src/ClientWrap/Sleep.antt =====
-- client_lib/kcp_client_util.cpp: the sleep of a thread, and the clock.
use mathlib.Core.Path.{subst}
use asio_kcp.Prelude.{
  ℕ, ◌+◌, ◌-◌, ◌*◌, ◌/◌, ◌%◌, ◌<◌, ◌≤◌, ◌≡◌, ◌⊎◌, inl, inr, ◌++◌, Bool-cases, refl, Bool, true,
  false, List, [], ◌∷◌, Option, none, some, u32_mod, u64_mod, ltb, arith, if◌then◌else◌,
}

-- `struct timespec`.
pub record Timespec : Type 0 where
  pub tv_sec : ℕ
  pub tv_nsec : ℕ

-- What `nanosleep` leaves: nothing where it has slept, the rest where a signal woke it.
abbrev pub Left : Type 0
Left = Timespec

-- The requests that the loop makes of `nanosleep`, which leaves the times of the list one after the other;
-- `none` if it makes more.
unfoldable pub sleep_loop : List Left → Timespec → Option (List Timespec)
sleep_loop [] t = if ltb 0 (t.tv_sec + t.tv_nsec) then none else some []
sleep_loop (left ∷ lefts) t =
    let rest = sleep_loop lefts left in
    if ltb 0 (t.tv_sec + t.tv_nsec)
    then elim rest [ none ↦ none | some requests ↦ some (t ∷ requests) ]
    else some []

unfoldable pub millisecond_sleep : List Left → ℕ → Option (List Timespec)
unfolding sleep_loop
millisecond_sleep lefts n_millisecond =
    sleep_loop lefts
      (record { tv_sec = n_millisecond / 1000; tv_nsec = n_millisecond % 1000 * 1000 * 1000 })

-- `itimeofday` gives the seconds and the microseconds.
unfoldable pub iclock64 : ℕ × ℕ → ℕ
iclock64 (s, u) = (s * 1000 + u / 1000) % u64_mod

unfoldable pub iclock : ℕ × ℕ → ℕ
unfolding iclock64
iclock time = iclock64 time % u32_mod

abbrev pub nanoseconds : Timespec → ℕ
nanoseconds t = t.tv_sec * 1000000000 + t.tv_nsec

-- `nanosleep` leaves no more than it was asked for, and slept the difference.
abbrev pub LeavesLess : Timespec → List Left → Type 0
LeavesLess t [] = Unit {0}
LeavesLess t (left ∷ lefts) = (nanoseconds left ≤ nanoseconds t) × LeavesLess left lefts

abbrev pub slept : List Left → List Timespec → ℕ
slept (left ∷ lefts) (t ∷ requests) = (nanoseconds t - nanoseconds left) + slept lefts requests
slept _ _ = 0

some_inj : (a b : List Timespec) → some a ≡ some b → a ≡ b
some_inj a b e = cc

slept-sleep_loop :
    (lefts : List Left) (t : Timespec) (requests : List Timespec)
    → LeavesLess t lefts
    → sleep_loop lefts t ≡ some requests
    → slept lefts requests ≡ nanoseconds t
unfolding sleep_loop
slept-sleep_loop [] t requests h e = ground arith
slept-sleep_loop (left ∷ lefts) t requests h e =
    by_rest _ _ refl refl (λ more r. slept-sleep_loop lefts left more h.1 r)
  where
    by_rest :
        (again : Bool) (rest : Option (List Timespec))
        → ltb 0 (t.tv_sec + t.tv_nsec) ≡ again
        → sleep_loop lefts left ≡ rest
        → ((more : List Timespec)
            → sleep_loop lefts left ≡ some more
            → slept lefts more ≡ nanoseconds left)
        → slept (left ∷ lefts) requests ≡ nanoseconds t
    by_rest false rest z r ih =
        subst (λ q. slept (left ∷ lefts) q ≡ nanoseconds t)
          (some_inj [] requests (rw (sleep_loop, z) at e)) (ground arith)
    by_rest true none z r ih = cc (rw (sleep_loop, z, r) at e)
    by_rest true (some more) z r ih =
        subst (λ q. slept (left ∷ lefts) q ≡ nanoseconds t)
          (some_inj (t ∷ more) requests (rw (sleep_loop, z, r) at e))
          (omega (arith, ih more r, h.0))

abbrev pub all_slept : Timespec
all_slept = record { tv_sec = 0; tv_nsec = 0 }

sleep_loop_ends :
    (before : List Left) (t : Timespec)
    → (requests : List Timespec) × (sleep_loop (before ++ all_slept ∷ []) t ≡ some requests)
unfolding sleep_loop
sleep_loop_ends [] t = elim (Bool-cases (ltb 0 (t.tv_sec + t.tv_nsec))) [
  | inl more ↦ rw (sleep_loop, more) (t ∷ [], refl)
  | inr done ↦ rw (sleep_loop, done) ([], refl)
]
sleep_loop_ends (left ∷ before) t =
    let (requests, e) = sleep_loop_ends before left in
    elim (Bool-cases (ltb 0 (t.tv_sec + t.tv_nsec))) [
      | inl more ↦ rw (sleep_loop, more, e) (t ∷ requests, refl)
      | inr done ↦ rw (sleep_loop, done) ([], refl)
    ]

-- The sleep ends when a `nanosleep` leaves nothing, and then has slept all the milliseconds, to the
-- nanosecond, however often a signal woke it before, if each `nanosleep` leaves no more than it was asked
-- for.
pub millisecond_sleep_lem :
    (before : List Left) (n_millisecond : ℕ)
    → LeavesLess
        (record { tv_sec = n_millisecond / 1000; tv_nsec = n_millisecond % 1000 * 1000 * 1000 })
        (before ++ all_slept ∷ [])
    → (requests : List Timespec) × (millisecond_sleep (before ++ all_slept ∷ []) n_millisecond
        ≡ some requests)
      × (slept (before ++ all_slept ∷ []) requests ≡ n_millisecond * 1000000)
unfolding millisecond_sleep
millisecond_sleep_lem before n h =
    let (requests, e) = sleep_loop_ends before _ in
    (requests, e, omega (arith, slept-sleep_loop (before ++ all_slept ∷ []) _ requests h e))

-- The clock does not go back where the system's does not, below 2^64 milliseconds.
pub iclock64_mono :
    (s u s' u' : ℕ)
    → (s < s') ⊎ ((s ≡ s') × (u ≤ u'))
    → u < 1000000
    → s' * 1000 + 1000 ≤ u64_mod
    → u' < 1000000
    → iclock64 (s, u) ≤ iclock64 (s', u')
unfolding iclock64
iclock64_mono s u s' u' (inl lt) h b h' = omega arith
iclock64_mono s u s' u' (inr (e, le)) h b h' = omega (arith, e)
