-- ===== src/ClientWrap/Thread.antt =====
-- `do_workthread_loop`: the loop of the thread, with the calls that other threads make between its turns.
use asio_kcp.Prelude.{
  ℕ, ◌+◌, ◌<◌, ◌≤◌, ◌≡◌, refl, ap, Bool, true, false, List, [], ◌∷◌, ◌++◌, Option, none, some,
  Bytes, u64_mod, leb, arith,
}
use asio_kcp.Kcp.{Kcp}
use asio_kcp.Client.{Effect}
use asio_kcp.ClientWrap
use asio_kcp.ClientWrap.{ClientWrap, Tick, kcp_update_interval}

-- What happens while the thread runs: another thread sends a message or wants the end; or the loop looks
-- at the flag, and makes a turn if it is unset.
pub data ThreadEvent : Type 0 where
  sends : Bytes → ThreadEvent
  wants_stop : ThreadEvent
  looks : Tick → ThreadEvent

module _ (kcp : Kcp) where
  open kcp use {Cb}

  -- `none` is that of `update`. What comes after the end of the thread is left.
  unfoldable pub do_workthread_loop :
      ℕ → List ThreadEvent → ClientWrap Cb → Option (ClientWrap Cb × List Effect)
  unfolding ClientWrap.send_msg ClientWrap.workthread_turn
  do_workthread_loop fuel [] w = some (w, [])
  do_workthread_loop fuel (sends msg ∷ es) w =
      do_workthread_loop fuel es (ClientWrap.send_msg msg w)
  do_workthread_loop fuel (wants_stop ∷ es) w =
      do_workthread_loop fuel es (record w { workthread_want_stop = true })
  do_workthread_loop fuel (looks tick ∷ es) w = elim w.workthread_want_stop [
    | true ↦ some (record w { workthread_start = false; workthread_stopped = true }, [])
    | false ↦ elim (ClientWrap.workthread_turn kcp fuel tick w) [
      | none ↦ none
      | some (w', effects) ↦ elim (do_workthread_loop fuel es w') [
        | none ↦ none
        | some (last, more) ↦ some (last, effects ++ more)
      ]
    ]
  ]

  -- What the other threads call until the loop looks at the flag, and whether it does.
  abbrev pub called_before : List ThreadEvent → ClientWrap Cb → ClientWrap Cb
  called_before (sends msg ∷ es) w = called_before es (ClientWrap.send_msg msg w)
  called_before (wants_stop ∷ es) w = called_before es (record w { workthread_want_stop = true })
  called_before _ w = w

  abbrev pub looks_again : List ThreadEvent → Bool
  looks_again [] = false
  looks_again (looks tick ∷ es) = true
  looks_again (_ ∷ es) = looks_again es

  -- The end of the thread is prompt: when `stop` has set its flag, the loop ends the next time it looks,
  -- with the flags that `stop` waits for; there is no update of the client in between, and what other
  -- threads send stays in the queue of the client.
  pub stop-do_workthread_loop :
      (fuel : ℕ) (es : List ThreadEvent) (w : ClientWrap Cb)
      → looks_again es ≡ true
      → w.workthread_want_stop ≡ true
      → do_workthread_loop fuel es w
        ≡ some (
          record (called_before es w) { workthread_start = false; workthread_stopped = true },
          [],
        )
  unfolding do_workthread_loop ClientWrap.send_msg
  stop-do_workthread_loop fuel [] w again e = cc
  stop-do_workthread_loop fuel (sends msg ∷ es) w again e =
      stop-do_workthread_loop fuel es (ClientWrap.send_msg msg w) again e
  stop-do_workthread_loop fuel (wants_stop ∷ es) w again e =
      stop-do_workthread_loop fuel es (record w { workthread_want_stop = true }) again refl
  stop-do_workthread_loop fuel (looks tick ∷ es) w again e =
      rw (do_workthread_loop, e)
        (ap
          (λ b. some (
            record w {
              workthread_want_stop = b;
              workthread_start = false;
              workthread_stopped = true;
            },
            [],
          ))
          e)

module _ {Cb : Type 0} where
  -- When the clock has not gone back, a turn updates the client exactly if five milliseconds have passed
  -- since the last update; when it has, the turn updates.
  pub is_due_lem :
      (clock : ℕ) (w : ClientWrap Cb)
      → clock < u64_mod
      → w.kcp_last_update_clock < u64_mod
      → (w.kcp_last_update_clock ≤ clock
          → ClientWrap.is_due clock w ≡ leb (w.kcp_last_update_clock + kcp_update_interval) clock)
        × (clock < w.kcp_last_update_clock → ClientWrap.is_due clock w ≡ true)
  unfolding ClientWrap.is_due
  is_due_lem clock w h h' = (λ le. ground arith, λ lt. ground arith)

  -- The first turn of a thread updates the client.
  pub is_due_at_first :
      (start clock : ℕ) (w w' : ClientWrap Cb)
      → start ≤ clock
      → clock + kcp_update_interval < u64_mod
      → ClientWrap.start_workthread true start w ≡ some w'
      → ClientWrap.is_due clock w' ≡ true
  unfolding ClientWrap.start_workthread ClientWrap.is_due
  is_due_at_first start clock w w' le h e = ground arith
