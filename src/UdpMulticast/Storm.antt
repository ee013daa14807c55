-- ===== src/UdpMulticast/Storm.antt =====
-- The timer of a group under two messages that are sent one shortly after the other.
use asio_kcp.Prelude.{
  ℕ, zero, suc, ◌+◌, ◌%◌, ◌≤◌, ◌≡◌, ◌≢◌, refl, ap, ◌∙◌, Bool, true, List, [], ◌∷◌, ◌++◌, none, some,
  Bytes, arith, u32_mod, ==-refl, if◌then◌else◌,
}
use asio_kcp.Prelude.Maps.{Map, lookup, insert, lookup-insert, insert-ne-nil}
use asio_kcp.Server.{Endpoint}
use asio_kcp.UdpMulticast.Timers.{Timer, expires_from_now, async_wait, take_handler}
use asio_kcp.UdpMulticast.{
  MulticastGroup, UdpMulticastManager, Datagram, send_reliable_to_group, handle_retransmit,
  retransmit, retransmissions, numbered, restart,
}

module _ (accepts : Datagram → Bool) where
  -- The event loop runs a handler of the group's timer that is ready.
  pub fire : ℕ → UdpMulticastManager → UdpMulticastManager × List Datagram
  fire g m = elim (lookup g m.groups) [
    | none ↦ (m, [])
    | some group ↦ handle_retransmit accepts g (record m {
      groups =
          insert g (record group { retransmit_timer = take_handler group.retransmit_timer })
            m.groups;
    })
  ]

  pub fires : ℕ → ℕ → UdpMulticastManager → UdpMulticastManager × List Datagram
  unfolding fire
  fires zero g m = (m, [])
  fires (suc n) g m = let (m', ds) = fire g m in let (m'', ds') = fires n g m' in (m'', ds ++ ds')

  abbrev pub times : ℕ → List Datagram → List Datagram
  times zero ds = []
  times (suc n) ds = ds ++ times n ds

  -- A handler is ready while another waits.
  abbrev pub IsStorming : ℕ → Endpoint → Map Bytes → UdpMulticastManager → Type 0
  IsStorming g ep msgs m =
      (group : MulticastGroup) × (lookup g m.groups ≡ some group)
      × (group.endpoint ≡ ep)
      × (group.sent_msgs ≡ msgs)
      × (1 ≤ group.retransmit_timer.ready)
      × (group.retransmit_timer.waiting ≡ 1)

  fire_found :
      (g : ℕ) (m : UdpMulticastManager) (group : MulticastGroup)
      → lookup g m.groups ≡ some group
      → fire g m
        ≡ handle_retransmit accepts g (record m {
          groups =
              insert g
                (record group { retransmit_timer = take_handler group.retransmit_timer })
                m.groups;
        })
  unfolding fire
  fire_found g m group e = rw (e, fire) refl

  handle_retransmit_found :
      (g : ℕ) (m : UdpMulticastManager) (group : MulticastGroup) (entry : ℕ × Bytes)
      (rest : Map Bytes)
      → lookup g m.groups ≡ some group
      → group.sent_msgs ≡ entry ∷ rest
      → handle_retransmit accepts g m ≡ (
        record m {
          groups =
              insert g
                (record group { retransmit_timer = restart accepts group.retransmit_timer })
                m.groups;
        },
        retransmissions accepts group.endpoint (entry ∷ rest),
      )
  unfolding handle_retransmit
  handle_retransmit_found g m group entry rest e same =
      rw (e, handle_retransmit) (ap (λ msgs. retransmit accepts g group msgs m) same)

  timer_keeps :
      (t : Timer)
      → 1 ≤ t.ready
      → t.waiting ≡ 1
      → (1 ≤ (restart accepts (take_handler t)).ready)
        × ((restart accepts (take_handler t)).waiting ≡ 1)
  unfolding take_handler async_wait expires_from_now
  timer_keeps t ready waiting = omega arith

  fire-IsStorming :
      (g : ℕ) (ep : Endpoint) (msgs : Map Bytes) (m : UdpMulticastManager)
      → msgs ≢ []
      → IsStorming g ep msgs m
      → IsStorming g ep msgs (fire g m).0 × ((fire g m).1 ≡ retransmissions accepts ep msgs)
  unfolding fire handle_retransmit
  fire-IsStorming g ep [] m some_msgs s = absurd (some_msgs refl)
  fire-IsStorming g ep (entry ∷ rest) m some_msgs (group, e, same_ep, same, ready, waiting) =
      let drained = record group { retransmit_timer = take_handler group.retransmit_timer } in
      let m' = record m { groups = insert g drained m.groups } in
      let found : lookup g m'.groups ≡ some drained = rw (lookup-insert, ==-refl) refl in
      let step =
        fire_found g m group e ∙ handle_retransmit_found g m' drained entry rest found same in
      rw step (
        (
          record drained { retransmit_timer = restart accepts drained.retransmit_timer },
          rw (lookup-insert, ==-refl) refl,
          same_ep,
          same,
          (timer_keeps group.retransmit_timer ready waiting).0,
          (timer_keeps group.retransmit_timer ready waiting).1,
        ),
        ap (λ x. retransmissions accepts x (entry ∷ rest)) same_ep,
      )

  fires-IsStorming :
      (n g : ℕ) (ep : Endpoint) (msgs : Map Bytes) (m : UdpMulticastManager)
      → msgs ≢ []
      → IsStorming g ep msgs m
      → IsStorming g ep msgs (fires n g m).0
        × ((fires n g m).1 ≡ times n (retransmissions accepts ep msgs))
  unfolding fires
  fires-IsStorming zero g ep msgs m some_msgs s = (s, refl)
  fires-IsStorming (suc n) g ep msgs m some_msgs s =
      let (s', e) = fire-IsStorming g ep msgs m some_msgs s in
      let (s'', e') = fires-IsStorming n g ep msgs (fire g m).0 some_msgs s' in (s'', rw (e, e'))

  send_found :
      (g : ℕ) (msg : Bytes) (m : UdpMulticastManager) (group : MulticastGroup)
      → lookup g m.groups ≡ some group
      → (send_reliable_to_group accepts g msg m).0
        ≡ record m { groups = insert g (numbered accepts msg group) m.groups }
  unfolding send_reliable_to_group
  send_found g msg m group e = rw (e, send_reliable_to_group) refl

  two_waits :
      (t : Timer) (p q : Bool)
      → p ≡ true
      → q ≡ true
      → t.waiting ≡ 0
      → let t' = if p then restart accepts t else t in
        let t'' = if q then restart accepts t' else t' in (1 ≤ t''.ready) × (t''.waiting ≡ 1)
  unfolding async_wait expires_from_now
  two_waits t p q hp hq rest = rw (hp, hq) (omega arith)

  -- Two reliable messages to a group whose timer is at rest, the second before the first wait of 500
  -- milliseconds has passed, set off retransmissions without end: `expires_from_now` cancels the other
  -- wait, a cancelled handler runs like one whose time has come, and so, with no time passing, a handler
  -- is ready after any number of them, each of which has sent every pending message of the group again.
  pub retransmit_storm :
      (n g : ℕ) (a b : Bytes) (m : UdpMulticastManager) (group : MulticastGroup)
      → ((d : Datagram) → accepts d ≡ true)
      → lookup g m.groups ≡ some group
      → group.retransmit_timer.waiting ≡ 0
      → let msgs =
          insert ((group.next_seq + 1) % u32_mod) b (insert group.next_seq a group.sent_msgs) in
        let m' = (send_reliable_to_group accepts g b (send_reliable_to_group accepts g a m).0).0 in
        IsStorming g group.endpoint msgs (fires n g m').0
        × ((fires n g m').1 ≡ times n (retransmissions accepts group.endpoint msgs))
  retransmit_storm n g a b m group all e rest =
      let once = numbered accepts a group in
      let sent_once = record m { groups = insert g once m.groups } in
      let found : lookup g sent_once.groups ≡ some once = rw (lookup-insert, ==-refl) refl in
      fires-IsStorming n g group.endpoint _ _
        (insert-ne-nil _ b (insert group.next_seq a group.sent_msgs))
        (rw (send_found g a m group e, send_found g b sent_once once found)
          (
            numbered accepts b once,
            rw (lookup-insert, ==-refl) refl,
            refl,
            refl,
            (two_waits group.retransmit_timer _ _ (all _) (all _) rest).0,
            (two_waits group.retransmit_timer _ _ (all _) (all _) rest).1,
          ))
