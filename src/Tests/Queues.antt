-- ===== src/Tests/Queues.antt =====
-- Groups of members and a queue with waiting threads, evaluated.
use asio_kcp.Prelude.{
  ℕ, ◌≡◌, ◌≢◌, ◌≤◌, List, [], ◌∷◌, ◌++◌, Option, none, some, ◌==◌, if◌then◌else◌,
}
use asio_kcp.Prelude.Maps.{lookup, Ascending}
use asio_kcp.MemberGroups.{MulticastManager, create, send_to_group}
use asio_kcp.MemberGroups.Refinement.{
  Call, creates, adds, removes, deletes, answers, specified_answers, specified, no_groups, Groups,
  perform, Shows, create-Shows, perform-Shows, groups_refinement,
}
use asio_kcp.MemberGroups.Sending.{send_to_group_lem}
use asio_kcp.ThreadsafeQueue
use asio_kcp.ThreadsafeQueue.{
  Thread, popping, grabbing, ThreadsafeQueue, look, somebody, nobody, pushes, calls, resumes,
}
use asio_kcp.ThreadsafeQueue.Waiting.{Reaches, starts, steps, no_lost_wakeup, fifo_order}

abbrev some_calls : List Call
some_calls = creates ∷ adds 1 7 ∷ adds 2 7 ∷ removes 1 8 ∷ removes 1 7 ∷ deletes 1 ∷ deletes 1 ∷ []

groups_refinement_example : answers create some_calls ≡ specified_answers no_groups some_calls
groups_refinement_example = groups_refinement some_calls

abbrev grouped : MulticastManager
grouped = (perform (adds 1 7) (perform (adds 1 9) (perform creates create).0).0).0

abbrev grouped_view : Groups
grouped_view = (specified (adds 1 7) (specified (adds 1 9) (specified creates no_groups).0).0).0

grouped-Shows : Shows grouped grouped_view
grouped-Shows =
    (perform-Shows (adds 1 7) _ _ (
      (perform-Shows (adds 1 9) _ _ ((perform-Shows creates create no_groups create-Shows).1)).1)).1

abbrev known_connection : ℕ → Option ℕ
known_connection conv = if conv == 7 then some 70 else none

send_to_group_lem_example :
    let sent = send_to_group (some known_connection) 1 grouped in
    ((conv : ℕ)
      → lookup conv sent ≡ (if grouped_view.member 1 conv then known_connection conv else none))
    × Ascending 0 sent
    × (send_to_group {A = ℕ} none 1 grouped ≡ [])
send_to_group_lem_example = send_to_group_lem known_connection 1 grouped grouped_view grouped-Shows

-- Two threads wait, and a value comes.
abbrev one_woken : ThreadsafeQueue ℕ
one_woken = record { data_queue = 5 ∷ []; asleep = grabbing 2 ∷ []; woken = popping 1 ∷ [] }

one_woken-Reaches : Reaches ℕ (5 ∷ []) [] one_woken
unfolding ThreadsafeQueue.create look ThreadsafeQueue.wait_and_pop ThreadsafeQueue.wait_and_grab_all
    ThreadsafeQueue.push
one_woken-Reaches =
    steps (5 ∷ []) []
      (steps [] [] (steps [] [] starts (calls ThreadsafeQueue.create (popping 1)))
        (calls (record { data_queue = []; asleep = popping 1 ∷ []; woken = [] }) (grabbing 2)))
      (pushes (record { data_queue = []; asleep = grabbing 2 ∷ popping 1 ∷ []; woken = [] }) 5
        (grabbing 2 ∷ []) (popping 1 ∷ []) (somebody (grabbing 2 ∷ []) [] (popping 1)))

some_left : one_woken.data_queue ≢ []
some_left = cc

some_asleep : one_woken.asleep ≢ []
some_asleep = cc

no_lost_wakeup_example :
    (1 ≤ 1)
    × ((t : Thread) × (rest : List Thread) × (one_woken.woken ≡ t ∷ rest))
    × ((t : Thread) (others : List Thread) → (look t (record one_woken { woken = others })).1 ≢ [])
no_lost_wakeup_example = no_lost_wakeup one_woken-Reaches some_left some_asleep

fifo_order_example : 5 ∷ [] ≡ [] ++ one_woken.data_queue
fifo_order_example = fifo_order one_woken-Reaches
