-- ===== src/ClientWrap.antt =====
-- client_lib/kcp_client_wrap.cpp: a client with a thread of its own, and a connect that waits. The thread
-- is a state of its flags; a turn of its loop is a call; Thread has the loop.
pub mod Turns
pub mod Waiting
pub mod Thread
pub mod Sleep
use asio_kcp.Prelude.{
  ℕ, zero, suc, ◌+◌, ◌-◌, ◌%◌, Bool, true, false, ◌||◌, List, [], ◌∷◌, ◌++◌, Option, none, some,
  Bytes, u64_mod, ltb, leb, ◌==◌, if◌then◌else◌,
}
use asio_kcp.Prelude.Int.{ℤ, pos, negsuc, neg, is_negative}
use asio_kcp.Kcp.{Kcp}
use asio_kcp.Client
use asio_kcp.Client.{
  Client, Effect, EventType, connect_failed, disconnect, rcv_msg, event, send_to_server, Outcome,
  Received, ConnectCalls, Target,
}

abbrev pub kcp_err_kcp_connect_timeout : ℤ
kcp_err_kcp_connect_timeout = neg 2011

abbrev pub kcp_update_interval : ℕ
kcp_update_interval = 5

-- `kcp_client_wrap`.
pub record ClientWrap (Cb : Type 0) : Type 0 where
  pub client : Client Cb
  pub connect_result : ℤ
  pub has_event_func : Bool
  pub workthread_want_stop : Bool
  pub workthread_stopped : Bool
  pub workthread_start : Bool
  pub kcp_last_update_clock : ℕ

module _ {Cb : Type 0} where
  unfoldable pub create : ClientWrap Cb
  unfolding Client.create Client.set_event_callback
  create = record {
    client = Client.set_event_callback Client.create;
    connect_result = pos 1;
    has_event_func = false;
    workthread_want_stop = false;
    workthread_stopped = false;
    workthread_start = false;
    kcp_last_update_clock = 0;
  }

  unfoldable pub set_event_callback : ClientWrap Cb → ClientWrap Cb
  set_event_callback w = record w { has_event_func = true }

  -- What the client's callback does: it keeps the result of the connect, and calls the application.
  unfoldable pub handle_client_event_callback :
      ℕ → EventType → Bytes → ClientWrap Cb → ClientWrap Cb × List Effect
  handle_client_event_callback conv type_ msg w =
      let told = if w.has_event_func then event conv type_ msg ∷ [] else [] in
      (record w { connect_result = outcome type_ w.connect_result }, told)
    where
      outcome : EventType → ℤ → ℤ
      outcome Client.connect r = pos 0
      outcome connect_failed r = kcp_err_kcp_connect_timeout
      outcome _ r = r

  -- The client's effects, in their order: its calls of the callback come here.
  unfoldable pub relay : List Effect → ClientWrap Cb → ClientWrap Cb × List Effect
  unfolding handle_client_event_callback
  relay [] w = (w, [])
  relay (send_to_server msg ∷ es) w = let (w', rest) = relay es w in (w', send_to_server msg ∷ rest)
  relay (event conv type_ msg ∷ es) w =
      let (w', told) = handle_client_event_callback conv type_ msg w in
      let (w'', rest) = relay es w' in (w'', told ++ rest)

  -- `pthread_create` succeeds or not; the call waits until the thread runs. `none` stands for the exception
  -- of a thread that runs already.
  unfoldable pub start_workthread : Bool → ℕ → ClientWrap Cb → Option (ClientWrap Cb)
  start_workthread created clock w =
      if w.workthread_start
      then none
      else if created
      then some (record w {
        workthread_start = true;
        kcp_last_update_clock = (clock + u64_mod - kcp_update_interval) % u64_mod;
      })
      else some w

  -- Whether a turn of the thread's loop calls `update`.
  unfoldable pub is_due : ℕ → ClientWrap Cb → Bool
  is_due cur_clock w =
      leb kcp_update_interval ((cur_clock + u64_mod - w.kcp_last_update_clock) % u64_mod)
      || ltb cur_clock w.kcp_last_update_clock

  -- The thread ends when it sees the flag; it is joined.
  unfoldable pub stop : ClientWrap Cb → ClientWrap Cb
  stop w =
      if w.workthread_start
      then record w {
        workthread_want_stop = true;
        workthread_start = false;
        workthread_stopped = true;
      }
      else w

  unfoldable pub send_msg : Bytes → ClientWrap Cb → ClientWrap Cb
  unfolding Client.send_msg
  send_msg msg w = record w { client = Client.send_msg msg w.client }

-- The result 1, which stands for none yet.
abbrev pub is_unknown : ℤ → Bool
is_unknown (pos n) = n == 1
is_unknown (negsuc n) = false

-- The clock and the answer to `recv` at one update.
abbrev pub Tick : Type 0
Tick = ℕ × Received

module _ (kcp : Kcp) where
  open kcp use {Cb}

  -- `kcp_client_.update()`.
  unfoldable pub update : ℕ → Tick → ClientWrap Cb → Option (ClientWrap Cb × List Effect)
  unfolding Client.update relay
  update fuel (clock, received) w = elim (Client.update kcp fuel clock received w.client) [
    | none ↦ none
    | some r ↦ some (relay r.effects (record w { client = r.client }))
  ]

  -- One turn of the thread's loop, with the flag that ends it unset.
  unfoldable pub workthread_turn : ℕ → Tick → ClientWrap Cb → Option (ClientWrap Cb × List Effect)
  unfolding is_due update
  workthread_turn fuel (clock, received) w =
      if is_due clock w
      then update fuel (clock, received) (record w { kcp_last_update_clock = clock })
      else some (w, [])

  -- The loop that waits for the result; `none` where the ticks do not suffice.
  unfoldable pub do_asio_kcp_connect_loop :
      ℕ → List Tick → ClientWrap Cb → Option (ClientWrap Cb × List Effect × ℤ)
  unfolding update
  do_asio_kcp_connect_loop fuel [] w =
      if is_unknown w.connect_result then none else some (w, [], w.connect_result)
  do_asio_kcp_connect_loop fuel (t ∷ ts) w = elim (is_unknown w.connect_result) [
    | false ↦ some (w, [], w.connect_result)
    | true ↦ elim (update fuel t w) [
      | none ↦ none
      | some (w', effects) ↦ elim (do_asio_kcp_connect_loop fuel ts w') [
        | none ↦ none
        | some (w'', more, r) ↦ some (w'', effects ++ more, r)
      ]
    ]
  ]

  -- How `connect` ends: with a result, or with the exception of a thread that runs already.
  pub data ConnectEnd : Type 0 where
    ended : ClientWrap Cb → List Effect → ℤ → ConnectEnd
    thread_exception : ClientWrap Cb → ConnectEnd

  abbrev pub with_thread : Bool → ℕ → ClientWrap Cb → List Effect → ConnectEnd
  with_thread created clock w effects = elim (start_workthread created clock w) [
    | none ↦ thread_exception w
    | some w' ↦ ended w' effects (pos 0)
  ]

  -- The thread starts if the result is 0. `later` is the clock at which it does.
  unfoldable pub connect :
      Target → ConnectCalls → ℕ → ℕ → List Tick → Bool → ℕ → ClientWrap Cb → Option ConnectEnd
  unfolding Client.connect_async do_asio_kcp_connect_loop start_workthread
  connect target calls clock fuel ts created later w =
      let (c, ret) = Client.connect_async target calls clock w.client in
      let w' = record w { client = c } in
      if is_negative ret
      then some (ended w' [] ret)
      else elim (do_asio_kcp_connect_loop fuel ts w') [
        | none ↦ none
        | some (last, effects, r) ↦ elim r [
          | pos zero ↦ some (with_thread created later last effects)
          | other ↦ some (ended last effects other)
        ]
      ]

  unfoldable pub connect_async : Target → ConnectCalls → ℕ → Bool → ℕ → ClientWrap Cb → ConnectEnd
  unfolding Client.connect_async start_workthread
  connect_async target calls clock created later w =
      let (c, ret) = Client.connect_async target calls clock w.client in
      let w' = record w { client = c } in
      if is_negative ret then ended w' [] ret else with_thread created later w' []
