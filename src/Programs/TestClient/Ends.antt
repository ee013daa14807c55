-- ===== src/Programs/TestClient/Ends.antt =====
-- How long the timers of the test client go on.
use mathlib.Core.Path.{subst}
use asio_kcp.Prelude.{
  ℕ, suc, ◌+◌, ◌≤◌, ◌≡◌, refl, sym, Bool, true, false, List, [], ◌∷◌, Option, none, some, arith,
  Bool-cases, Option-cases, ◌⊎◌, Exists, Bytes, ◌∙◌, ap, inl, inr, if◌then◌else◌,
}
use asio_kcp.Kcp.{Kcp}
use asio_kcp.Client
use asio_kcp.Client.{
  Client, Effect, EventType, connect, connect_failed, disconnect, rcv_msg, event, send_to_server,
  Received, ConnectCalls, Target,
}
use asio_kcp.Programs.TestClient
use asio_kcp.Programs.TestClient.{
  TestClient, stop_all, hook_client_timer, hook_timer_send_msg, handle_timer_send_msg, called_back,
  handle_client_event_callback, handle_client_time, send_test_msg,
}

-- The handlers that have run between two states, of which `n` were timers'.
pub data Runs (kcp : Kcp) : ℕ → TestClient kcp.Cb → TestClient kcp.Cb → Type 0 where
  stays : (t : TestClient kcp.Cb) → Runs kcp 0 t t
  stops : (n : ℕ) (t t' : TestClient kcp.Cb) → Runs kcp n (stop_all t) t' → Runs kcp n t t'
  client_time :
      (n fuel clock : ℕ) (received : Received) (t t' t'' : TestClient kcp.Cb)
      (effects : List Effect)
      → t.client_timer ≡ true
      → handle_client_time kcp fuel clock received t ≡ some (t', effects)
      → Runs kcp n t' t''
      → Runs kcp (suc n) t t''
  send_time :
      (n clock : ℕ) (t t' : TestClient kcp.Cb)
      → t.client_timer_send_msg ≡ true
      → Runs kcp n (handle_timer_send_msg clock t) t'
      → Runs kcp (suc n) t t'

-- The events that the callback takes for the end of the connection.
abbrev pub IsEnd : Effect → Type 0
IsEnd (event conv connect_failed msg) = Unit
IsEnd (event conv disconnect msg) = Unit
IsEnd _ = ⊥

-- `stop_all` was called on the way, or an update reported an end.
abbrev pub Ended : {kcp : Kcp} {n : ℕ} {t t' : TestClient kcp.Cb} → Runs kcp n t t' → Type 0
Ended (stays t) = ⊥
Ended (stops n t t' r) = Unit
Ended (client_time n fuel clock received t t' t'' effects due e r) = Exists IsEnd effects ⊎ Ended r
Ended (send_time n clock t t' due r) = Ended r

abbrev pub pending : Bool → ℕ
pending b = if b then 1 else 0

-- The waits that are pending.
abbrev pub waits : {Cb : Type 0} → TestClient Cb → ℕ
waits t = pending t.client_timer + pending t.client_timer_send_msg

-- What `handle_client_event_callback` leaves of the timers, and that it never unsets `stopped_`.
abbrev SameTimers : {Cb : Type 0} → TestClient Cb → TestClient Cb → Type 0
SameTimers t t' =
    (t'.client_timer ≡ t.client_timer)
    × (t'.client_timer_send_msg ≡ t.client_timer_send_msg)
    × (t.stopped ≡ true → t'.stopped ≡ true)

-- Events stop the client if and only if one of them is an end.
abbrev StoppedBy : {Cb : Type 0} → Type 0 → TestClient Cb → TestClient Cb → Type 0
StoppedBy End t t' = (End → t'.stopped ≡ true) × (¬ End → t'.stopped ≡ t.stopped)

callback-SameTimers :
    {Cb : Type 0} (type_ : EventType) (t : TestClient Cb)
    → SameTimers t (handle_client_event_callback type_ t)
unfolding handle_client_event_callback
callback-SameTimers connect t = (refl, refl, λ e. e)
callback-SameTimers connect_failed t = (refl, refl, λ e. refl)
callback-SameTimers disconnect t = (refl, refl, λ e. refl)
callback-SameTimers rcv_msg t = (refl, refl, λ e. e)

callback-StoppedBy :
    {Cb : Type 0} (conv : ℕ) (type_ : EventType) (msg : Bytes) (t : TestClient Cb)
    → StoppedBy (IsEnd (event conv type_ msg)) t (handle_client_event_callback type_ t)
unfolding handle_client_event_callback
callback-StoppedBy conv connect msg t = ((λ e. absurd e), λ ne. refl)
callback-StoppedBy conv connect_failed msg t = ((λ e. refl), λ ne. absurd (ne tt))
callback-StoppedBy conv disconnect msg t = ((λ e. refl), λ ne. absurd (ne tt))
callback-StoppedBy conv rcv_msg msg t = ((λ e. absurd e), λ ne. refl)

called_back-SameTimers :
    {Cb : Type 0} (es : List Effect) (t : TestClient Cb) → SameTimers t (called_back es t)
unfolding called_back
called_back-SameTimers [] t = (refl, refl, λ e. e)
called_back-SameTimers (send_to_server msg ∷ es) t = called_back-SameTimers es t
called_back-SameTimers (event conv type_ msg ∷ es) t =
    let (client, send, stop) = callback-SameTimers type_ t in
    let (client', send', stop') =
      called_back-SameTimers es (handle_client_event_callback type_ t) in
    (client' ∙ client, send' ∙ send, λ e. stop' (stop e))

called_back-StoppedBy :
    {Cb : Type 0} (es : List Effect) (t : TestClient Cb)
    → StoppedBy (Exists IsEnd es) t (called_back es t)
unfolding called_back
called_back-StoppedBy [] t = ((λ e. absurd e), λ ne. refl)
called_back-StoppedBy (send_to_server msg ∷ es) t =
    let (ends, on) = called_back-StoppedBy es t in
    ((λ e. elim e [ inl now ↦ absurd now | inr later ↦ ends later ]), λ ne. on (λ e. ne (inr e)))
called_back-StoppedBy (event conv type_ msg ∷ es) t =
    let (now, on) = callback-StoppedBy conv type_ msg t in
    let (ends, on') = called_back-StoppedBy es (handle_client_event_callback type_ t) in
    let (_, _, keeps) = called_back-SameTimers es (handle_client_event_callback type_ t) in
    (
      (λ e. elim e [ inl here ↦ keeps (now here) | inr later ↦ ends later ]),
      λ ne. on' (λ e. ne (inr e)) ∙ on (λ e. ne (inl e)),
    )

some_injective :
    {A : Type 0} {a b : A × List Effect}
    → ◌≡◌ {A = Option (A × List Effect)} (some a) (some b)
    → a ≡ b
some_injective {A} {a} {b} e = ap (λ o. elim o [ none ↦ a | some p ↦ p ]) e

-- The timer of the updates when one has been made.
abbrev rehooked : {Cb : Type 0} → TestClient Cb → TestClient Cb
rehooked t = hook_client_timer (record t { client_timer = false })

-- What the timer of the updates does to the flags, and by which events.
client_time-SameTimers :
    (kcp : Kcp) (fuel clock : ℕ) (received : Received) (t t' : TestClient kcp.Cb)
    (effects : List Effect)
    → handle_client_time kcp fuel clock received t ≡ some (t', effects)
    → SameTimers (rehooked t) t' × StoppedBy (Exists IsEnd effects) (rehooked t) t'
unfolding handle_client_time
client_time-SameTimers kcp fuel clock received t t' effects e =
    elim (Option-cases (Client.update kcp fuel clock received (rehooked t).kcp_client)) [
      | inl n ↦ cc (rw (handle_client_time, n) at e)
      | inr (r, s) ↦
          subst (λ p. SameTimers (rehooked t) p.0 × StoppedBy (Exists IsEnd p.1) (rehooked t) p.0)
            (some_injective (rw (handle_client_time, s) at e))
            (
              called_back-SameTimers r.effects (record (rehooked t) { kcp_client = r.client }),
              called_back-StoppedBy r.effects (record (rehooked t) { kcp_client = r.client }),
            )
    ]

-- While the client is not stopped, a wait is pending on each timer.
abbrev pub IsHooked : {Cb : Type 0} → TestClient Cb → Type 0
IsHooked t = t.stopped ≡ false → (t.client_timer ≡ true) × (t.client_timer_send_msg ≡ true)

rehooked_lem :
    {Cb : Type 0} (t : TestClient Cb)
    → ((rehooked t).stopped ≡ t.stopped)
      × ((rehooked t).client_timer_send_msg ≡ t.client_timer_send_msg)
      × (t.stopped ≡ false → (rehooked t).client_timer ≡ true)
      × (t.stopped ≡ true → (rehooked t).client_timer ≡ false)
unfolding hook_client_timer
rehooked_lem t = (ground arith, ground arith, λ e. ground arith, λ e. ground arith)

sent_lem :
    {Cb : Type 0} (clock : ℕ) (t : TestClient Cb)
    → let t' = handle_timer_send_msg clock t in
      (t'.stopped ≡ t.stopped)
      × (t'.client_timer ≡ t.client_timer)
      × (t.stopped ≡ false → t'.client_timer_send_msg ≡ true)
      × (t.stopped ≡ true → t'.client_timer_send_msg ≡ false)
unfolding handle_timer_send_msg hook_timer_send_msg send_test_msg
sent_lem clock t = (ground arith, ground arith, λ e. ground arith, λ e. ground arith)

-- A wait that has ended, and one that is pending no more.
waits_less :
    {Cb : Type 0} (t t' : TestClient Cb)
    → t.client_timer ≡ true
    → t'.client_timer ≡ false
    → t'.client_timer_send_msg ≡ t.client_timer_send_msg
    → suc (waits t') ≡ waits t
waits_less t t' e off same = ground arith

waits_less_send :
    {Cb : Type 0} (t t' : TestClient Cb)
    → t.client_timer_send_msg ≡ true
    → t'.client_timer_send_msg ≡ false
    → t'.client_timer ≡ t.client_timer
    → suc (waits t') ≡ waits t
waits_less_send t t' e off same = ground arith

Runs-waits :
    (kcp : Kcp) (n : ℕ) (t t' : TestClient kcp.Cb)
    → Runs kcp n t t'
    → t.stopped ≡ true
    → (n + waits t' ≡ waits t) × (t'.stopped ≡ true)
unfolding stop_all
Runs-waits kcp _ _ _ (stays t) e = (omega arith, e)
Runs-waits kcp _ _ _ (stops n t t' r) e = Runs-waits kcp n (stop_all t) t' r refl
Runs-waits kcp _ _ _ (client_time n fuel clock received t t' t'' effects due h r) e =
    let (same, send, _, off) = rehooked_lem t in
    let ((client', send', stop'), _) =
      client_time-SameTimers kcp fuel clock received t t' effects h in
    let (count, last) = Runs-waits kcp n t' t'' r (stop' (same ∙ e)) in
    (omega (arith, count, waits_less t t' due (client' ∙ off e) (send' ∙ send)), last)
Runs-waits kcp _ _ _ (send_time n clock t t' due r) e =
    let (same, client, _, off) = sent_lem clock t in
    let (count, last) = Runs-waits kcp n (handle_timer_send_msg clock t) t' r (same ∙ e) in
    (
      omega (arith, count, waits_less_send t (handle_timer_send_msg clock t) due (off e) client),
      last,
    )

Runs-IsHooked :
    (kcp : Kcp) (n : ℕ) (t t' : TestClient kcp.Cb) → Runs kcp n t t' → IsHooked t → IsHooked t'
unfolding stop_all
Runs-IsHooked kcp _ _ _ (stays t) h = h
Runs-IsHooked kcp _ _ _ (stops n t t' r) h = Runs-IsHooked kcp n (stop_all t) t' r (λ e. cc)
Runs-IsHooked kcp _ _ _ (client_time n fuel clock received t t' t'' effects due e r) h =
    let (same, send, on, _) = rehooked_lem t in
    let ((client', send', stop'), _) =
      client_time-SameTimers kcp fuel clock received t t' effects e in
    Runs-IsHooked kcp n t' t'' r (λ f. elim (Bool-cases t.stopped) [
      | inl stopped ↦ cc (stop' (same ∙ stopped))
      | inr u ↦ (client' ∙ on u, send' ∙ (send ∙ (h u).1))
    ])
Runs-IsHooked kcp _ _ _ (send_time n clock t t' due r) h =
    let (same, client, on, _) = sent_lem clock t in
    Runs-IsHooked kcp n (handle_timer_send_msg clock t) t' r
      (λ f. let u = sym same ∙ f in (client ∙ (h u).0, on u))

Runs-Ended :
    (kcp : Kcp) (n : ℕ) (t t' : TestClient kcp.Cb) (r : Runs kcp n t t') → StoppedBy (Ended r) t t'
unfolding stop_all
Runs-Ended kcp _ _ _ (stays t) = ((λ e. absurd e), λ ne. refl)
Runs-Ended kcp _ _ _ (stops n t t' r) =
    ((λ e. (Runs-waits kcp n (stop_all t) t' r refl).1), λ ne. absurd (ne tt))
Runs-Ended kcp _ _ _ (client_time n fuel clock received t t' t'' effects due h r) =
    let (_, (ends, on)) = client_time-SameTimers kcp fuel clock received t t' effects h in
    let (ends', on') = Runs-Ended kcp n t' t'' r in
    (
      (λ e. elim e [
        | inl now ↦ (Runs-waits kcp n t' t'' r (ends now)).1
        | inr later ↦ ends' later
      ]),
      λ ne. on' (λ e. ne (inr e)) ∙ on (λ e. ne (inl e)) ∙ (rehooked_lem t).0,
    )
Runs-Ended kcp _ _ _ (send_time n clock t t' due r) =
    let (ends, on) = Runs-Ended kcp n (handle_timer_send_msg clock t) t' r in
    (ends, λ ne. on ne ∙ (sent_lem clock t).0)

create-IsHooked :
    (Cb : Type 0) (target : Target) (calls : ConnectCalls) (clock size : ℕ)
    → IsHooked {Cb = Cb} (TestClient.create target calls clock size)
      × ((TestClient.create {Cb = Cb} target calls clock size).stopped ≡ false)
unfolding TestClient.create hook_client_timer hook_timer_send_msg
create-IsHooked Cb target calls clock size = ((λ e. (refl, refl)), refl)

-- The test client goes on until it is stopped and then ends. However its timers fire from its start on, whether
-- the connect has begun or not: as long as `stop_all` has not been called and no update has reported a failed
-- connect or a disconnect, it is not stopped and a wait is pending on each of its timers; and if either has
-- happened it is stopped. From a state that is stopped on, exactly as many timers have fired as are pending no
-- more, at most one of each; and the client stays stopped.
pub test_client_lem :
    (kcp : Kcp) (target : Target) (calls : ConnectCalls) (clock size n m : ℕ)
    (t t' : TestClient kcp.Cb) (r : Runs kcp n (TestClient.create target calls clock size) t)
    → Runs kcp m t t'
    → (¬ Ended r → (t.stopped ≡ false) × (t.client_timer ≡ true) × (t.client_timer_send_msg ≡ true))
      × (Ended r → t.stopped ≡ true)
      × (t.stopped ≡ true → (m + waits t' ≡ waits t) × (m ≤ 2) × (t'.stopped ≡ true))
test_client_lem kcp target calls clock size n m t t' r r' =
    let (hooked, fresh) = create-IsHooked kcp.Cb target calls clock size in
    let (ends, on) = Runs-Ended kcp n _ t r in
    (
      (λ ne.
          let u = on ne ∙ fresh in
          let (client, send) = Runs-IsHooked kcp n _ t r hooked u in (u, client, send)),
      ends,
      λ e. let (count, last) = Runs-waits kcp m t t' r' e in (count, ground arith, last),
    )
