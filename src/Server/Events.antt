-- ===== src/Server/Events.antt =====
-- Which connections the application hears of.
use asio_kcp.Prelude.{
  ℕ, ◌≤◌, ◌≡◌, ◌≢◌, inl, inr, refl, ap, Bool, true, false, not, ◌&&◌, List, [], ◌∷◌, ◌++◌, none,
  some, Option, arith, ltb, if◌then◌else◌, Bytes, Option-cases, Bool-cases, length,
}
use asio_kcp.Prelude.Maps.{Map, lookup, Entries, Entries-map, Entries-found, Entries-both}
use asio_kcp.Kcp.{Kcp}
use asio_kcp.Server.{Endpoint, Effect, send_to, event}
use asio_kcp.Server.Connection
use asio_kcp.Server.Connection.{Connection}
use asio_kcp.Server.Container
use asio_kcp.Server.Container.{Container}
use asio_kcp.Server.Manager
use asio_kcp.Server.Manager.{Manager, Outcome, Exit, returned, assert_exception, system_error}
use asio_kcp.Server.Steps
use asio_kcp.Server.Steps.{Input, udp_receive, timer, send, force_disconnect, stop}
use asio_kcp.Server.Invariant.Handlers.{same-IsValid}
use asio_kcp.Server.Invariant.Preserved.{hook_kcp_timer-keeps}
use asio_kcp.Server.Timeouts.{update_entries-cons}
use asio_kcp.Server.Invariant.{IsValid, GivenOut, find_by_conv-conv}
use asio_kcp.ConnectPacket.{is_connect_packet}

-- The callbacks among the effects name convs that satisfy `P`.
abbrev pub Names : (ℕ → Type 0) → List Effect → Type 0
Names P [] = Unit {0}
Names P (send_to ep msg ∷ es) = Names P es
Names P (event conv t msg ∷ es) = P conv × Names P es

Names-append : (P : ℕ → Type 0) (xs ys : List Effect) → Names P xs → Names P ys → Names P (xs ++ ys)
Names-append P [] ys hx hy = hy
Names-append P (send_to ep msg ∷ xs) ys hx hy = Names-append P xs ys hx hy
Names-append P (event conv t msg ∷ xs) ys hx hy = (hx.0, Names-append P xs ys hx.1 hy)

module _ {Cb : Type 0} where
  abbrev pub IsKnown : Manager Cb → ℕ → Type 0
  IsKnown m conv = Container.find_by_conv conv m.connections ≢ none

  clean-Names :
      (P : ℕ → Type 0) (manager : Option ℕ) (c : Connection Cb)
      → Names P (Connection.clean manager c)
  unfolding Connection.clean
  clean-Names P none c = tt
  clean-Names P (some now) c = tt

  clear-Names :
      (P : ℕ → Type 0) (manager : Option ℕ) (m : Map (Connection Cb))
      → Names P (Container.clear manager m)
  unfolding Container.clear
  clear-Names P manager [] = tt
  clear-Names P manager ((k, c) ∷ m) =
      Names-append P (Connection.clean manager c) (Container.clear manager m)
        (clean-Names P manager c) (clear-Names P manager m)

  destroyed-Names :
      (P : ℕ → Type 0) (manager : Option ℕ) (o : Option (Connection Cb))
      → Names P (Container.destroyed manager o)
  unfolding Container.destroyed
  destroyed-Names P manager none = tt
  destroyed-Names P manager (some c) = clean-Names P manager c

  -- Every entry of a table is known.
  Entries-IsKnown :
      (m : Manager Cb) → IsValid m → Entries (λ k c. IsKnown m c.conv) m.connections.connections
  unfolding Container.find_by_conv
  Entries-IsKnown m v =
      Entries-map
        {P = λ k c.
          GivenOut m.connections.static_cur_conv k c
          × ((1001 ≤ k) × (lookup k m.connections.connections ≡ some c))}
        (λ k c h e. cc (ap (λ j. lookup j m.connections.connections) h.0.0, h.1.1, e))
        m.connections.connections
        (Entries-both (GivenOut m.connections.static_cur_conv)
          (λ k c. (1001 ≤ k) × (lookup k m.connections.connections ≡ some c))
          m.connections.connections v.container.given_out
          (Entries-found 1001 m.connections.connections v.container.ordered))

module _ (kcp : Kcp) where
  open kcp use {Cb}

  udp_output-Names :
      (P : ℕ → Type 0) (manager : Option ℕ) (c : Connection Cb) (bufs : List Bytes)
      → Names P (Connection.udp_output kcp manager c bufs)
  unfolding Connection.udp_output
  udp_output-Names P manager c [] = tt
  udp_output-Names P none c (b ∷ bufs) = udp_output-Names P none c bufs
  udp_output-Names P (some now) c (b ∷ bufs) = udp_output-Names P (some now) c bufs

  update_entries-Names :
      (P : ℕ → Type 0) (now clock : ℕ) (m : Map (Connection Cb))
      → Entries (λ k c. P c.conv) m
      → Names P (Container.update_entries kcp (some now) clock m).1
  unfolding Connection.update_kcp Connection.do_timeout Connection.clean
  update_entries-Names P now clock [] h = unfold Container.update_entries in tt
  update_entries-Names P now clock ((k, c) ∷ m) h =
      let rest = update_entries-Names P now clock m h.1 in
      let sent = Connection.udp_output kcp (some now) c (kcp.update clock c.p_kcp).1 in
      let quiet = udp_output-Names P (some now) c (kcp.update clock c.p_kcp).1 in
      elim (Bool-cases (Connection.is_timeout (some now) c)) [
        | inl e ↦
            rw (update_entries-cons kcp now clock k c m, e)
              (Names-append P sent _ quiet (h.0, rest))
        | inr e ↦ rw (update_entries-cons kcp now clock k c m, e) (Names-append P sent _ quiet rest)
      ]

  received-Names :
      (P : ℕ → Type 0) (now conv : ℕ) (result : Option Bytes)
      → P conv
      → Names P (Connection.received kcp (some now) conv result)
  unfolding Connection.received
  received-Names P now conv none h = tt
  received-Names P now conv (some []) h = tt
  received-Names P now conv (some (b ∷ bs)) h = (h, tt)

  deliver-Names :
      (conv : ℕ) (udp_data : Bytes) (m : Manager Cb)
      → IsValid m
      → Names (IsKnown m) (Manager.deliver kcp conv udp_data m).effects
  unfolding Manager.deliver Connection.input
  deliver-Names conv udp_data m v =
      elim (Option-cases (Container.find_by_conv conv m.connections)) [
        | inl e ↦ rw (e, Manager.deliver) tt
        | inr (c, e) ↦
            let (low, high, same) = find_by_conv-conv conv m.connections v.container e in
            rw (e, Manager.deliver)
              (received-Names (IsKnown m) m.cur_clock c.conv _ (rw same (λ n. cc)))
      ]

  handle_kcp_packet-Names :
      (udp_data : Bytes) (m : Manager Cb)
      → IsValid m
      → Names (IsKnown m) (Manager.handle_kcp_packet kcp udp_data m).effects
  unfolding Manager.handle_kcp_packet
  handle_kcp_packet-Names udp_data m v = elim (Option-cases (kcp.get_conv udp_data)) [
    | inl e ↦ rw (e, Manager.handle_kcp_packet) tt
    | inr (conv, e) ↦ rw (e, Manager.handle_kcp_packet) (deliver-Names conv udp_data m v)
  ]

  handle_connect_packet-Names :
      (P : ℕ → Type 0) (m : Manager Cb) → Names P (Manager.handle_connect_packet kcp m).effects
  unfolding Manager.handle_connect_packet
  handle_connect_packet-Names P m = elim (Bool-cases m.socket_open) [
    | inl e ↦ rw (e, Manager.handle_connect_packet) (destroyed-Names P (Manager.self m) _)
    | inr e ↦ rw (e, Manager.handle_connect_packet) tt
  ]

  if-Names :
      (P : ℕ → Type 0) (b : Bool) (r r' : Outcome Cb)
      → Names P r.effects
      → Names P r'.effects
      → Names P (if b then r else r').effects
  if-Names P true r r' q q' = q
  if-Names P false r r' q q' = q'

  end_receive-effects : (r : Outcome Cb) → (Manager.end_receive kcp r).effects ≡ r.effects
  end_receive-effects r = ground arith

  handle_udp_receive_from-Names :
      (error : Bool) (ep : Endpoint) (udp_data : Bytes) (m : Manager Cb)
      → IsValid m
      → Names (IsKnown m) (Manager.handle_udp_receive_from kcp error ep udp_data m).effects
  unfolding Manager.handle_udp_receive_from
  handle_udp_receive_from-Names error ep udp_data m v =
      let m' = record m { receiving = false; udp_remote_endpoint = ep } in
      let v' = same-IsValid kcp m m' refl refl refl refl v in
      rw (end_receive-effects _) (
        if-Names (IsKnown m) (not error && ltb 0 (length udp_data)) _ _
          (if-Names (IsKnown m) (is_connect_packet udp_data) _ _
            (handle_connect_packet-Names (IsKnown m) m') (handle_kcp_packet-Names udp_data m' v'))
          tt)

  handle_kcp_time-Names :
      (clock : ℕ) (m : Manager Cb)
      → IsValid m
      → Names (IsKnown m) (Manager.handle_kcp_time kcp clock m).effects
  unfolding Manager.handle_kcp_time
  handle_kcp_time-Names clock m v =
      rw ((hook_kcp_timer-keeps kcp (record m { timing = false })).2) (
        update_entries-Names (IsKnown m) clock clock m.connections.connections
          (Entries-IsKnown m v))

  force_disconnect-Names :
      (conv : ℕ) (m : Manager Cb) → Names (IsKnown m) (Manager.force_disconnect conv m).effects
  unfolding Manager.force_disconnect
  force_disconnect-Names conv m = elim (Option-cases (Container.find_by_conv conv m.connections)) [
    | inl e ↦ rw (e, Manager.force_disconnect) tt
    | inr (c, e) ↦
        rw (e, Manager.force_disconnect) ((λ n. cc), destroyed-Names _ (Manager.self m) _)
  ]

  -- In every step of a server in a valid state, each callback to the application names a connection that the server
  -- had when the step began: no message, timeout or disconnect is reported for another conv.
  pub step-Names :
      (m : Manager Cb) (i : Input) → IsValid m → Names (IsKnown m) (Steps.step kcp m i).effects
  unfolding Steps.step
  step-Names m (udp_receive error ep udp_data) v =
      if-Names (IsKnown m) m.receiving _ _ (handle_udp_receive_from-Names error ep udp_data m v) tt
  step-Names m (timer clock) v =
      if-Names (IsKnown m) m.timing _ _ (handle_kcp_time-Names clock m v) tt
  step-Names m (send conv msg) v = tt
  step-Names m (force_disconnect conv) v = force_disconnect-Names conv m
  step-Names m stop v =
      unfold Manager.stop_all in clear-Names (IsKnown m) (Manager.self m) m.connections.connections
