-- ===== src/Server/Timeouts.antt =====
-- The timer: which connections it removes, and what it tells the application and the clients.
use asio_kcp.Prelude.{
  ℕ, suc, ◌+◌, ◌%◌, ◌<◌, ◌≡◌, inl, inr, refl, ap, ◌∙◌, false, List, [], ◌∷◌, ◌++◌, none, some,
  Option, arith, u32_mod, ltb, if◌then◌else◌, Bytes, Bool-cases, codes, append_assoc, map,
}
use asio_kcp.Prelude.Maps.{Map, lookup, lookup_below, Ascending}
use asio_kcp.ConnectPacket.{making_disconnect_packet}
use asio_kcp.Kcp.{Kcp}
use asio_kcp.Server.{Effect, send_to, event, disconnect}
use asio_kcp.Server.Connection
use asio_kcp.Server.Connection.{Connection}
use asio_kcp.Server.Container
use asio_kcp.Server.Container.{Container}
use asio_kcp.Server.Manager
use asio_kcp.Server.Manager.{Manager, Outcome, Exit, returned, assert_exception, system_error}
use asio_kcp.Server.Steps
use asio_kcp.Server.Steps.{Input, udp_receive, timer, send, force_disconnect, stop}
use asio_kcp.Server.Invariant.Preserved.{hook_kcp_timer-keeps, handle_kcp_time-IsValid}
use asio_kcp.Server.Invariant.{IsValid}

-- The connections that effects report as lost, in their order.
pub disconnected : List Effect → List ℕ
disconnected [] = []
disconnected (send_to ep msg ∷ es) = disconnected es
disconnected (event conv disconnect msg ∷ es) = conv ∷ disconnected es
disconnected (event conv _ msg ∷ es) = disconnected es

disconnected-append :
    (xs ys : List Effect) → disconnected (xs ++ ys) ≡ disconnected xs ++ disconnected ys
unfolding disconnected
disconnected-append [] ys = refl
disconnected-append (send_to ep msg ∷ es) ys = disconnected-append es ys
disconnected-append (event conv disconnect msg ∷ es) ys = ap (◌∷◌ conv) (disconnected-append es ys)
disconnected-append (event conv _ msg ∷ es) ys = disconnected-append es ys

-- A connection whose last packet came at the time `t` of a 32-bit clock has timed out when more than ten
-- seconds have gone by, also when the clock has wrapped around in between.
pub is_timeout_elapsed :
    {Cb : Type 0} (c : Connection Cb) (elapsed : ℕ)
    → 0 < c.last_packet_recv_time
    → c.last_packet_recv_time < u32_mod
    → elapsed < u32_mod
    → Connection.is_timeout (some ((c.last_packet_recv_time + elapsed) % u32_mod)) c
      ≡ ltb 10000 elapsed
unfolding Connection.is_timeout
is_timeout_elapsed c elapsed low high short = ground arith

module _ (kcp : Kcp) where
  open kcp use {Cb}

  -- What the loop makes of an entry.
  abbrev pub updated : Option ℕ → ℕ → Connection Cb → Connection Cb
  updated manager clock c = (Connection.update_kcp kcp manager clock c).0

  abbrev pub kept : Option ℕ → ℕ → Option (Connection Cb) → Option (Connection Cb)
  kept manager clock none = none
  kept manager clock (some c) =
      if Connection.is_timeout manager (updated manager clock c)
      then none
      else some (updated manager clock c)

  -- The convs of the connections that have timed out.
  abbrev pub timed_out : Option ℕ → Map (Connection Cb) → List ℕ
  timed_out manager [] = []
  timed_out manager ((k, c) ∷ m) =
      if Connection.is_timeout manager c then c.conv ∷ timed_out manager m else timed_out manager m

  update_entries-lookup :
      (manager : Option ℕ) (clock j n : ℕ) (m : Map (Connection Cb))
      → Ascending n m
      → lookup j (Container.update_entries kcp manager clock m).0 ≡ kept manager clock (lookup j m)
  unfolding Container.update_entries lookup
  update_entries-lookup manager clock j n [] s = refl
  update_entries-lookup manager clock j n ((k, c) ∷ m) s =
      ground (arith, update_entries-lookup manager clock j (suc k) m s.1, lookup_below j (suc k) m)

  disconnected-udp_output :
      (manager : Option ℕ) (c : Connection Cb) (bufs : List Bytes)
      → disconnected (Connection.udp_output kcp manager c bufs) ≡ []
  unfolding Connection.udp_output disconnected
  disconnected-udp_output manager c [] = refl
  disconnected-udp_output none c (b ∷ bufs) = disconnected-udp_output none c bufs
  disconnected-udp_output (some clock) c (b ∷ bufs) = disconnected-udp_output (some clock) c bufs

  pub update_entries-cons :
      (now clock k : ℕ) (c : Connection Cb) (m : Map (Connection Cb))
      → (Container.update_entries kcp (some now) clock ((k, c) ∷ m)).1
        ≡ (Connection.update_kcp kcp (some now) clock c).1
          ++ ((if Connection.is_timeout (some now) c
                then Connection.do_timeout (some now) c ++ Connection.clean (some now) c
                else [])
              ++ (Container.update_entries kcp (some now) clock m).1)
  unfolding Container.update_entries Connection.update_kcp Connection.do_timeout Connection.clean
      Connection.is_timeout
  update_entries-cons now clock k c m =
      let sent = Connection.udp_output kcp (some now) c (kcp.update clock c.p_kcp).1 in
      let rest = (Container.update_entries kcp (some now) clock m).1 in
      let lost = event c.conv disconnect (codes "timeout") in
      let bye = send_to c.udp_remote_endpoint (making_disconnect_packet c.conv) in
      ground
        (arith, append_assoc sent (lost ∷ []) (bye ∷ []), append_assoc sent (lost ∷ bye ∷ []) rest)

  disconnected-update_entries :
      (now clock : ℕ) (m : Map (Connection Cb))
      → disconnected (Container.update_entries kcp (some now) clock m).1 ≡ timed_out (some now) m
  unfolding Connection.update_kcp Connection.do_timeout Connection.clean disconnected
  disconnected-update_entries now clock [] = unfold Container.update_entries in refl
  disconnected-update_entries now clock ((k, c) ∷ m) =
      let sent = Connection.udp_output kcp (some now) c (kcp.update clock c.p_kcp).1 in
      elim (Bool-cases (Connection.is_timeout (some now) c)) [
        | inl e ↦
            rw
              (
                update_entries-cons,
                disconnected-append sent,
                disconnected-udp_output (some now) c,
                e,
              )
              (ap (◌∷◌ c.conv) (disconnected-update_entries now clock m))
        | inr e ↦
            rw
              (
                update_entries-cons,
                disconnected-append sent,
                disconnected-udp_output (some now) c,
                e,
              )
              (disconnected-update_entries now clock m)
      ]

  -- After the timer of a server in a valid state has fired, a connection is there if and only if it was there and has not timed out,
  -- and then it is what `ikcp_update` made of it; the application is told `eDisconnect` once for each
  -- connection that has timed out, and for no other.
  pub handle_kcp_time_lem :
      (clock : ℕ) (m : Manager Cb)
      → IsValid m
      → let r = Manager.handle_kcp_time kcp clock m in
        ((j : ℕ)
          → Container.find_by_conv j r.manager.connections
            ≡ kept (some clock) clock (Container.find_by_conv j m.connections))
        × (disconnected r.effects ≡ timed_out (some clock) m.connections.connections)
  unfolding Manager.handle_kcp_time Container.find_by_conv
  handle_kcp_time_lem clock m v = rw ((hook_kcp_timer-keeps kcp (record m { timing = false })).2) (
    λ j.
        update_entries-lookup (some clock) clock j 1001 m.connections.connections
          v.container.ordered,
    disconnected-update_entries clock clock m.connections.connections,
  )

  silent_step :
      (conv clock : ℕ) (m : Manager Cb) {c : Connection Cb}
      → IsValid m
      → Container.find_by_conv conv m.connections ≡ some c
      → c.last_packet_recv_time ≡ 0
      → IsValid (Steps.step kcp m (timer clock)).manager
        × ((c' : Connection Cb) × (Container.find_by_conv conv
                (Steps.step kcp m (timer clock)).manager.connections
              ≡ some c')
            × (c'.last_packet_recv_time ≡ 0))
  unfolding Steps.step Connection.update_kcp Connection.is_timeout
  silent_step conv clock m {c} v e z = elim (Bool-cases m.timing) [
    | inl on ↦ simp on (
      handle_kcp_time-IsValid kcp clock m v,
      (updated (some clock) clock c, (handle_kcp_time_lem clock m v).0 conv ∙ ground arith, z),
    )
    | inr off ↦ simp off (v, (c, e, z))
  ]

  -- In a valid state, a connection from which no packet has come is not removed by any firing of the timer, however late:
  -- its `last_packet_recv_time_` is 0, which `is_timeout` takes for "not yet".
  pub silent_connection_stays :
      (conv : ℕ) (clocks : List ℕ) (m : Manager Cb) {c : Connection Cb}
      → IsValid m
      → Container.find_by_conv conv m.connections ≡ some c
      → c.last_packet_recv_time ≡ 0
      → (c' : Connection Cb) × (Container.find_by_conv conv
            (Steps.run kcp m (map timer clocks)).0.connections
          ≡ some c')
        × (c'.last_packet_recv_time ≡ 0)
  unfolding Steps.run
  silent_connection_stays conv [] m {c} v e z = (c, e, z)
  silent_connection_stays conv (clock ∷ clocks) m {c} v e z =
      let (v', (c', e', z')) = silent_step conv clock m v e z in
      silent_connection_stays conv clocks (Steps.step kcp m (timer clock)).manager v' e' z'
