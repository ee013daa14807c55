-- ===== src/Server/Calls.antt =====
-- The calls of the application, and the convs that the server gives out.
use asio_kcp.Prelude.{
  ℕ, zero, suc, ◌+◌, ◌%◌, ◌<◌, ◌≡◌, ◌⊎◌, inl, inr, refl, ap, List, [], ◌∷◌, none, some, Option,
  arith, u32_mod, ◌==◌, if◌then◌else◌, Bytes, Option-cases, codes,
}
use asio_kcp.Prelude.Maps.{lookup, lookup-erase}
use asio_kcp.Kcp.{Kcp}
use asio_kcp.Server.{Effect, send_to, event, disconnect}
use asio_kcp.Server.Connection
use asio_kcp.Server.Connection.{Connection}
use asio_kcp.Server.Container
use asio_kcp.Server.Container.{Container}
use asio_kcp.Server.Manager
use asio_kcp.Server.Manager.{Manager, Outcome, Exit, returned, assert_exception, system_error}
use asio_kcp.Server.Routing.{put-find_by_conv}
use asio_kcp.Server.Invariant.{IsValid, find_by_conv-conv}
use asio_kcp.ConnectPacket.{making_disconnect_packet}
use asio_kcp.Prelude.Int.{pos, negsuc}

module _ {Cb : Type 0} where
  -- What is sent on behalf of a connection that is thrown out.
  abbrev pub goodbye : ℕ → Option (Connection Cb) → List Effect
  goodbye conv none = []
  goodbye conv (some c) =
      event conv disconnect (codes "server force disconnect")
      ∷ send_to c.udp_remote_endpoint (making_disconnect_packet conv)
      ∷ []

  destroyed_found :
      (now conv : ℕ) (o : Option (Connection Cb)) {c : Connection Cb}
      → o ≡ some c
      → c.conv ≡ conv
      → Container.destroyed (some now) o
        ≡ send_to c.udp_remote_endpoint (making_disconnect_packet conv) ∷ []
  unfolding Container.destroyed Connection.clean
  destroyed_found now conv o e same = ground arith

  -- In a valid state, `force_disconnect` removes the connection with the given conv and no other; if there is one, the
  -- application is told, and then the client by a disconnect packet with this conv; else nothing happens.
  pub force_disconnect_lem :
      (conv : ℕ) (m : Manager Cb)
      → IsValid m
      → let r = Manager.force_disconnect conv m in
        ((j : ℕ)
          → Container.find_by_conv j r.manager.connections
            ≡ (if conv == j then none else Container.find_by_conv j m.connections))
        × (r.effects ≡ goodbye conv (Container.find_by_conv conv m.connections))
  unfolding Manager.force_disconnect Container.find_by_conv Connection.clean
  force_disconnect_lem conv m v = elim (Option-cases (Container.find_by_conv conv m.connections)) [
    | inl e ↦ rw (e, Manager.force_disconnect) ((λ j. ground arith), refl)
    | inr (c, e) ↦
        let (low, high, same) = find_by_conv-conv conv m.connections v.container e in
        rw (e, Manager.force_disconnect)
          (
            (λ j. lookup-erase conv j 1001 m.connections.connections v.container.ordered),
            ap (◌∷◌ (event conv disconnect (codes "server force disconnect")))
                (destroyed_found m.cur_clock conv (lookup conv m.connections.connections) e same),
          )
  ]

module _ (Cb : Type 0) where
  -- A new container after `n` calls of `get_new_conv`.
  pub after_calls : ℕ → Container Cb
  unfolding Container.empty Container.get_new_conv
  after_calls zero = Container.empty
  after_calls (suc n) = (Container.get_new_conv (after_calls n)).0

  after_calls-conv : (n : ℕ) → (after_calls n).static_cur_conv ≡ (1000 + n) % u32_mod
  unfolding after_calls
  after_calls-conv zero = refl
  after_calls-conv (suc n) = ground (arith, after_calls-conv n)

  -- The `n`-th call returns 1000 + n as long as that is below 2^32: so the first convs are above 1000 and
  -- differ from one another. The call after the last of these returns 0, and a later one a conv that has
  -- been given out before.
  pub get_new_conv_lem :
      (n : ℕ)
      → (1000 + suc n < u32_mod → (Container.get_new_conv (after_calls n)).1 ≡ 1000 + suc n)
        × (1000 + suc n ≡ u32_mod → (Container.get_new_conv (after_calls n)).1 ≡ 0)
        × ((Container.get_new_conv (after_calls (n + u32_mod))).1
            ≡ (Container.get_new_conv (after_calls n)).1)
  unfolding Container.get_new_conv
  get_new_conv_lem n = omega (arith, after_calls-conv n, after_calls-conv (n + u32_mod))

module _ (kcp : Kcp) where
  open kcp use {Cb}

  -- `send_msg` returns -1 if and only if no connection has the conv; it hands the message to KCP for the
  -- connection with this conv and changes no other, and nothing is sent at once.
  pub send_msg_lem :
      (conv : ℕ) (msg : Bytes) (m : Manager Cb)
      → let (m', result) = Manager.send_msg kcp conv msg m in
        ((Container.find_by_conv conv m.connections ≡ none) × (result ≡ negsuc 0) × (m' ≡ m))
        ⊎ ((c : Connection Cb) × (Container.find_by_conv conv m.connections ≡ some c)
            × (result ≡ pos 0)
            × ((j : ℕ)
                → Container.find_by_conv j m'.connections ≡ (
                    if conv == j
                    then some (record c { p_kcp = (kcp.send msg c.p_kcp).0 })
                    else Container.find_by_conv j m.connections)))
  unfolding Manager.send_msg Connection.send_kcp_msg
  send_msg_lem conv msg m = elim (Option-cases (Container.find_by_conv conv m.connections)) [
    | inl e ↦ rw (e, Manager.send_msg) (inl (refl, refl, refl))
    | inr (c, e) ↦
        rw (e, Manager.send_msg) (inr (c, refl, refl, λ j. put-find_by_conv kcp conv j _ m))
  ]
