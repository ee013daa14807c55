-- ===== src/Server/Container.antt =====
-- server_lib/connection_container.cpp: the connections by conv. `std::unordered_map` runs through its
-- entries in an order of its own; the model's is that of the keys.
use asio_kcp.Prelude.{ℕ, ◌+◌, ◌%◌, List, [], ◌∷◌, ◌++◌, Option, none, some, u32_mod, if◌then◌else◌}
use asio_kcp.Prelude.Maps.{Map, lookup, insert, erase}
use asio_kcp.Kcp.{Kcp}
use asio_kcp.Server.{Endpoint, Effect}
use asio_kcp.Server.Connection
use asio_kcp.Server.Connection.{Connection, clean, is_timeout, do_timeout, update_kcp}

-- `static_cur_conv` is a static variable of `get_new_conv`.
pub record Container (Cb : Type 0) : Type 0 where
  pub connections : Map (Connection Cb)
  pub static_cur_conv : ℕ

module _ {Cb : Type 0} where
  unfoldable pub empty : Container Cb
  empty = record { connections = []; static_cur_conv = 1000 }

  unfoldable pub find_by_conv : ℕ → Container Cb → Option (Connection Cb)
  find_by_conv conv s = lookup conv s.connections

  -- The last shared pointer to an entry is the container's.
  unfoldable pub destroyed : Option ℕ → Option (Connection Cb) → List Effect
  destroyed manager none = []
  destroyed manager (some c) = clean manager c

  unfoldable pub clear : Option ℕ → Map (Connection Cb) → List Effect
  clear manager [] = []
  clear manager ((k, c) ∷ m) = clean manager c ++ clear manager m

  unfoldable pub stop_all : Option ℕ → Container Cb → Container Cb × List Effect
  unfolding clear
  stop_all manager s = (record s { connections = [] }, clear manager s.connections)

  unfoldable pub remove_connection : Option ℕ → ℕ → Container Cb → Container Cb × List Effect
  unfolding destroyed
  remove_connection manager conv s = (
    record s { connections = erase conv s.connections },
    destroyed manager (lookup conv s.connections),
  )

  unfoldable pub get_new_conv : Container Cb → Container Cb × ℕ
  get_new_conv s =
      let conv = (s.static_cur_conv + 1) % u32_mod in (record s { static_cur_conv = conv }, conv)

module _ (kcp : Kcp) where
  open kcp use {Cb}

  -- The loop: an entry is updated, and erased if it has timed out.
  unfoldable pub update_entries :
      Option ℕ → ℕ → Map (Connection Cb) → Map (Connection Cb) × List Effect
  update_entries manager clock [] = ([], [])
  update_entries manager clock ((k, c) ∷ m) =
      let (c', sent) = update_kcp kcp manager clock c in
      let (rest, effects) = update_entries manager clock m in
      if is_timeout manager c'
      then (rest, sent ++ do_timeout manager c' ++ clean manager c' ++ effects)
      else ((k, c') ∷ rest, sent ++ effects)

  unfoldable pub update_all_kcp : Option ℕ → ℕ → Container Cb → Container Cb × List Effect
  unfolding update_entries
  update_all_kcp manager clock s =
      let (m, effects) = update_entries manager clock s.connections in
      (record s { connections = m }, effects)

  -- An entry that the new one replaces is destroyed.
  unfoldable pub add_new_connection :
      Option ℕ → ℕ → Endpoint → Container Cb → Container Cb × List Effect
  unfolding destroyed
  add_new_connection manager conv ep s = (
    record s { connections = insert conv (Connection.create kcp conv ep) s.connections },
    destroyed manager (lookup conv s.connections),
  )
