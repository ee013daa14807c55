-- ===== src/Server/Invariant.antt =====
-- What every handler keeps: the connections stand under their own convs, all of which were given out
-- by `get_new_conv`, and a server that has stopped has none.
pub mod Handlers
pub mod Preserved
use asio_kcp.Prelude.{
  sym, if◌then◌else◌, not, ◌&&◌, ltb, length, ap, ◌∙◌, ◌%◌, Bool-cases, ℕ, suc, ◌+◌, ◌<◌, ◌≤◌, ◌≡◌,
  refl, Bool, true, false, List, [], ◌∷◌, Option, none, some, Bytes, arith, u32_mod, Option-cases,
  inl, inr,
}
use asio_kcp.Prelude.Maps.{
  Map, lookup, insert, erase, Ascending, Entries, insert-Ascending, erase-Ascending, Entries-insert,
  Entries-erase, Entries-lookup, Ascending-mono, le_of_lookup,
}
use asio_kcp.Kcp.{Kcp}
use asio_kcp.Server.{Endpoint}
use asio_kcp.Server.Connection
use asio_kcp.Server.Connection.{Connection}
use asio_kcp.Server.Container
use asio_kcp.Server.Container.{Container}
use asio_kcp.Server.Manager
use asio_kcp.Server.Manager.{Manager, Outcome, Exit, returned, assert_exception, system_error}
use asio_kcp.ConnectPacket.{is_connect_packet}
use asio_kcp.Server.Steps
use asio_kcp.Server.Steps.{Input, udp_receive, timer, send, force_disconnect, stop}

module _ {Cb : Type 0} where
  -- An entry's connection has the key for its conv, and the key has been given out.
  abbrev pub GivenOut : ℕ → ℕ → Connection Cb → Type 0
  GivenOut last k c = (c.conv ≡ k) × (k ≤ last)

  pub record ContainerIsValid (s : Container Cb) : Type 0 where
    pub ordered : Ascending 1001 s.connections
    pub given_out : Entries (GivenOut s.static_cur_conv) s.connections
    pub above : 1000 ≤ s.static_cur_conv

  pub record IsValid (m : Manager Cb) : Type 0 where
    pub container : ContainerIsValid m.connections
    pub stopped_empty : m.stopped ≡ true → m.connections.connections ≡ []
    pub closed : m.socket_open ≡ true → m.stopped ≡ false
    pub timed : m.stopped ≡ false → m.timing ≡ true

  pub Entries-later :
      (a b : ℕ) (m : Map (Connection Cb)) → a ≤ b → Entries (GivenOut a) m → Entries (GivenOut b) m
  Entries-later a b [] h e = e
  Entries-later a b ((k, c) ∷ m) h e = ((e.0.0, omega arith), Entries-later a b m h e.1)

  pub start-IsValid : IsValid (Manager.start {Cb = Cb})
  unfolding Manager.start
  start-IsValid = ground arith

  pub insert-IsValid :
      (k : ℕ) (c : Connection Cb) (s : Container Cb)
      → 1001 ≤ k
      → k ≤ s.static_cur_conv
      → c.conv ≡ k
      → ContainerIsValid s
      → ContainerIsValid (record s { connections = insert k c s.connections })
  insert-IsValid k c s low high e v = record {
    ordered = insert-Ascending k 1001 c s.connections low v.ordered;
    given_out = Entries-insert (GivenOut s.static_cur_conv) k c s.connections (e, high) v.given_out;
    above = v.above;
  }

  pub erase-IsValid :
      (k : ℕ) (s : Container Cb)
      → ContainerIsValid s
      → ContainerIsValid (record s { connections = erase k s.connections })
  erase-IsValid k s v = record {
    ordered = erase-Ascending k 1001 s.connections v.ordered;
    given_out = Entries-erase (GivenOut s.static_cur_conv) k s.connections v.given_out;
    above = v.above;
  }

  -- What `find_by_conv` finds has the conv that was asked for.
  pub find_by_conv-conv :
      (k : ℕ) (s : Container Cb) {c : Connection Cb}
      → ContainerIsValid s
      → Container.find_by_conv k s ≡ some c
      → (1001 ≤ k) × (k ≤ s.static_cur_conv) × (c.conv ≡ k)
  unfolding Container.find_by_conv
  find_by_conv-conv k s {c} v e =
      let (same, high) =
        Entries-lookup (GivenOut s.static_cur_conv) k s.connections v.given_out e in
      (le_of_lookup k 1001 s.connections v.ordered e, high, same)

module _ (kcp : Kcp) where
  open kcp use {Cb}

  update_entries-Ascending :
      (manager : Option ℕ) (clock n : ℕ) (m : Map (Connection Cb))
      → Ascending n m
      → Ascending n (Container.update_entries kcp manager clock m).0
  unfolding Container.update_entries
  update_entries-Ascending manager clock n [] s = s
  update_entries-Ascending manager clock n ((k, c) ∷ m) s = ground (
    arith,
    update_entries-Ascending manager clock (suc k) m s.1,
    Ascending-mono {a = n} {b = suc k} (Container.update_entries kcp manager clock m).0,
  )

  update_entries-GivenOut :
      (manager : Option ℕ) (clock last : ℕ) (m : Map (Connection Cb))
      → Entries (GivenOut last) m
      → Entries (GivenOut last) (Container.update_entries kcp manager clock m).0
  unfolding Container.update_entries Connection.update_kcp
  update_entries-GivenOut manager clock last [] h = h
  update_entries-GivenOut manager clock last ((k, c) ∷ m) h =
      ground (arith, update_entries-GivenOut manager clock last m h.1)

  pub update_all_kcp-IsValid :
      (manager : Option ℕ) (clock : ℕ) (s : Container Cb)
      → ContainerIsValid s
      → ContainerIsValid (Container.update_all_kcp kcp manager clock s).0
  unfolding Container.update_all_kcp
  update_all_kcp-IsValid manager clock s v = record {
    ordered = update_entries-Ascending manager clock 1001 s.connections v.ordered;
    given_out = update_entries-GivenOut manager clock s.static_cur_conv s.connections v.given_out;
    above = v.above;
  }
