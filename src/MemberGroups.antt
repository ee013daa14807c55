-- ===== src/MemberGroups.antt =====
-- server_lib/multicast_manager.cpp: groups of connections by their convs. The class `ConnectionManager`
-- that it asks for a connection is not in the repository: what the weak pointer to it gives is an argument,
-- `none` where it has expired. A call holds the mutex.
pub mod Refinement
pub mod Sending
use asio_kcp.Prelude.{ℕ, ◌+◌, ◌%◌, Bool, true, false, List, [], ◌∷◌, Option, none, some, u32_mod}
use asio_kcp.Prelude.Maps.{Map, lookup, insert, erase}

-- `std::set<kcp_conv_t>`.
abbrev pub Convs : Type 0
Convs = Map (Unit {0})

pub record MulticastManager : Type 0 where
  pub group_members : Map Convs
  pub next_group_id : ℕ

unfoldable pub create : MulticastManager
create = record { group_members = []; next_group_id = 1 }

unfoldable pub create_group : MulticastManager → MulticastManager × ℕ
create_group m =
    let group_id = m.next_group_id in
    (
      record {
        group_members = insert group_id [] m.group_members;
        next_group_id = (group_id + 1) % u32_mod;
      },
      group_id,
    )

unfoldable pub add_member_to_group : ℕ → ℕ → MulticastManager → MulticastManager × Bool
add_member_to_group group_id conv m = elim (lookup group_id m.group_members) [
  | none ↦ (m, false)
  | some members ↦
      (record m { group_members = insert group_id (insert conv tt members) m.group_members }, true)
]

-- `std::set::erase`, and whether there was something to erase.
abbrev pub erased {ℓ} : {A : Type ℓ} → Option A → Bool
erased none = false
erased (some a) = true

unfoldable pub remove_member_from_group : ℕ → ℕ → MulticastManager → MulticastManager × Bool
remove_member_from_group group_id conv m = elim (lookup group_id m.group_members) [
  | none ↦ (m, false)
  | some members ↦ (
    record m { group_members = insert group_id (erase conv members) m.group_members },
    erased (lookup conv members),
  )
]

unfoldable pub delete_group : ℕ → MulticastManager → MulticastManager × Bool
delete_group group_id m = (
  record m { group_members = erase group_id m.group_members },
  erased (lookup group_id m.group_members),
)

module _ {ℓ} {A : Type ℓ} where
  -- The connections that the message is sent to, under their convs, in the order of the sends.
  unfoldable pub send_members : (ℕ → Option A) → Convs → List (ℕ × A)
  send_members get_connection_by_conv [] = []
  send_members get_connection_by_conv ((conv, t) ∷ members) = elim (get_connection_by_conv conv) [
    | none ↦ send_members get_connection_by_conv members
    | some conn ↦ (conv, conn) ∷ send_members get_connection_by_conv members
  ]

  unfoldable pub send_to_group : Option (ℕ → Option A) → ℕ → MulticastManager → List (ℕ × A)
  unfolding send_members
  send_to_group conn_mgr group_id m = elim (lookup group_id m.group_members) [
    | none ↦ []
    | some members ↦ elim conn_mgr [
      | none ↦ []
      | some get_connection_by_conv ↦ send_members get_connection_by_conv members
    ]
  ]
