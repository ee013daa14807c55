-- ===== src/UdpMulticast/Groups.antt =====
-- The groups of the server and their ids.
use asio_kcp.Prelude.{
  ℕ, ◌+◌, ◌%◌, ◌<◌, ◌≤◌, ◌≡◌, ◌⊎◌, refl, true, false, [], Option, none, some, Bytes, arith, u32_mod,
  ◌==◌, ==_iff, if◌then◌else◌, Bool-cases, Option-cases, inl, inr,
}
use asio_kcp.Prelude.Maps.{
  lookup, insert, Ascending, Entries, lookup-insert, lookup-erase, insert-Ascending,
  erase-Ascending, Entries-insert, Entries-erase, Entries-lookup, Entries-map,
}
use asio_kcp.Server.{Endpoint}
use asio_kcp.UdpMulticast.{
  MulticastGroup, UdpMulticastManager, chosen, init_group_socket, create_group, delete_group,
}

-- The groups stand under ids that have been given out, from 1 on.
pub record IsNumbered (m : UdpMulticastManager) : Type 0 where
  pub ordered : Ascending 1 m.groups
  pub given_out : Entries (λ k group. k < m.next_group_id) m.groups
  pub first : 1 ≤ m.next_group_id

-- A group that has just been made.
pub record IsNew (group : MulticastGroup) : Type 0 where
  pub numbered : group.next_seq ≡ 0
  pub nothing_sent : group.sent_msgs ≡ []

next_unused : (m : UdpMulticastManager) → IsNumbered m → lookup m.next_group_id m.groups ≡ none
next_unused m v = elim (Option-cases (lookup m.next_group_id m.groups)) [
  | inl e ↦ e
  | inr (group, e) ↦ absurd (
      omega (
        arith,
        Entries-lookup (λ k group. k < m.next_group_id) m.next_group_id m.groups v.given_out e,
      ))
]

-- The ids that have been given out, when one more is taken.
one_more :
    (m : UdpMulticastManager)
    → m.next_group_id + 1 < u32_mod
    → Entries (λ k group. k < m.next_group_id) m.groups
    → Entries (λ k group. k < (m.next_group_id + 1) % u32_mod) m.groups
one_more m few = Entries-map (λ k group h. omega (arith, few, h)) m.groups

-- What a call of `create_group` may do.
abbrev pub Creates : UdpMulticastManager → UdpMulticastManager × ℕ → Type 0
Creates m (m', id) =
    IsNumbered m'
    × (((id ≡ 0) × (m'.groups ≡ m.groups))
        ⊎ ((group : MulticastGroup) × ((id ≡ m.next_group_id)
              × (1 ≤ id)
              × (lookup id m.groups ≡ none)
              × IsNew group
              × ((j : ℕ)
                  → lookup j m'.groups ≡ (if id == j then some group else lookup j m.groups)))))

creates :
    (m : UdpMulticastManager) (o : Option MulticastGroup)
    → ((group : MulticastGroup) → o ≡ some group → IsNew group)
    → m.next_group_id + 1 < u32_mod
    → IsNumbered m
    → let m' = record m { next_group_id = (m.next_group_id + 1) % u32_mod } in
      Creates m (elim o as (λ _. UdpMulticastManager × ℕ) [
        | none ↦ (m', 0)
        | some group ↦
            (record m' { groups = insert m.next_group_id group m.groups }, m.next_group_id)
      ])
creates m none new few v = (
  record {
    ordered = v.ordered;
    given_out = one_more m few v.given_out;
    first = omega (arith, few);
  },
  inl (refl, refl),
)
creates m (some group) new few v = (
  record {
    ordered = insert-Ascending m.next_group_id 1 group m.groups v.first v.ordered;
    given_out =
        Entries-insert (λ k g. k < (m.next_group_id + 1) % u32_mod) m.next_group_id group m.groups
          (omega (arith, few)) (one_more m few v.given_out);
    first = omega (arith, few);
  },
  inr (
    group,
    (
      refl,
      v.first,
      next_unused m v,
      new group refl,
      λ j. lookup-insert m.next_group_id j group m.groups,
    ),
  ),
)

module _ (open_socket : Bytes → ℕ → Option Endpoint) where
  init_group_socket-IsNew :
      (addr : Bytes) (port : ℕ) (group : MulticastGroup)
      → init_group_socket open_socket addr port ≡ some group
      → IsNew group
  unfolding init_group_socket
  init_group_socket-IsNew addr port group e = elim (Option-cases (open_socket addr port)) [
    | inl n ↦ ground (arith, n)
    | inr (ep, n) ↦ ground (arith, n)
  ]

  -- While an id is left to give out and the groups stand under given-out ids, `create_group` gives the new group an id that no group has or had, and
  -- not 0; the group has sent nothing, and the other groups are as they were. Where the socket cannot be
  -- opened it returns 0 and there is no new group. The groups stay under ids that have been given out.
  pub create_group_lem :
      (addr : Bytes) (port : ℕ) (random : Bytes × ℕ) (m : UdpMulticastManager)
      → m.next_group_id + 1 < u32_mod
      → IsNumbered m
      → Creates m (create_group open_socket addr port random m)
  unfolding create_group init_group_socket
  create_group_lem addr port random m few v =
      creates m
        (init_group_socket open_socket (chosen addr port random).0 (chosen addr port random).1)
        (init_group_socket-IsNew (chosen addr port random).0 (chosen addr port random).1) few v

missing :
    (id j : ℕ) (m : UdpMulticastManager)
    → lookup id m.groups ≡ none
    → lookup j m.groups ≡ (if id == j then none else lookup j m.groups)
missing id j m e = elim (Bool-cases (id == j)) [
  | inl t ↦ let same : id ≡ j = (==_iff id j).0 t in rw t (rw⁻¹ same e)
  | inr f ↦ rw f refl
]

-- Where the groups stand under given-out ids, `delete_group` removes the group with the given id and no other, and tells whether there was one.
pub delete_group_lem :
    (id : ℕ) (m : UdpMulticastManager)
    → IsNumbered m
    → let (m', done) = delete_group id m in
      IsNumbered m'
      × ((done ≡ false → lookup id m.groups ≡ none)
          × (done ≡ true → (group : MulticastGroup) × (lookup id m.groups ≡ some group)))
      × ((j : ℕ) → lookup j m'.groups ≡ (if id == j then none else lookup j m.groups))
unfolding delete_group
delete_group_lem id m v = elim (Option-cases (lookup id m.groups)) [
  | inl e ↦ rw (delete_group, e) (v, (λ _. refl, λ h. cc), λ j. missing id j m e)
  | inr (group, e) ↦
      rw (delete_group, e)
        (
          record {
            ordered = erase-Ascending id 1 m.groups v.ordered;
            given_out = Entries-erase (λ k g. k < m.next_group_id) id m.groups v.given_out;
            first = v.first;
          },
          (λ h. cc, λ _. (group, refl)),
          λ j. lookup-erase id j 1 m.groups v.ordered,
        )
]
