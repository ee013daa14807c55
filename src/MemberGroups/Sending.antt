-- ===== src/MemberGroups/Sending.antt =====
-- Who gets a message that is sent to a group.
use asio_kcp.Prelude.{
  ℕ, suc, ◌≡◌, refl, [], ◌∷◌, Option, none, some, arith, if◌then◌else◌, Option-cases, inl, inr,
}
use asio_kcp.Prelude.Maps.{lookup, Ascending, Ascending-mono, lookup_below}
use asio_kcp.MemberGroups.{Convs, MulticastManager, erased, send_members, send_to_group}
use asio_kcp.MemberGroups.Refinement.{Groups, Shows, found_set, unknown_set}

module _ {ℓ} {A : Type ℓ} (find : ℕ → Option A) where
  send_members-Ascending :
      (n : ℕ) (members : Convs) → Ascending n members → Ascending n (send_members find members)
  unfolding send_members
  send_members-Ascending n [] s = tt
  send_members-Ascending n ((c, t) ∷ members) s = ground (
    arith,
    send_members-Ascending (suc c) members s.1,
    Ascending-mono {a = n} {b = suc c} (send_members find members),
  )

  lookup-send_members :
      (n conv : ℕ) (members : Convs)
      → Ascending n members
      → lookup conv (send_members find members)
        ≡ (if erased (lookup conv members) then find conv else none)
  unfolding send_members lookup
  lookup-send_members n conv [] s = refl
  lookup-send_members n conv ((c, t) ∷ members) s =
      ground
        (arith, lookup-send_members (suc c) conv members s.1, lookup_below conv (suc c) members)

  -- A message to a group goes to the connections of its members that the connection manager finds, and to no
  -- other; to each of them once, in the order of the convs; and to nobody if the connection manager is gone.
  pub send_to_group_lem :
      (g : ℕ) (m : MulticastManager) (a : Groups)
      → Shows m a
      → let sent = send_to_group (some find) g m in
        ((conv : ℕ) → lookup conv sent ≡ (if a.member g conv then find conv else none))
        × Ascending 0 sent
        × (send_to_group {A = A} none g m ≡ [])
  unfolding send_to_group lookup
  send_to_group_lem g m a s = elim (Option-cases (lookup g m.group_members)) [
    | inl e ↦
        rw (e, send_to_group) ((λ conv. ground (arith, (unknown_set g m a s e).1 conv)), tt, refl)
    | inr (members, e) ↦
        let (k, o, same) = found_set g m a s e in
        rw (e, send_to_group)
          (
            (λ conv. ground (arith, lookup-send_members 0 conv members o, same conv)),
            send_members-Ascending 0 members o,
            refl,
          )
  ]
