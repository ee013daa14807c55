-- ===== src/MemberGroups/Refinement.antt =====
-- The groups seen from outside: which there are, and who is in which.
use asio_kcp.Prelude.{
  ℕ, ◌+◌, ◌%◌, ◌≡◌, refl, ap, Bool, true, false, List, [], ◌∷◌, Option, none, some, u32_mod, arith,
  ◌==◌, if◌then◌else◌, Option-cases, inl, inr,
}
use asio_kcp.Prelude.Maps.{
  lookup, insert, erase, Ascending, Entries, lookup-insert, lookup-erase, insert-Ascending,
  erase-Ascending, Entries-insert, Entries-erase, Entries-lookup,
}
use asio_kcp.MemberGroups.{
  Convs, MulticastManager, create, create_group, add_member_to_group, remove_member_from_group,
  delete_group, erased,
}

-- The calls that change the groups, and what they return.
pub data Call : Type 0 where
  creates : Call
  adds removes : ℕ → ℕ → Call
  deletes : ℕ → Call

pub data Answer : Type 0 where
  group_id : ℕ → Answer
  success : Bool → Answer

unfoldable pub perform : Call → MulticastManager → MulticastManager × Answer
unfolding create_group add_member_to_group remove_member_from_group delete_group
perform creates m = let (m', id) = create_group m in (m', group_id id)
perform (adds g c) m = let (m', b) = add_member_to_group g c m in (m', success b)
perform (removes g c) m = let (m', b) = remove_member_from_group g c m in (m', success b)
perform (deletes g) m = let (m', b) = delete_group g m in (m', success b)

unfoldable pub answers : MulticastManager → List Call → List Answer
unfolding perform
answers m [] = []
answers m (c ∷ cs) = let (m', a) = perform c m in a ∷ answers m' cs

-- The abstract groups: no container, two predicates and a counter.
pub record Groups : Type 0 where
  pub known : ℕ → Bool
  pub member : ℕ → ℕ → Bool
  pub next_id : ℕ

abbrev pub no_groups : Groups
no_groups = record { known = λ g. false; member = λ g c. false; next_id = 1 }

abbrev pub changed_at : ℕ → (ℕ → Bool) → Groups → Groups
changed_at g f a = record a { member = λ h c. if g == h then f c else a.member h c }

unfoldable pub specified : Call → Groups → Groups × Answer
specified creates a = (
  record {
    known = λ h. if a.next_id == h then true else a.known h;
    member = λ h c. if a.next_id == h then false else a.member h c;
    next_id = (a.next_id + 1) % u32_mod;
  },
  group_id a.next_id,
)
specified (adds g c) a =
    if a.known g
    then (changed_at g (λ d. if c == d then true else a.member g d) a, success true)
    else (a, success false)
specified (removes g c) a =
    if a.known g
    then (changed_at g (λ d. if c == d then false else a.member g d) a, success (a.member g c))
    else (a, success false)
specified (deletes g) a = (
  record a {
    known = λ h. if g == h then false else a.known h;
    member = λ h c. if g == h then false else a.member h c;
  },
  success (a.known g),
)

unfoldable pub specified_answers : Groups → List Call → List Answer
unfolding specified
specified_answers a [] = []
specified_answers a (c ∷ cs) = let (a', r) = specified c a in r ∷ specified_answers a' cs

abbrev pub contains : Option Convs → ℕ → Bool
contains none c = false
contains (some members) c = erased (lookup c members)

-- The container shows these groups. Its keys and the sets are in order.
pub record Shows (m : MulticastManager) (a : Groups) : Type 0 where
  pub ordered : Ascending 0 m.group_members
  pub sets : Entries (λ g members. Ascending 0 members) m.group_members
  pub shows_known : (g : ℕ) → erased (lookup g m.group_members) ≡ a.known g
  pub shows_member : (g c : ℕ) → contains (lookup g m.group_members) c ≡ a.member g c
  pub counts : m.next_group_id ≡ a.next_id

pub create-Shows : Shows create no_groups
unfolding create lookup
create-Shows = record {
  ordered = tt;
  sets = tt;
  shows_known = λ g. refl;
  shows_member = λ g c. refl;
  counts = refl;
}

-- A group that is written.
insert-Shows :
    (g : ℕ) (members : Convs) (m : MulticastManager) (a b : Groups)
    → Shows m a
    → Ascending 0 members
    → ((h : ℕ) → b.known h ≡ (if g == h then true else a.known h))
    → ((h c : ℕ) → b.member h c ≡ (if g == h then erased (lookup c members) else a.member h c))
    → m.next_group_id ≡ b.next_id
    → Shows (record m { group_members = insert g members m.group_members }) b
insert-Shows g members m a b s o k e n = record {
  ordered = insert-Ascending g 0 members m.group_members (omega arith) s.ordered;
  sets = Entries-insert (λ _ c. Ascending 0 c) g members m.group_members o s.sets;
  shows_known =
      λ h. ground (arith, lookup-insert g h members m.group_members, k h, s.shows_known h);
  shows_member =
      λ h c. ground (arith, lookup-insert g h members m.group_members, e h c, s.shows_member h c);
  counts = n;
}

pub found_set :
    (g : ℕ) (m : MulticastManager) (a : Groups) {members : Convs}
    → Shows m a
    → lookup g m.group_members ≡ some members
    → (a.known g ≡ true)
      × Ascending 0 members
      × ((c : ℕ) → erased (lookup c members) ≡ a.member g c)
found_set g m a s e = (
  ground (arith, s.shows_known g),
  Entries-lookup (λ _ c. Ascending 0 c) g m.group_members s.sets e,
  λ c. ground (arith, s.shows_member g c),
)

abbrev Agrees : Call → MulticastManager → Groups → Type 0
Agrees c m a = ((perform c m).1 ≡ (specified c a).1) × Shows (perform c m).0 (specified c a).0

pub unknown_set :
    (g : ℕ) (m : MulticastManager) (a : Groups)
    → Shows m a
    → lookup g m.group_members ≡ none
    → (a.known g ≡ false) × ((c : ℕ) → a.member g c ≡ false)
unknown_set g m a s e = (ground (arith, s.shows_known g), λ c. ground (arith, s.shows_member g c))

adds-Shows : (g c : ℕ) (m : MulticastManager) (a : Groups) → Shows m a → Agrees (adds g c) m a
unfolding perform specified add_member_to_group
adds-Shows g c m a s = elim (Option-cases (lookup g m.group_members)) [
  | inl e ↦ rw (e, add_member_to_group, (unknown_set g m a s e).0) (refl, s)
  | inr (members, e) ↦
      let (k, o, same) = found_set g m a s e in
      rw (e, add_member_to_group, k)
        (
          refl,
          insert-Shows g (insert c tt members) m a _ s
              (insert-Ascending c 0 tt members (omega arith) o) (λ h. ground arith)
              (λ h d. ground (arith, lookup-insert c d tt members, same d)) s.counts,
        )
]

removes-Shows : (g c : ℕ) (m : MulticastManager) (a : Groups) → Shows m a → Agrees (removes g c) m a
unfolding perform specified remove_member_from_group
removes-Shows g c m a s = elim (Option-cases (lookup g m.group_members)) [
  | inl e ↦ rw (e, remove_member_from_group, (unknown_set g m a s e).0) (refl, s)
  | inr (members, e) ↦
      let (k, o, same) = found_set g m a s e in
      rw (e, remove_member_from_group, k)
        (
          ap success (same c),
          insert-Shows g (erase c members) m a _ s (erase-Ascending c 0 members o)
              (λ h. ground arith) (λ h d. ground (arith, lookup-erase c d 0 members o, same d))
              s.counts,
        )
]

deletes-Shows : (g : ℕ) (m : MulticastManager) (a : Groups) → Shows m a → Agrees (deletes g) m a
unfolding perform specified delete_group
deletes-Shows g m a s = (
  ap success (s.shows_known g),
  record {
    ordered = erase-Ascending g 0 m.group_members s.ordered;
    sets = Entries-erase (λ _ c. Ascending 0 c) g m.group_members s.sets;
    shows_known =
        λ h. ground (arith, lookup-erase g h 0 m.group_members s.ordered, s.shows_known h);
    shows_member =
        λ h c. ground (arith, lookup-erase g h 0 m.group_members s.ordered, s.shows_member h c);
    counts = s.counts;
  },
)

creates-Shows : (m : MulticastManager) (a : Groups) → Shows m a → Agrees creates m a
unfolding perform specified create_group lookup
creates-Shows m a s = (
  ap group_id s.counts,
  record {
    ordered = insert-Ascending m.next_group_id 0 [] m.group_members (omega arith) s.ordered;
    sets = Entries-insert (λ _ c. Ascending 0 c) m.next_group_id [] m.group_members tt s.sets;
    shows_known = λ h.
        ground
          (arith, lookup-insert m.next_group_id h [] m.group_members, s.shows_known h, s.counts);
    shows_member = λ h c.
        ground
          (arith, lookup-insert m.next_group_id h [] m.group_members, s.shows_member h c, s.counts);
    counts = ap (λ n. (n + 1) % u32_mod) s.counts;
  },
)

pub perform-Shows : (c : Call) (m : MulticastManager) (a : Groups) → Shows m a → Agrees c m a
perform-Shows creates m a s = creates-Shows m a s
perform-Shows (adds g c) m a s = adds-Shows g c m a s
perform-Shows (removes g c) m a s = removes-Shows g c m a s
perform-Shows (deletes g) m a s = deletes-Shows g m a s

answers-Shows :
    (calls : List Call) (m : MulticastManager) (a : Groups)
    → Shows m a
    → answers m calls ≡ specified_answers a calls
unfolding answers specified_answers
answers-Shows [] m a s = refl
answers-Shows (c ∷ cs) m a s =
    let (e, s') = perform-Shows c m a s in ground (arith, e, answers-Shows cs _ _ s')

-- Any sequence of calls of a new multicast manager, in any order and with any arguments, gets the answers
-- that two predicates and a counter give: whether there is a group, whether a conv is a member of a group,
-- and the next identifier, which wraps. No call tells the maps and sets of the code from these.
pub groups_refinement :
    (calls : List Call) → answers create calls ≡ specified_answers no_groups calls
groups_refinement calls = answers-Shows calls create no_groups create-Shows
