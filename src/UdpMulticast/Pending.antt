-- ===== src/UdpMulticast/Pending.antt =====
-- The messages of a group that await an acknowledgement, against the history of the calls.
use asio_kcp.Prelude.{
  ==-refl, ℕ, suc, ◌<◌, ◌≡◌, refl, Bool, false, ◌&&◌, List, [], ◌∷◌, Option, none, some, Bytes,
  arith, u32_mod, ◌==◌, if◌then◌else◌, Bool-cases, Option-cases, inl, inr, ◌∙◌, ==_iff,
}
use asio_kcp.Prelude.Maps.{
  Map, lookup, erase, Ascending, lookup-insert, lookup-erase, insert-Ascending, erase-Ascending,
}
use asio_kcp.UdpMulticast.{
  MulticastGroup, UdpMulticastManager, Datagram, send_reliable_to_group, handle_ack,
  handle_retransmit, retransmit, numbered, restart,
}

pub data Call : Type 0 where
  sends : ℕ → Bytes → Call
  acks : ℕ → ℕ → Call
  retransmits : ℕ → Call

-- How many reliable messages went to a group; the latest call stands first.
abbrev pub sends_to : ℕ → List Call → ℕ
sends_to g [] = 0
sends_to g (sends h msg ∷ earlier) = if h == g then suc (sends_to g earlier) else sends_to g earlier
sends_to g (acks h q ∷ earlier) = sends_to g earlier
sends_to g (retransmits h ∷ earlier) = sends_to g earlier

-- The message that awaits its acknowledgement under a number: the one that was sent when the group had
-- sent so many, unless an acknowledgement of the number came later.
abbrev pub pending : ℕ → List Call → ℕ → Option Bytes
pending g [] s = none
pending g (sends h msg ∷ earlier) s =
    if h == g && sends_to g earlier == s then some msg else pending g earlier s
pending g (acks h q ∷ earlier) s = if h == g && q == s then none else pending g earlier s
pending g (retransmits h ∷ earlier) s = pending g earlier s

module _ (accepts : Datagram → Bool) where
  pub after : List Call → UdpMulticastManager → UdpMulticastManager
  after [] m = m
  after (sends h msg ∷ earlier) m = (send_reliable_to_group accepts h msg (after earlier m)).0
  after (acks h q ∷ earlier) m = handle_ack h q (after earlier m)
  after (retransmits h ∷ earlier) m = (handle_retransmit accepts h (after earlier m)).0

  pub record Represents (g : ℕ) (calls : List Call) (group : MulticastGroup) : Type 0 where
    pub numbered : group.next_seq ≡ sends_to g calls
    pub ordered : Ascending 0 group.sent_msgs
    pub same : (s : ℕ) → lookup s group.sent_msgs ≡ pending g calls s

  lookup-nil : (s : ℕ) → lookup {V = Bytes} s [] ≡ none
  unfolding lookup
  lookup-nil s = refl

  -- The group `g` stands for its history.
  abbrev pub Tracked : ℕ → List Call → UdpMulticastManager → Type 0
  Tracked g calls m =
      (group : MulticastGroup) × (lookup g m.groups ≡ some group) × Represents g calls group

  sends-Represents :
      (g : ℕ) (msg : Bytes) (calls : List Call) (group : MulticastGroup)
      → suc (sends_to g calls) < u32_mod
      → Represents g calls group
      → Represents g (sends g msg ∷ calls) (numbered accepts msg group)
  sends-Represents g msg calls group h r = record {
    numbered = ground (arith, r.numbered);
    ordered = insert-Ascending group.next_seq 0 msg group.sent_msgs (omega arith) r.ordered;
    same = λ s.
        ground (arith, r.numbered, r.same s, lookup-insert group.next_seq s msg group.sent_msgs);
  }

  sends_self :
      (g : ℕ) (msg : Bytes) (calls : List Call) (m : UdpMulticastManager)
      → suc (sends_to g calls) < u32_mod
      → Tracked g calls m
      → Tracked g (sends g msg ∷ calls) (send_reliable_to_group accepts g msg m).0
  unfolding send_reliable_to_group
  sends_self g msg calls m few (group, e, r) = (
    numbered accepts msg group,
    rw (e, send_reliable_to_group) (rw (lookup-insert, ==-refl) refl),
    sends-Represents g msg calls group few r,
  )

  acks_self :
      (g q : ℕ) (calls : List Call) (m : UdpMulticastManager)
      → Tracked g calls m
      → Tracked g (acks g q ∷ calls) (handle_ack g q m)
  unfolding handle_ack
  acks_self g q calls m (group, e, r) = (
    record group { sent_msgs = erase q group.sent_msgs },
    rw (e, handle_ack) (rw (lookup-insert, ==-refl) refl),
    record {
      numbered = r.numbered;
      ordered = erase-Ascending q 0 group.sent_msgs r.ordered;
      same = λ s. ground (arith, r.same s, lookup-erase q s 0 group.sent_msgs r.ordered);
    },
  )

  retransmits_self :
      (g : ℕ) (calls : List Call) (m : UdpMulticastManager)
      → Tracked g calls m
      → Tracked g (retransmits g ∷ calls) (handle_retransmit accepts g m).0
  unfolding handle_retransmit
  retransmits_self g calls m (group, e, r) = rw (e, handle_retransmit) (go group.sent_msgs)
    where
      go :
          (msgs : Map Bytes)
          → Tracked g (retransmits g ∷ calls) (retransmit accepts g group msgs m).0
      go [] = (group, e, record { numbered = r.numbered; ordered = r.ordered; same = r.same })
      go (entry ∷ rest) = (
        record group { retransmit_timer = restart accepts group.retransmit_timer },
        rw (lookup-insert, ==-refl) refl,
        record { numbered = r.numbered; ordered = r.ordered; same = r.same },
      )

  -- A call on one group does not touch another.
  send_elsewhere :
      (g h : ℕ) (msg : Bytes) (m : UdpMulticastManager)
      → (h == g) ≡ false
      → lookup g (send_reliable_to_group accepts h msg m).0.groups ≡ lookup g m.groups
  unfolding send_reliable_to_group
  send_elsewhere g h msg m ne = elim (Option-cases (lookup h m.groups)) [
    | inl e ↦ rw (e, send_reliable_to_group) refl
    | inr (group, e) ↦ rw (e, send_reliable_to_group) (rw (lookup-insert, ne) refl)
  ]

  ack_elsewhere :
      (g h q : ℕ) (m : UdpMulticastManager)
      → (h == g) ≡ false
      → lookup g (handle_ack h q m).groups ≡ lookup g m.groups
  unfolding handle_ack
  ack_elsewhere g h q m ne = elim (Option-cases (lookup h m.groups)) [
    | inl e ↦ rw (e, handle_ack) refl
    | inr (group, e) ↦ rw (e, handle_ack) (rw (lookup-insert, ne) refl)
  ]

  retransmit_elsewhere :
      (g h : ℕ) (m : UdpMulticastManager)
      → (h == g) ≡ false
      → lookup g (handle_retransmit accepts h m).0.groups ≡ lookup g m.groups
  unfolding handle_retransmit
  retransmit_elsewhere g h m ne = elim (Option-cases (lookup h m.groups)) [
    | inl e ↦ rw (e, handle_retransmit) refl
    | inr (group, e) ↦ rw (e, handle_retransmit) (go group group.sent_msgs)
  ]
    where
      go :
          (group : MulticastGroup) (msgs : Map Bytes)
          → lookup g (retransmit accepts h group msgs m).0.groups ≡ lookup g m.groups
      go group [] = refl
      go group (entry ∷ rest) = rw (lookup-insert, ne) refl

  after-Tracked :
      (g : ℕ) (calls : List Call) (m : UdpMulticastManager)
      → sends_to g calls < u32_mod
      → Tracked g [] m
      → Tracked g calls (after calls m)
  unfolding after
  after-Tracked g [] m few t = t
  after-Tracked g (sends h msg ∷ calls) m few t = elim (Bool-cases (h == g)) [
    | inl e ↦ rw ((==_iff h g).0 e) (
        sends_self g msg calls (after calls m) (ground arith)
          (after-Tracked g calls m (ground arith) t))
    | inr ne ↦
        let (group, e, r) = after-Tracked g calls m (ground arith) t in
        (
          group,
          send_elsewhere g h msg (after calls m) ne ∙ e,
          record { numbered = rw ne r.numbered; ordered = r.ordered; same = λ s. rw ne (r.same s) },
        )
  ]
  after-Tracked g (acks h q ∷ calls) m few t = elim (Bool-cases (h == g)) [
    | inl e ↦
        rw ((==_iff h g).0 e) (acks_self g q calls (after calls m) (after-Tracked g calls m few t))
    | inr ne ↦
        let (group, e, r) = after-Tracked g calls m few t in
        (
          group,
          ack_elsewhere g h q (after calls m) ne ∙ e,
          record { numbered = r.numbered; ordered = r.ordered; same = λ s. rw ne (r.same s) },
        )
  ]
  after-Tracked g (retransmits h ∷ calls) m few t = elim (Bool-cases (h == g)) [
    | inl e ↦
        rw ((==_iff h g).0 e)
          (retransmits_self g calls (after calls m) (after-Tracked g calls m few t))
    | inr ne ↦
        let (group, e, r) = after-Tracked g calls m few t in
        (
          group,
          retransmit_elsewhere g h (after calls m) ne ∙ e,
          record { numbered = r.numbered; ordered = r.ordered; same = r.same },
        )
  ]

  -- Whatever reliable sends, acknowledgements and retransmissions come for any groups in any order, with no group
  -- created or deleted and the manager not stopped among them, the messages that a group keeps for retransmission
  -- are those of its history: a message is kept under the number of messages sent to the group before it,
  -- from its sending until its acknowledgement, and none of these calls for another group changes this. The
  -- group is new at the start and fewer than 2^32 messages are sent to it.
  pub sent_msgs-pending :
      (g : ℕ) (calls : List Call) (m : UdpMulticastManager) (group : MulticastGroup)
      → sends_to g calls < u32_mod
      → lookup g m.groups ≡ some group
      → group.next_seq ≡ 0
      → group.sent_msgs ≡ []
      → (group' : MulticastGroup) × (lookup g (after calls m).groups ≡ some group')
        × (group'.next_seq ≡ sends_to g calls)
        × ((s : ℕ) → lookup s group'.sent_msgs ≡ pending g calls s)
  sent_msgs-pending g calls m group few e zero_seq no_msgs =
      let (group', e', r) = after-Tracked g calls m few (
        group,
        e,
        record {
          numbered = zero_seq;
          ordered = rw no_msgs tt;
          same = λ s. rw no_msgs (lookup-nil s);
        },
      ) in
      (group', e', r.numbered, r.same)
