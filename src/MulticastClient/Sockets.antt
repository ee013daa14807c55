-- ===== src/MulticastClient/Sockets.antt =====
-- The descriptors that a member holds: those of its groups, each closed when the group is left.
use mathlib.Core.Path.{subst}
use asio_kcp.Prelude.{
  ℕ, ◌+◌, ◌-◌, ◌≡◌, ◌⊎◌, refl, sym, Bool, true, false, List, [], ◌∷◌, none, some, Bytes, arith,
  ◌==◌, if◌then◌else◌, Option-cases, inl, inr, ==_iff, ==-refl, Bool-cases,
}
use asio_kcp.Prelude.Int.{ℤ, pos, is_negative}
use asio_kcp.Prelude.Maps.{Map, lookup, insert, erase}
use asio_kcp.MulticastClient.{
  GroupInfo, MulticastClient, JoinCalls, close, join_socket, join_group, leave_group, close_all,
  start, stop,
}

abbrev pub count : ℕ → List ℕ → ℕ
count fd [] = 0
count fd (x ∷ xs) = (if x == fd then 1 else 0) + count fd xs

abbrev pub fds : Map GroupInfo → List ℕ
fds [] = []
fds ((g, info) ∷ m) = info.socket_fd ∷ fds m

-- The open descriptors are those of `others`, which the client has nothing to do with, and those of the
-- groups.
abbrev pub HoldsItsSockets : List ℕ → MulticastClient → Type 0
HoldsItsSockets others c =
    (fd : ℕ) → count fd c.open_fds ≡ count fd others + count fd (fds c.groups)

count-close :
    (x fd : ℕ) (xs : List ℕ) → count fd (close x xs) ≡ count fd xs - (if x == fd then 1 else 0)
unfolding close
count-close x fd [] = ground arith
count-close x fd (y ∷ ys) =
    ground (arith, count-close x fd ys, ==_iff y x, ==_iff x fd, ==_iff y fd)

count-close_all :
    (m : Map GroupInfo) (xs : List ℕ) (fd : ℕ)
    → count fd (close_all m xs) ≡ count fd xs - count fd (fds m)
unfolding close_all
count-close_all [] xs fd = omega arith
count-close_all ((g, info) ∷ m) xs fd =
    ground (arith, count-close_all m (close info.socket_fd xs) fd, count-close info.socket_fd fd xs)

count-insert :
    (g : ℕ) (info : GroupInfo) (m : Map GroupInfo) (fd : ℕ)
    → lookup g m ≡ none
    → count fd (fds (insert g info m)) ≡ (if info.socket_fd == fd then 1 else 0) + count fd (fds m)
unfolding lookup insert
count-insert g info [] fd e = refl
count-insert g info ((j, w) ∷ m) fd e = ground (arith, count-insert g info m fd)

count-erase :
    (g : ℕ) (info : GroupInfo) (m : Map GroupInfo) (fd : ℕ)
    → lookup g m ≡ some info
    → count fd (fds m) ≡ (if info.socket_fd == fd then 1 else 0) + count fd (fds (erase g m))
unfolding lookup erase
count-erase g info [] fd e = cc
count-erase g info ((j, w) ∷ m) fd e = ground (arith, count-erase g info m fd)

-- What a call of `join_group` may do: nothing, with a result below zero; or add the group, with a socket
-- that it opened, and the result 0.
abbrev pub Joined : ℕ → Bytes → ℕ → MulticastClient → MulticastClient × ℤ → Type 0
Joined g addr port c (c', r) =
    ((is_negative r ≡ true) × (c' ≡ c))
    ⊎ ((fd : ℕ) × ((r ≡ pos 0)
          × (lookup g c.groups ≡ none)
          × (c' ≡ record c {
            groups =
                insert g
                  (record { multicast_addr = addr; port = port; socket_fd = fd; last_seq = 0 })
                  c.groups;
            open_fds = fd ∷ c.open_fds;
          })))

closed : (fd : ℕ) (c : MulticastClient) → record c { open_fds = close fd (fd ∷ c.open_fds) } ≡ c
unfolding close
closed fd c = rw (==-refl fd) refl

join_socket_lem :
    (calls : JoinCalls) (addr : Bytes) (port g fd : ℕ) (c : MulticastClient)
    → lookup g c.groups ≡ none
    → Joined g addr port c (join_socket calls addr port g fd c)
unfolding join_socket
join_socket_lem calls addr port g fd c e = elim (Bool-cases calls.reuse_address) [
  | inl a ↦ elim (Bool-cases calls.non_blocking) [
    | inl b ↦ elim (Bool-cases calls.bind) [
      | inl d ↦ elim (Bool-cases calls.add_membership) [
        | inl f ↦ rw (a, b, d, f) (inr (fd, (refl, e, refl)))
        | inr f ↦ rw (a, b, d, f) (inl (refl, closed fd c))
      ]
      | inr d ↦ rw (a, b, d) (inl (refl, closed fd c))
    ]
    | inr b ↦ rw (a, b) (inl (refl, closed fd c))
  ]
  | inr a ↦ rw a (inl (refl, closed fd c))
]

join_group-join_socket :
    (calls : JoinCalls) (addr : Bytes) (port g fd : ℕ) (c : MulticastClient)
    → lookup g c.groups ≡ none
    → calls.socket ≡ some fd
    → join_group calls addr port g c ≡ join_socket calls addr port g fd c
unfolding join_group
join_group-join_socket calls addr port g fd c e e' = rw (join_group, e, e') refl

-- `join_group` leaks no descriptor on any path: a call that fails (a result below zero) leaves the client
-- and the open descriptors as they were, and one that succeeds opens the socket of the new group and
-- returns 0. It does not join a group twice, and succeeds only if every call of the system does.
pub join_group_lem :
    (calls : JoinCalls) (addr : Bytes) (port g : ℕ) (c : MulticastClient)
    → Joined g addr port c (join_group calls addr port g c)
unfolding join_group
join_group_lem calls addr port g c = elim (Option-cases (lookup g c.groups)) [
  | inl e ↦ elim (Option-cases calls.socket) [
    | inl e' ↦ rw (join_group, e, e') (inl (refl, refl))
    | inr (fd, e') ↦
        subst (Joined g addr port c) (sym (join_group-join_socket calls addr port g fd c e e'))
          (join_socket_lem calls addr port g fd c e)
  ]
  | inr (info, e) ↦ rw (join_group, e) (inl (refl, refl))
]

Joined-HoldsItsSockets :
    (others : List ℕ) (g : ℕ) (addr : Bytes) (port : ℕ) (c : MulticastClient)
    (r : MulticastClient × ℤ)
    → Joined g addr port c r
    → HoldsItsSockets others c
    → HoldsItsSockets others r.0
Joined-HoldsItsSockets others g addr port c (c', r) (inl (_, e)) h fd = rw e (h fd)
Joined-HoldsItsSockets others g addr port c (c', r) (inr (x, (_, e, e'))) h fd = rw e' (
    ground (
      arith,
      h fd,
      count-insert g (record { multicast_addr = addr; port = port; socket_fd = x; last_seq = 0 })
          c.groups fd e,
    ))

leave_group-HoldsItsSockets :
    (others : List ℕ) (g : ℕ) (c : MulticastClient)
    → HoldsItsSockets others c
    → HoldsItsSockets others (leave_group g c).0
unfolding leave_group
leave_group-HoldsItsSockets others g c h fd = elim (Option-cases (lookup g c.groups)) [
  | inl e ↦ rw (leave_group, e) (h fd)
  | inr (info, e) ↦
      rw (leave_group, e)
        (ground
          (arith, h fd, count-erase g info c.groups fd e, count-close info.socket_fd fd c.open_fds))
]

stop-HoldsItsSockets :
    (others : List ℕ) (c : MulticastClient)
    → HoldsItsSockets others c
    → HoldsItsSockets others (stop c)
unfolding stop
stop-HoldsItsSockets others c h fd = ground (arith, h fd, count-close_all c.groups c.open_fds fd)

-- The calls that a program makes of a member.
pub data Call : Type 0 where
  join : JoinCalls → Bytes → ℕ → ℕ → Call
  leave : ℕ → Call
  start_thread : Bool → Call
  stop_thread : Call

abbrev pub perform : Call → MulticastClient → MulticastClient
perform (join calls addr port g) c = (join_group calls addr port g c).0
perform (leave g) c = (leave_group g c).0
perform (start_thread created) c = (start created c).0
perform stop_thread c = stop c

abbrev pub perform_all : List Call → MulticastClient → MulticastClient
perform_all [] c = c
perform_all (x ∷ xs) c = perform_all xs (perform x c)

perform-HoldsItsSockets :
    (others : List ℕ) (x : Call) (c : MulticastClient)
    → HoldsItsSockets others c
    → HoldsItsSockets others (perform x c)
unfolding start
perform-HoldsItsSockets others (join calls addr port g) c h =
    Joined-HoldsItsSockets others g addr port c _ (join_group_lem calls addr port g c) h
perform-HoldsItsSockets others (leave g) c h = leave_group-HoldsItsSockets others g c h
perform-HoldsItsSockets others (start_thread created) c h = λ fd. ground (arith, h fd)
perform-HoldsItsSockets others stop_thread c h = stop-HoldsItsSockets others c h

-- If the open descriptors are those of `others` and of the member's groups, each as often as there, then
-- they still are after any calls of the member, in any order and with any answers of the system.
pub perform_all-HoldsItsSockets :
    (others : List ℕ) (xs : List Call) (c : MulticastClient)
    → HoldsItsSockets others c
    → HoldsItsSockets others (perform_all xs c)
perform_all-HoldsItsSockets others [] c h = h
perform_all-HoldsItsSockets others (x ∷ xs) c h =
    perform_all-HoldsItsSockets others xs (perform x c) (perform-HoldsItsSockets others x c h)

-- Where the open descriptors are those of `others` and of the groups: `stop` of a running member leaves its
-- groups and closes all their sockets, so that only the descriptors of `others` stay open. If the member does
-- not run it does neither, also when the destructor calls it: a member that joined groups and was never
-- started keeps their sockets open.
pub stop_lem :
    (others : List ℕ) (c : MulticastClient)
    → HoldsItsSockets others c
    → (c.running ≡ true
        → ((stop c).groups ≡ []) × ((fd : ℕ) → count fd (stop c).open_fds ≡ count fd others))
      × (c.running ≡ false → stop c ≡ c)
unfolding stop
stop_lem others c h = (
  λ r. (ground arith, λ fd. ground (arith, h fd, count-close_all c.groups c.open_fds fd)),
  λ r. ground arith,
)
