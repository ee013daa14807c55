-- ===== src/MulticastClient/Delivery.antt =====
-- What a member makes of the datagrams of the server.
use asio_kcp.Prelude.{
  ℕ, ◌<◌, ◌≤◌, ◌≡◌, ◌≢◌, ap, sym, List, Option-cases, Bool, true, false, Exists, [], ◌∷◌, ◌++◌,
  some, Bytes, codes, arith, u32_mod, length, drop, length-drop, starts_with, Bool-cases, inl, inr,
}
use asio_kcp.Prelude.Maps.{lookup}
use asio_kcp.StdText.{format_unsigned}
use asio_kcp.UdpMulticast
use asio_kcp.UdpMulticast.{MulticastGroup, UdpMulticastManager, Datagram, net_u32, seq_msg}
use asio_kcp.MulticastClient.{
  Action, MulticastClient, GroupInfo, callback, send_to_group, ntohl, receive, send_ack,
}

-- The four bytes of a number are read back.
ntohl-net_u32 : (n : ℕ) (rest : Bytes) → n < u32_mod → ntohl (net_u32 n ++ rest) ≡ n
unfolding ntohl net_u32
ntohl-net_u32 n rest h = omega arith

-- "ACK:" read as a number.
abbrev pub ack_seq : ℕ
ack_seq = 0x41434b3a

not-ack :
    (seq : ℕ) (rest : Bytes)
    → seq < u32_mod
    → seq ≢ ack_seq
    → starts_with (codes "ACK:") (net_u32 seq ++ rest) ≡ false
unfolding net_u32
not-ack seq rest h ne = ground arith

-- A reliable message of the server comes to the callback of a member as it was sent, and is acknowledged
-- to the group by its number; but the message with the number 0x41434b3a, whose bytes are "ACK:", is
-- taken for an acknowledgement and dropped.
pub receive-seq_msg :
    (g seq : ℕ) (msg : Bytes) (c : MulticastClient) (info : GroupInfo)
    → seq < u32_mod
    → c.has_callback ≡ true
    → lookup g c.groups ≡ some info
    → (seq ≢ ack_seq
        → receive g (seq_msg seq msg) c
          ≡ callback g msg
            ∷ send_to_group info.multicast_addr info.port (codes "ACK:" ++ format_unsigned seq)
            ∷ [])
      × (seq ≡ ack_seq → receive g (seq_msg seq msg) c ≡ [])
unfolding receive seq_msg
receive-seq_msg g seq msg c info h cb e = (
  λ ne. ground (arith, not-ack seq msg h ne, ntohl-net_u32 seq msg h),
  λ eq. rw eq (ground arith),
)

longer : (msg : Bytes) → 4 ≤ length msg → drop 4 msg ≢ msg
longer msg h e = omega (arith, length-drop 4 msg, ap length e)

-- What a member does with a datagram of four bytes or more that is no acknowledgement.
receive_long :
    (g : ℕ) (msg : Bytes) (c : MulticastClient)
    → c.has_callback ≡ true
    → 4 ≤ length msg
    → starts_with (codes "ACK:") msg ≡ false
    → receive g msg c ≡ callback g (drop 4 msg) ∷ send_ack g (ntohl msg) c
unfolding receive
receive_long g msg c cb h f = ground arith

same_message : (g : ℕ) (a b : Bytes) → ◌≡◌ {A = Action} (callback g a) (callback g b) → a ≡ b
same_message g a b e =
    ap (λ action. elim action [ callback h bytes ↦ bytes | send_to_group addr port bytes ↦ a ]) e

send_ack-quiet :
    (g h seq : ℕ) (msg : Bytes) (c : MulticastClient)
    → ¬ Exists (λ a. a ≡ callback g msg) (send_ack h seq c)
unfolding send_ack
send_ack-quiet g h seq msg c = elim (Option-cases (lookup h c.groups)) [
  | inl e ↦ rw (send_ack, e) (λ given. given)
  | inr (info, e) ↦ rw (send_ack, e) (λ given. elim given [ inl sent ↦ cc | inr rest ↦ rest ])
]

receive_long-quiet :
    (g : ℕ) (msg : Bytes) (c : MulticastClient)
    → c.has_callback ≡ true
    → 4 ≤ length msg
    → ¬ Exists (λ a. a ≡ callback g msg) (receive g msg c)
unfolding receive
receive_long-quiet g msg c cb h = elim (Bool-cases (starts_with (codes "ACK:") msg)) [
  | inl t ↦ let dropped : receive g msg c ≡ [] = ground arith in rw dropped (λ given. given)
  | inr f ↦ rw (receive_long g msg c cb h f) (λ given. elim given [
    | inl cut ↦ longer msg h (same_message g (drop 4 msg) msg cut)
    | inr rest ↦ send_ack-quiet g g (ntohl msg) msg c rest
  ])
]

-- The one datagram of a `send_to_group` holds the message.
send_to_group_bytes :
    (accepts : Datagram → Bool) (h : ℕ) (msg : Bytes) (m : UdpMulticastManager) (d : Datagram)
    → UdpMulticast.send_to_group accepts h msg m ≡ d ∷ []
    → d.1 ≡ msg
unfolding UdpMulticast.send_to_group
send_to_group_bytes accepts h msg m d sent = elim (Option-cases (lookup h m.groups)) [
  | inl e ↦ cc (rw (UdpMulticast.send_to_group, e) at sent)
  | inr (group, e) ↦ elim (Bool-cases (accepts (group.endpoint, msg))) [
    | inl t ↦ bytes group (rw (UdpMulticast.send_to_group, e, t) at sent)
    | inr f ↦ cc (rw (UdpMulticast.send_to_group, e, f) at sent)
  ]
]
  where
    bytes :
        (group : MulticastGroup)
        → ◌≡◌ {A = List Datagram} ((group.endpoint, msg) ∷ []) (d ∷ [])
        → d.1 ≡ msg
    bytes group e = sym (ap (λ ds. elim ds [ [] ↦ msg | x ∷ xs ↦ x.1 ]) e)

-- A message that the server sends without a number, with `send_to_group`, comes to the callback of a member as it was sent if and only if
-- it is shorter than four bytes: of the datagram of `send_to_group`, a member of the group then makes that
-- one call, and of a longer one never such a call.
pub receive_plain :
    (accepts : Datagram → Bool) (h g : ℕ) (msg : Bytes) (m : UdpMulticastManager) (d : Datagram)
    (c : MulticastClient)
    → UdpMulticast.send_to_group accepts h msg m ≡ d ∷ []
    → c.has_callback ≡ true
    → (length msg < 4 → receive g d.1 c ≡ callback g msg ∷ [])
      × (4 ≤ length msg → ¬ Exists (λ a. a ≡ callback g msg) (receive g d.1 c))
unfolding receive
receive_plain accepts h g msg m d c sent cb =
    rw (send_to_group_bytes accepts h msg m d sent)
      ((λ short. ground arith), receive_long-quiet g msg c cb)
