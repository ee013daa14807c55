-- ===== src/ConnectPacket/Kinds.antt =====
-- The kinds of packets exclude one another, and KCP's packets.
use asio_kcp.Prelude.{
  &&-right, &&-false, ℕ, zero, suc, ◌≡◌, inl, inr, refl, true, false, some, [], ◌∷◌, Bytes, arith,
  starts_with, ◌==◌, get_elem?, Bool-cases,
}
use asio_kcp.ConnectPacket.{
  connect_packet, send_back_conv_packet, disconnect_packet, is_connect_packet,
  is_send_back_conv_packet, is_disconnect_packet,
}

get_elem?-starts_with :
    (t p : Bytes) (i c : ℕ)
    → starts_with t p ≡ true
    → get_elem? t i ≡ some c
    → get_elem? p i ≡ some c
get_elem?-starts_with [] p i c h e = cc
get_elem?-starts_with (x ∷ t) [] i c h e = cc
get_elem?-starts_with (x ∷ t) (y ∷ p) zero c h e = ground arith
get_elem?-starts_with (x ∷ t) (y ∷ p) (suc i) c h e = get_elem?-starts_with t p i c (ground arith) e

-- Two texts that differ in a byte begin no packet together.
starts_with_differ :
    (t u p : Bytes) (i c d : ℕ)
    → get_elem? t i ≡ some c
    → get_elem? u i ≡ some d
    → (c == d) ≡ false
    → starts_with t p ≡ true
    → starts_with u p ≡ false
starts_with_differ t u p i c d et eu ne h = elim (Bool-cases (starts_with u p)) [
  | inl e ↦ ground (arith, get_elem?-starts_with t p i c h et, get_elem?-starts_with u p i d e eu)
  | inr e ↦ e
]

-- No datagram is taken for two of the three kinds of control packets.
pub kinds_exclusive :
    (p : Bytes)
    → (is_connect_packet p ≡ true
        → (is_send_back_conv_packet p ≡ false) × (is_disconnect_packet p ≡ false))
      × (is_send_back_conv_packet p ≡ true → is_disconnect_packet p ≡ false)
unfolding is_connect_packet is_send_back_conv_packet is_disconnect_packet
kinds_exclusive p = (
  λ h.
      let s = &&-right _ _ h in
      (
        &&-false _ _ (
            starts_with_differ connect_packet send_back_conv_packet p 17 b'p' b'b' refl refl refl
              s),
        &&-false _ _
            (starts_with_differ connect_packet disconnect_packet p 9 b'c' b'd' refl refl refl s),
      ),
  λ h. &&-false _ _ (
      starts_with_differ send_back_conv_packet disconnect_packet p 9 b'c' b'd' refl refl refl
        (&&-right _ _ h)),
)
