-- ===== src/ConnectPacket/Handshake.antt =====
-- What one end prints the other reads.
use asio_kcp.Prelude.{ℕ, ◌<◌, ◌^◌, ◌≡◌, refl, true, [], append-nil, arith}
use asio_kcp.StdText.{format_unsigned, atol}
use asio_kcp.StdText.RoundTrip.{atol-format_unsigned, length-format_unsigned}
use asio_kcp.Prelude.Int.{pos}
use asio_kcp.ConnectPacket.{
  making_connect_packet, is_connect_packet, is_send_back_conv_packet, making_send_back_conv_packet,
  grab_conv_from_send_back_conv_packet, making_disconnect_packet, is_disconnect_packet,
  grab_conv_from_disconnect_packet,
}

atol-print : (n : ℕ) → n < 2 ^ 63 → atol (format_unsigned n) ≡ pos n
atol-print n h = rw (append-nil (format_unsigned n)) at (atol-format_unsigned n [] h (λ e. e))

-- The packet that the server answers a connect request with is recognised by the client, which reads
-- from it the conv that the server put in, for every 32-bit conv.
pub send_back_conv_round_trip :
    (conv : ℕ)
    → conv < 2 ^ 32
    → (is_send_back_conv_packet (making_send_back_conv_packet conv) ≡ true)
      × (grab_conv_from_send_back_conv_packet (making_send_back_conv_packet conv) ≡ conv)
unfolding is_send_back_conv_packet making_send_back_conv_packet grab_conv_from_send_back_conv_packet
send_back_conv_round_trip conv h =
    (ground (arith, length-format_unsigned conv), ground (arith, atol-print conv (omega arith)))

-- A disconnect packet is recognised, and the conv that it was made with is read from it, for every
-- 32-bit conv.
pub disconnect_round_trip :
    (conv : ℕ)
    → conv < 2 ^ 32
    → (is_disconnect_packet (making_disconnect_packet conv) ≡ true)
      × (grab_conv_from_disconnect_packet (making_disconnect_packet conv) ≡ conv)
unfolding is_disconnect_packet making_disconnect_packet grab_conv_from_disconnect_packet
disconnect_round_trip conv h =
    (ground (arith, length-format_unsigned conv), ground (arith, atol-print conv (omega arith)))

pub making_connect_lem : is_connect_packet making_connect_packet ≡ true
unfolding is_connect_packet making_connect_packet
making_connect_lem = refl
