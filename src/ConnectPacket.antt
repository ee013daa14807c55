-- ===== src/ConnectPacket.antt =====
-- util/connect_packet.cpp: the handshake and disconnect packets, which travel beside those of KCP.
-- A packet is the bytes of one datagram; `atol` stops at its end as at a NUL.
pub mod Handshake
pub mod Kinds
use asio_kcp.Prelude.{
  ℕ, ◌+◌, Bool, ◌&&◌, [], ◌∷◌, ◌++◌, Bytes, codes, ltb, ◌==◌, length, drop, starts_with,
}
use asio_kcp.Prelude.Int.{to_u32}
use asio_kcp.StdText.{format_unsigned, atol}

-- ASIO_KCP_CONNECT_PACKET, less the NUL that its `sizeof` counts.
abbrev pub connect_packet : Bytes
connect_packet = codes "asio_kcp_connect_package get_conv"

-- ASIO_KCP_SEND_BACK_CONV_PACKET.
abbrev pub send_back_conv_packet : Bytes
send_back_conv_packet = codes "asio_kcp_connect_back_package get_conv:"

-- ASIO_KCP_DISCONNECT_PACKET.
abbrev pub disconnect_packet : Bytes
disconnect_packet = codes "asio_kcp_disconnect_package"

abbrev pub size_of : Bytes → ℕ
size_of text = length text + 1

unfoldable pub making_connect_packet : Bytes
making_connect_packet = connect_packet ++ 0 ∷ []

unfoldable pub is_connect_packet : Bytes → Bool
is_connect_packet p = length p == size_of connect_packet && starts_with connect_packet p

unfoldable pub is_send_back_conv_packet : Bytes → Bool
is_send_back_conv_packet p =
    ltb (size_of send_back_conv_packet) (length p) && starts_with send_back_conv_packet p

-- "%s %u".
unfoldable pub making_send_back_conv_packet : ℕ → Bytes
making_send_back_conv_packet conv = send_back_conv_packet ++ b' ' ∷ format_unsigned conv

unfoldable pub grab_conv_from_send_back_conv_packet : Bytes → ℕ
grab_conv_from_send_back_conv_packet p = to_u32 (atol (drop (size_of send_back_conv_packet) p))

unfoldable pub making_disconnect_packet : ℕ → Bytes
making_disconnect_packet conv = disconnect_packet ++ b' ' ∷ format_unsigned conv

unfoldable pub is_disconnect_packet : Bytes → Bool
is_disconnect_packet p =
    ltb (size_of disconnect_packet) (length p) && starts_with disconnect_packet p

unfoldable pub grab_conv_from_disconnect_packet : Bytes → ℕ
grab_conv_from_disconnect_packet p = to_u32 (atol (drop (size_of disconnect_packet) p))
