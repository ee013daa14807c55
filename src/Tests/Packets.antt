-- ===== src/Tests/Packets.antt =====
-- The packets of the handshake, evaluated.
use asio_kcp.Prelude.{◌≡◌, true, false, arith}
use asio_kcp.ConnectPacket.{
  making_connect_packet, is_connect_packet, is_send_back_conv_packet, making_send_back_conv_packet,
  grab_conv_from_send_back_conv_packet, is_disconnect_packet,
}
use asio_kcp.ConnectPacket.Handshake.{send_back_conv_round_trip}
use asio_kcp.ConnectPacket.Kinds.{kinds_exclusive}

send_back_conv_round_trip_example :
    (is_send_back_conv_packet (making_send_back_conv_packet 1001) ≡ true)
    × (grab_conv_from_send_back_conv_packet (making_send_back_conv_packet 1001) ≡ 1001)
send_back_conv_round_trip_example = send_back_conv_round_trip 1001 (omega arith)

kinds_exclusive_example :
    (is_connect_packet making_connect_packet ≡ true
      → (is_send_back_conv_packet making_connect_packet ≡ false)
        × (is_disconnect_packet making_connect_packet ≡ false))
    × (is_send_back_conv_packet making_connect_packet ≡ true
        → is_disconnect_packet making_connect_packet ≡ false)
kinds_exclusive_example = kinds_exclusive making_connect_packet
