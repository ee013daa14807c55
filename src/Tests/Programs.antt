-- ===== src/Tests/Programs.antt =====
-- The programs that use the libraries, evaluated.
use asio_kcp.Prelude.{
  ◌≡◌, ◌^◌, refl, true, false, codes, none, some, arith, length, ltb, if◌then◌else◌,
}
use asio_kcp.Prelude.Maps.{lookup}
use asio_kcp.StdText.{format_unsigned}
use asio_kcp.ConnectPacket.{is_connect_packet}
use asio_kcp.Server.Container
use asio_kcp.UdpMulticast
use asio_kcp.Programs.TestMsg.{test_str, make_test_str, get_time_from_msg, search_time_from_kcp_str}
use asio_kcp.Programs.TestMsg.Times.{time_round_trip}
use asio_kcp.Programs.TestMsg.Sizes.{length-test_str}
use asio_kcp.Programs.EchoServer.{EchoServer, handle_datagram, echoed, manager_of}
use asio_kcp.Programs.EchoServer.Echo.{echo_lem}
use asio_kcp.Programs.MulticastTest.{multicast_info}
use asio_kcp.Programs.MulticastTest.Client.{read_info}
use asio_kcp.Programs.MulticastTest.Info.{info_round_trip}
use asio_kcp.Tests.{Block, toy, busy_server, busy_server-IsValid, peer, home, data_packet}

-- The example of the code's comment.
test_str_45 : test_str (codes "asdf") 45 ≡ codes "asdf:=====(20_56789)(30_56789)(40_56789)12345"
unfolding test_str format_unsigned
test_str_45 = refl

length_of_45 : length (test_str (codes "asdf") 45) ≡ 45
length_of_45 = length-test_str (codes "asdf") 45 (omega arith)

abbrev echo_server : EchoServer Block
unfolding UdpMulticast.create
echo_server = record {
  stopped = false;
  test_timer = true;
  kcp_server = record { connection_manager = busy_server; multicast_manager = UdpMulticast.create };
}

echo_lem_example :
    Container.find_by_conv 1001
      (manager_of (handle_datagram toy home data_packet echo_server)).connections
    ≡ some (record peer {
      p_kcp = echoed toy (toy.recv 1024000 (toy.input data_packet peer.p_kcp));
      udp_remote_endpoint = home;
      last_packet_recv_time = 7;
    })
unfolding Container.find_by_conv is_connect_packet echo_server lookup
echo_lem_example =
    echo_lem toy 1001 home data_packet peer echo_server busy_server-IsValid (omega arith) refl refl
      refl 1001

info_round_trip_example :
    read_info (multicast_info (codes "239.255.1.2") 30000 1)
    ≡ (if ltb 1 (2 ^ 31) then some (some (codes "239.255.1.2", 30000, 1)) else none)
info_round_trip_example =
    info_round_trip (codes "239.255.1.2") 30000 1 (ground arith) (omega arith) (omega arith)

time_round_trip_example :
    (get_time_from_msg (make_test_str 1234567 30) ≡ 1234567)
    × (search_time_from_kcp_str (make_test_str 1234567 30) ≡ 1234567)
unfolding format_unsigned
time_round_trip_example = time_round_trip 1234567 30 (omega arith) (omega arith) (omega arith)
