-- ===== src/Tests/Servers.antt =====
-- A server with no connection, and one with a connection under the conv 1001.
use asio_kcp.Prelude.{
  ℕ, suc, ◌+◌, ◌<◌, ◌≡◌, refl, true, false, List, [], ◌∷◌, map, none, some, Bytes, arith, u32_mod,
  length, ◌==◌, if◌then◌else◌,
}
use asio_kcp.Prelude.Maps.{lookup}
use asio_kcp.ConnectPacket.{
  making_connect_packet, is_send_back_conv_packet, making_send_back_conv_packet,
  grab_conv_from_send_back_conv_packet,
}
use asio_kcp.ConnectPacket.Handshake.{making_connect_lem}
use asio_kcp.Server.{send_to}
use asio_kcp.Server.Connection
use asio_kcp.Server.Connection.{Connection}
use asio_kcp.Server.Container
use asio_kcp.Server.Manager
use asio_kcp.Server.Manager.{returned, assert_exception}
use asio_kcp.Server.Steps
use asio_kcp.Server.Steps.{udp_receive, timer, send, Input}
use asio_kcp.Server.Invariant.{IsValid}
use asio_kcp.Server.Invariant.Preserved.{step-IsValid}
use asio_kcp.Server.Handshake.{connect_lem}
use asio_kcp.Server.Routing.{short_packet_stops_receiving, without_datagrams}
use asio_kcp.Server.Timeouts.{
  handle_kcp_time_lem, silent_connection_stays, kept, timed_out, disconnected,
}
use asio_kcp.Server.Shutdown.{stop_all_lem, farewells, IsStopped}
use asio_kcp.Server.Events.{step-Names, Names, IsKnown}
use asio_kcp.Server.Calls.{get_new_conv_lem, after_calls}
use asio_kcp.Tests.{
  Block, toy, conv_of, home, peer, empty_server, busy_server, empty_server-IsValid,
  busy_server-IsValid, data_packet,
}

connect_lem_example :
    let r = Manager.handle_udp_receive_from toy false home making_connect_packet empty_server in
    (r.effects ≡ send_to home (making_send_back_conv_packet 1001) ∷ [])
    × (is_send_back_conv_packet (making_send_back_conv_packet 1001) ≡ true)
    × (grab_conv_from_send_back_conv_packet (making_send_back_conv_packet 1001) ≡ 1001)
    × (Container.find_by_conv 1001 empty_server.connections ≡ none)
    × ((j : ℕ)
        → Container.find_by_conv j r.manager.connections ≡ (
            if 1001 == j
            then some (Connection.create toy 1001 home)
            else Container.find_by_conv j empty_server.connections))
    × (r.manager.receiving ≡ true)
    × (r.exit ≡ returned)
connect_lem_example =
    connect_lem toy empty_server home making_connect_packet making_connect_lem (omega arith) refl
      empty_server-IsValid

step-IsValid_example :
    IsValid (Steps.step toy busy_server (udp_receive false home data_packet)).manager
step-IsValid_example =
    step-IsValid toy busy_server (udp_receive false home data_packet) (omega arith)
      busy_server-IsValid

handle_kcp_time_lem_example :
    let r = Manager.handle_kcp_time toy 20000 busy_server in
    ((j : ℕ)
      → Container.find_by_conv j r.manager.connections
        ≡ kept toy (some 20000) 20000 (Container.find_by_conv j busy_server.connections))
    × (disconnected r.effects ≡ timed_out toy (some 20000) busy_server.connections.connections)
handle_kcp_time_lem_example = handle_kcp_time_lem toy 20000 busy_server busy_server-IsValid

stop_all_lem_example :
    let r = Manager.stop_all busy_server in
    (r.effects ≡ farewells busy_server.connections.connections)
    × IsStopped (Steps.run toy r.manager (timer 9 ∷ udp_receive false home data_packet ∷ [])).0
    × ((Steps.run toy r.manager (timer 9 ∷ udp_receive false home data_packet ∷ [])).1 ≡ [])
stop_all_lem_example =
    stop_all_lem toy busy_server (timer 9 ∷ udp_receive false home data_packet ∷ [])

step-Names_example :
    Names
      (IsKnown busy_server)
      (Steps.step toy busy_server (udp_receive false home data_packet)).effects
step-Names_example =
    step-Names toy busy_server (udp_receive false home data_packet) busy_server-IsValid

get_new_conv_lem_example :
    (1000 + suc 0 < u32_mod → (Container.get_new_conv (after_calls Block 0)).1 ≡ 1000 + suc 0)
    × (1000 + suc 0 ≡ u32_mod → (Container.get_new_conv (after_calls Block 0)).1 ≡ 0)
    × ((Container.get_new_conv (after_calls Block (0 + u32_mod))).1
        ≡ (Container.get_new_conv (after_calls Block 0)).1)
get_new_conv_lem_example = get_new_conv_lem Block 0

toy-get_conv : (p : Bytes) → length p < 24 → conv_of p ≡ none
toy-get_conv [] h = refl
toy-get_conv (a ∷ []) h = refl
toy-get_conv (a ∷ b ∷ rest) h = ground arith

short_packet_stops_receiving_example :
    let r = Steps.step toy busy_server (udp_receive false home (1 ∷ [])) in
    (r.exit ≡ assert_exception)
    × (r.effects ≡ [])
    × (r.manager.connections ≡ busy_server.connections)
    × ((is : List Input)
        → Steps.run toy r.manager is ≡ Steps.run toy r.manager (without_datagrams toy is))
short_packet_stops_receiving_example =
    short_packet_stops_receiving toy busy_server home (1 ∷ []) toy-get_conv (omega arith)
      (omega arith) refl

abbrev silent_server : Manager.Manager Block
silent_server = record busy_server {
  connections = record {
    connections = (1001, record peer { last_packet_recv_time = 0 }) ∷ [];
    static_cur_conv = 1001;
  };
}

silent_server-IsValid : IsValid silent_server
silent_server-IsValid = record {
  container = record {
    ordered = (omega arith, tt);
    given_out = ((refl, omega arith), tt);
    above = omega arith;
  };
  stopped_empty = λ h. cc;
  closed = λ h. refl;
  timed = λ h. refl;
}

found :
    Container.find_by_conv 1001 silent_server.connections
    ≡ some (record peer { last_packet_recv_time = 0 })
unfolding Container.find_by_conv lookup
found = refl

silent_connection_stays_example :
    (c' : Connection Block) × (Container.find_by_conv 1001
        (Steps.run toy silent_server (map timer (20000 ∷ 90000 ∷ []))).0.connections
      ≡ some c')
    × (c'.last_packet_recv_time ≡ 0)
silent_connection_stays_example =
    silent_connection_stays toy 1001 (20000 ∷ 90000 ∷ []) silent_server silent_server-IsValid found
      refl
