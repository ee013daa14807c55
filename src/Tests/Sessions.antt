-- ===== src/Tests/Sessions.antt =====
-- A run of the server, against its sessions.
use asio_kcp.Prelude.{◌≡◌, List, [], ◌∷◌, true, false, arith}
use asio_kcp.ConnectPacket.{making_connect_packet}
use asio_kcp.Server.Manager
use asio_kcp.Server.Steps
use asio_kcp.Server.Steps.{Input, udp_receive, timer, send, force_disconnect, stop}
use asio_kcp.Server.Sessions.{no_sessions, specified_run}
use asio_kcp.Server.Sessions.Refinement.{sessions_refinement}
use asio_kcp.Tests.{toy, home, data_packet}

abbrev some_inputs : List Input
some_inputs =
    udp_receive false home making_connect_packet
    ∷ timer 5
    ∷ udp_receive false home data_packet
    ∷ udp_receive true home data_packet
    ∷ timer 50000
    ∷ udp_receive false home making_connect_packet
    ∷ force_disconnect 1002
    ∷ stop
    ∷ []

sessions_refinement_example :
    (Steps.run toy Manager.start some_inputs).1 ≡ specified_run toy no_sessions some_inputs
sessions_refinement_example = sessions_refinement toy some_inputs (omega arith)
