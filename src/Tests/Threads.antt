-- ===== src/Tests/Threads.antt =====
-- The test client and the thread of a member, evaluated.
use asio_kcp.Prelude.{
  ◌+◌, ◌≤◌, ◌≡◌, refl, true, false, List, [], ◌∷◌, none, some, Bytes, map, codes, arith,
}
use asio_kcp.Prelude.Maps.{lookup}
use asio_kcp.ConnectPacket.{making_disconnect_packet}
use asio_kcp.Server
use asio_kcp.Server.Container
use asio_kcp.Server.Manager
use asio_kcp.Client.{ConnectCalls, Target, datagram, event, disconnect, send_to_server}
use asio_kcp.Prelude.Int.{pos}
use asio_kcp.StdText.{format_unsigned}
use asio_kcp.MulticastClient.{
  MulticastClient, callback, send_to_group, receive, ntohl, send_ack, handle_reliable_message,
  handle_multicast_message,
}
use asio_kcp.MulticastClient.Thread.{
  Pass, timed_out, ready, received, interrupted, receive_thread_func, receive_pass, receive_all,
  receive_from, after_poll,
}
use asio_kcp.MulticastClient.Thread.Ends.{Run, BelongsToPass, receive_thread_lem}
use asio_kcp.Prelude.{All, Exists}
use asio_kcp.Programs.TestClient
use asio_kcp.Programs.TestClient.{
  TestClient, handle_client_time, stop_all, handle_timer_send_msg, hook_client_timer,
  hook_timer_send_msg,
}
use asio_kcp.Programs.TestClient.Ends.{Runs, Ended, stays, stops, send_time, waits, test_client_lem}
use asio_kcp.Programs.TestClient.Goodbye.{thrown_out}
use asio_kcp.Tests.{Block, toy, home, busy_server, busy_server-IsValid, peer, connecting}

abbrev test_client : TestClient Block
test_client = record {
  stopped = false;
  test_str_size = 30;
  client_timer = true;
  client_timer_send_msg = true;
  kcp_client = record connecting {
    in_connect_stage = false;
    connect_succeed = true;
    p_kcp = some (1001, []);
  };
}

thrown_out_example :
    ((Manager.force_disconnect 1001 busy_server).effects
      ≡ Server.event 1001 Server.disconnect (codes "server force disconnect")
        ∷ Server.send_to home (making_disconnect_packet 1001)
        ∷ [])
    × (Container.find_by_conv 1001 (Manager.force_disconnect 1001 busy_server).manager.connections
        ≡ none)
    × ((t' : TestClient Block) × (bufs : List Bytes) × (handle_client_time toy 5 7
            (datagram (making_disconnect_packet 1001))
            test_client
          ≡ some
              (t', event 1001 disconnect (making_disconnect_packet 1001) ∷ map send_to_server bufs))
        × (t'.stopped ≡ true))
unfolding Container.find_by_conv lookup
thrown_out_example =
    thrown_out toy 5 7 1001 busy_server peer test_client (1001, []) (omega arith) (λ msg cb. refl)
      busy_server-IsValid refl refl refl refl refl refl refl

abbrev no_socket : ConnectCalls
no_socket = record {
  inet_pton = some 0x7f000001;
  socket = none;
  get_flags = true;
  set_non_block = true;
  udp_connect = true;
}

abbrev here : Target
here = record { udp_port_bind = pos 4000; server_ip = codes "127.0.0.1"; server_port = pos 12345 }

abbrev started : TestClient Block
unfolding TestClient.create
started = TestClient.create here no_socket 5 30

-- The last message is sent by a client that is stopped already.
abbrev done : TestClient Block
unfolding stop_all handle_timer_send_msg
done = handle_timer_send_msg 6 (stop_all started)

abbrev stopping : Runs toy 0 started (stop_all started)
stopping = stops 0 started (stop_all started) (stays (stop_all started))

test_client_lem_example :
    (¬ Ended {kcp = toy} stopping
      → ((stop_all started).stopped ≡ false)
        × ((stop_all started).client_timer ≡ true)
        × ((stop_all started).client_timer_send_msg ≡ true))
    × (Ended {kcp = toy} stopping → (stop_all started).stopped ≡ true)
    × ((stop_all started).stopped ≡ true
        → (1 + waits done ≡ waits (stop_all started)) × (1 ≤ 2) × (done.stopped ≡ true))
unfolding TestClient.create stop_all handle_timer_send_msg hook_client_timer hook_timer_send_msg
test_client_lem_example =
    test_client_lem toy here no_socket 5 30 0 1 (stop_all started) done stopping
      (send_time 0 6 (stop_all started) done refl (stays done))

abbrev member : MulticastClient
member = record {
  groups =
      (
        1,
        record { multicast_addr = codes "239.255.0.1"; port = 30001; socket_fd = 5; last_seq = 0 },
      )
      ∷ [];
  running = true;
  has_callback = true;
  open_fds = 5 ∷ [];
}

abbrev passes : List Pass
passes =
    record { client = member; poll = interrupted }
    ∷ record { client = member; poll = ready (received (0 ∷ 0 ∷ 0 ∷ 7 ∷ codes "hi") member ∷ []) }
    ∷ record { client = record member { running = false }; poll = timed_out }
    ∷ []

receive_thread_lem_example :
    Run passes (receive_thread_func passes).0 (receive_thread_func passes).1
    × All (λ a. Exists (BelongsToPass a) passes) (receive_thread_func passes).0
receive_thread_lem_example = receive_thread_lem passes

heard : receive_thread_func passes ≡ (
  callback 1 (codes "hi") ∷ send_to_group (codes "239.255.0.1") 30001 (codes "ACK:7") ∷ [],
  false,
)
unfolding receive_thread_func receive_pass receive_all receive_from receive ntohl lookup
    format_unsigned send_ack handle_reliable_message handle_multicast_message after_poll
heard = refl
