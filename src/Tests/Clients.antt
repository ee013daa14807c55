-- ===== src/Tests/Clients.antt =====
-- A client in the connect stage, and one with a block of KCP.
use mathlib.Core.List.{foldl}
use asio_kcp.Prelude.{
  ℕ, ◌<◌, ◌≡◌, refl, true, false, List, [], ◌∷◌, some, codes, arith, length, inl, inr,
}
use asio_kcp.Prelude.Int.{pos, negsuc}
use asio_kcp.ConnectPacket.{making_connect_packet, making_send_back_conv_packet}
use asio_kcp.Server.{send_to}
use asio_kcp.Server.Connection
use asio_kcp.Server.Container
use asio_kcp.Server.Manager
use asio_kcp.Client
use asio_kcp.Client.{
  Client, Outcome, ConnectCalls, Target, try_again, datagram, send_to_server, event, connect,
  returned, null_pointer,
}
use asio_kcp.Client.Queue.{size}
use asio_kcp.Client.Verdict.{IsValid, EndsConnect, GoesOn, Tells, update_lem, verdict_null_pointer}
use asio_kcp.Client.Connect.{Connects, connect_async_lem}
use asio_kcp.Client.Handshake.{handshake_lem}
use asio_kcp.Client.Reports.{Whenever}
use asio_kcp.Client.Messages.{send_order, send_each, update_returns, HasResult, TakesOff}
use asio_kcp.ClientWrap.{ClientWrap, Tick}
use asio_kcp.ClientWrap.Waiting.{ComesLate, Ends, connect_loop-Ends}
use asio_kcp.Tests.{Block, toy, home, empty_server, empty_server-IsValid, connecting, data_packet}

connecting-IsValid : IsValid connecting
connecting-IsValid = record { connecting = λ h. (refl, refl); connected = λ h. cc }

abbrev connected : Client Block
connected = record connecting {
  in_connect_stage = false;
  connect_succeed = true;
  p_kcp = some (1001, []);
  send_msg_queue = codes "one" ∷ [];
}

connected-IsValid : IsValid connected
connected-IsValid = record { connecting = λ h. cc; connected = λ h. (((1001, []), refl), refl) }

handshake_lem_example :
    let r = Manager.handle_udp_receive_from toy false home making_connect_packet empty_server in
    let waits = record connecting { last_send_connect_msg_time = 100001 } in
    (Client.update toy 5 100001 try_again connecting
      ≡ some (record {
        client = waits;
        effects = send_to_server making_connect_packet ∷ [];
        exit = returned;
      }))
    × (r.effects ≡ send_to home (making_send_back_conv_packet 1001) ∷ [])
    × (Container.find_by_conv 1001 r.manager.connections ≡ some (Connection.create toy 1001 home))
    × (Client.update toy 5 100005 (datagram (making_send_back_conv_packet 1001)) waits
        ≡ some (record {
          client = record waits {
            in_connect_stage = false;
            connect_succeed = true;
            p_kcp = some (1001, []);
          };
          effects = event 1001 connect (codes "connect succeed") ∷ [];
          exit = returned;
        }))
unfolding Client.connect_timeout Client.need_send_connect_packet
handshake_lem_example =
    handshake_lem toy 5 100001 100005 connecting empty_server home refl refl refl refl refl refl
      (omega arith) refl empty_server-IsValid

update_lem_example :
    Whenever
      (Tells toy connecting)
      (Client.update toy 5 100005 (datagram (making_send_back_conv_packet 1001)) connecting)
update_lem_example =
    update_lem toy 5 100005 (datagram (making_send_back_conv_packet 1001)) connecting
      connecting-IsValid refl

abbrev without_callback : Client Block
without_callback = record connecting { has_event_func = false }

verdict_null_pointer_example :
    (r : Outcome Block) × ((Client.update toy 5 200000 try_again without_callback ≡ some r)
      × (EndsConnect toy 200000 try_again without_callback → r.exit ≡ null_pointer)
      × (¬ EndsConnect toy 200000 try_again without_callback → GoesOn toy r))
verdict_null_pointer_example =
    verdict_null_pointer toy 5 200000 try_again without_callback refl refl

-- Here the connect has timed out.
timed_out : EndsConnect toy 200000 try_again without_callback
unfolding Client.connect_timeout
timed_out = inl refl

abbrev good_calls : ConnectCalls
good_calls = record {
  inet_pton = some 0x7f000001;
  socket = some 4;
  get_flags = true;
  set_non_block = true;
  udp_connect = true;
}

abbrev new_client : Client Block
new_client = record connecting { in_connect_stage = false; udp_socket = negsuc 0 }

new_client-IsValid : IsValid new_client
new_client-IsValid = record { connecting = λ h. cc; connected = λ h. cc }

abbrev local_server : Target
local_server = record {
  udp_port_bind = pos 23456;
  server_ip = codes "127.0.0.1";
  server_port = pos 12345;
}

connect_async_lem_example :
    Connects local_server 77 new_client (Client.connect_async local_server good_calls 77 new_client)
connect_async_lem_example =
    connect_async_lem local_server good_calls 77 new_client new_client-IsValid

send_order_example :
    Client.do_send_msg_in_queue toy
      (1001, [])
      (send_each (codes "two" ∷ codes "three" ∷ []) connected)
    ≡ (
      record connected { send_msg_queue = [] },
      foldl
          (λ block msg. (toy.send msg block).0)
          (1001, [])
          (codes "one" ∷ codes "two" ∷ codes "three" ∷ []),
    )
send_order_example = send_order toy (codes "two" ∷ codes "three" ∷ []) (1001, []) connected

abbrev waiting : Block → ℕ
waiting cb = length cb.1

toy-TakesOff : TakesOff toy waiting
toy-TakesOff size (conv, []) msg e = cc
toy-TakesOff size (conv, m ∷ ms) msg e = omega arith

one_waits :
    (cb : Block)
    → connected.p_kcp ≡ some cb
    → waiting (toy.input data_packet (Client.send_all toy connected.send_msg_queue cb)) < 2
unfolding Client.send_all
one_waits (conv, []) e = omega arith
one_waits (conv, m ∷ ms) e = cc

update_returns_example : HasResult (Client.update toy 2 100010 (datagram data_packet) connected)
update_returns_example =
    update_returns toy waiting 2 100010 (datagram data_packet) connected toy-TakesOff one_waits

abbrev one : List ℕ
one = 1 ∷ []

abbrev more : List ℕ
more = 2 ∷ 3 ∷ []

abbrev waiting_wrap : ClientWrap Block
waiting_wrap = record {
  client = connecting;
  connect_result = pos 1;
  has_event_func = false;
  workthread_want_stop = false;
  workthread_stopped = false;
  workthread_start = false;
  kcp_last_update_clock = 0;
}

abbrev ticks : List Tick
ticks = (100001, try_again) ∷ (103000, datagram []) ∷ (105001, try_again) ∷ []

late : ComesLate connecting ticks
unfolding Client.connect_timeout
late = inr (inr (inl refl))

connect_loop-Ends_example : Ends toy 9 ticks waiting_wrap
connect_loop-Ends_example = connect_loop-Ends toy 9 ticks waiting_wrap refl refl refl refl late
