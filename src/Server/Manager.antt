-- ===== src/Server/Manager.antt =====
-- server_lib/connection_manager.cpp: the handlers that the socket and the timer call, and the methods
-- that `server` forwards to. An operation that is pending on the socket or the timer is a flag.
use asio_kcp.Prelude.{
  ℕ, ◌%◌, ◌/◌, ◌*◌, ◌+◌, Bool, true, false, not, ◌&&◌, List, [], ◌∷◌, Option, none, some, Bytes,
  codes, length, ltb, u32_mod, u64_mod, if◌then◌else◌,
}
use asio_kcp.Prelude.Int.{ℤ, pos, negsuc}
use asio_kcp.Prelude.Maps.{insert}
use asio_kcp.ConnectPacket.{is_connect_packet, making_send_back_conv_packet}
use asio_kcp.Kcp.{Kcp}
use asio_kcp.Server.{Endpoint, Effect, send_to, event, disconnect}
use asio_kcp.Server.Connection
use asio_kcp.Server.Connection.{Connection}
use asio_kcp.Server.Container
use asio_kcp.Server.Container.{Container}

pub record Manager (Cb : Type 0) : Type 0 where
  pub stopped : Bool
  pub socket_open : Bool
  pub receiving : Bool
  pub timing : Bool
  pub udp_remote_endpoint : Endpoint
  pub cur_clock : ℕ
  pub connections : Container Cb

-- How a call ends: by its end, by the exception of `assert_check`, or by that of a socket that is
-- closed.
pub data Exit : Type 0 where
  returned assert_exception system_error : Exit

pub record Outcome (Cb : Type 0) : Type 0 where
  pub manager : Manager Cb
  pub effects : List Effect
  pub exit : Exit

-- Milliseconds of the time of day, in 32 bits.
unfoldable pub iclock64 : ℕ → ℕ → ℕ
iclock64 sec usec = (sec * 1000 + usec / 1000) % u64_mod

unfoldable pub iclock : ℕ → ℕ → ℕ
unfolding iclock64
iclock sec usec = iclock64 sec usec % u32_mod

module _ {Cb : Type 0} where
  -- `shared_from_this`, and the clock that `get_cur_clock` returns.
  abbrev pub self : Manager Cb → Option ℕ
  self m = some m.cur_clock

  unfoldable pub hook_udp_async_receive : Manager Cb → Manager Cb
  hook_udp_async_receive m = if m.stopped then m else record m { receiving = true }

  unfoldable pub hook_kcp_timer : Manager Cb → Manager Cb
  hook_kcp_timer m = if m.stopped then m else record m { timing = true }

  -- The constructor.
  unfoldable pub start : Manager Cb
  unfolding hook_udp_async_receive hook_kcp_timer Container.empty
  start = hook_kcp_timer (
      hook_udp_async_receive (record {
        stopped = false;
        socket_open = true;
        receiving = false;
        timing = false;
        udp_remote_endpoint = record { address = 0; port = 0 };
        cur_clock = 0;
        connections = Container.empty;
      }))

  unfoldable pub stop_all : Manager Cb → Outcome Cb
  unfolding Container.stop_all
  stop_all m =
      let (s, effects) = Container.stop_all (self m) m.connections in
      record {
        manager = record m { stopped = true; socket_open = false; connections = s };
        effects = effects;
        exit = if m.socket_open then returned else system_error;
      }

  unfoldable pub force_disconnect : ℕ → Manager Cb → Outcome Cb
  unfolding Container.remove_connection Container.find_by_conv
  force_disconnect conv m = elim (Container.find_by_conv conv m.connections) [
    | none ↦ record { manager = m; effects = []; exit = returned }
    | some c ↦
        let (s, effects) = Container.remove_connection (self m) conv m.connections in
        record {
          manager = record m { connections = s };
          effects = event conv disconnect (codes "server force disconnect") ∷ effects;
          exit = returned;
        }
  ]

module _ (kcp : Kcp) where
  open kcp use {Cb}

  -- The reply leaves before the connection is there.
  unfoldable pub handle_connect_packet : Manager Cb → Outcome Cb
  unfolding Container.get_new_conv Container.add_new_connection
  handle_connect_packet m =
      let (s, conv) = Container.get_new_conv m.connections in
      let (s', effects) = Container.add_new_connection kcp (self m) conv m.udp_remote_endpoint s in
      if m.socket_open
      then record {
        manager = record m { connections = s' };
        effects = send_to m.udp_remote_endpoint (making_send_back_conv_packet conv) ∷ effects;
        exit = returned;
      }
      else record { manager = record m { connections = s }; effects = []; exit = system_error }

  abbrev pub put : ℕ → Connection Cb → Manager Cb → Manager Cb
  put conv c m = record m {
    connections = record (m.connections) { connections = insert conv c m.connections.connections };
  }

  -- What a packet does that names the connection `conv`.
  unfoldable pub deliver : ℕ → Bytes → Manager Cb → Outcome Cb
  unfolding Container.find_by_conv Connection.input
  deliver conv udp_data m = elim (Container.find_by_conv conv m.connections) [
    | none ↦ record { manager = m; effects = []; exit = returned }
    | some c ↦
        let (c', effects) = Connection.input kcp (self m) udp_data m.udp_remote_endpoint c in
        record { manager = put conv c' m; effects = effects; exit = returned }
  ]

  unfoldable pub handle_kcp_packet : Bytes → Manager Cb → Outcome Cb
  unfolding deliver
  handle_kcp_packet udp_data m = elim (kcp.get_conv udp_data) [
    | none ↦ record { manager = m; effects = []; exit = assert_exception }
    | some conv ↦ deliver conv udp_data m
  ]

  -- The label END, which an exception does not reach.
  abbrev pub end_receive : Outcome Cb → Outcome Cb
  end_receive r = elim r.exit [
    | returned ↦ record r { manager = hook_udp_async_receive r.manager }
    | _ ↦ r
  ]

  -- `error`, and what the receive has put in `udp_remote_endpoint_` and `udp_data_`.
  unfoldable pub handle_udp_receive_from : Bool → Endpoint → Bytes → Manager Cb → Outcome Cb
  unfolding handle_connect_packet handle_kcp_packet hook_udp_async_receive
  handle_udp_receive_from error ep udp_data m =
      let m' = record m { receiving = false; udp_remote_endpoint = ep } in
      end_receive (
        if not error && ltb 0 (length udp_data)
        then if is_connect_packet udp_data
          then handle_connect_packet m'
          else handle_kcp_packet udp_data m'
        else record { manager = m'; effects = []; exit = returned })

  unfoldable pub handle_kcp_time : ℕ → Manager Cb → Outcome Cb
  unfolding hook_kcp_timer Container.update_all_kcp
  handle_kcp_time clock m =
      let m' = record (hook_kcp_timer (record m { timing = false })) { cur_clock = clock } in
      let (s, effects) = Container.update_all_kcp kcp (some clock) clock m'.connections in
      record { manager = record m' { connections = s }; effects = effects; exit = returned }

  unfoldable pub send_msg : ℕ → Bytes → Manager Cb → Manager Cb × ℤ
  unfolding Container.find_by_conv Connection.send_kcp_msg
  send_msg conv msg m = elim (Container.find_by_conv conv m.connections) [
    | none ↦ (m, negsuc 0)
    | some c ↦ (put conv (Connection.send_kcp_msg kcp msg c) m, pos 0)
  ]
