-- ===== src/Server.antt =====
-- server_lib: what its classes share (kcp_typedef.hpp, and the names of Boost.Asio that they use).
-- A callback to the application and a datagram to the socket are effects, in the order in which they
-- happen. The callback does not call the server back before it returns, and a send does not fail.
pub mod Connection
pub mod Container
pub mod Manager
pub mod Steps
pub mod Invariant
pub mod Handshake
pub mod Routing
pub mod Timeouts
pub mod Shutdown
pub mod Events
pub mod Calls
pub mod Sessions
use asio_kcp.Prelude.{ℕ, ◌+◌, ◌*◌, ◌^◌, List, Bytes, codes}

-- `udp::endpoint`, of an IPv4 address.
pub record Endpoint : Type 0 where
  pub address : ℕ
  pub port : ℕ

-- `eEventType`.
pub data EventType : Type 0 where
  connect disconnect rcv_msg lag_notify count_of_event_type : EventType

unfoldable pub event_type_str : EventType → Bytes
event_type_str connect = codes "eConnect"
event_type_str disconnect = codes "eDisconnect"
event_type_str rcv_msg = codes "eRcvMsg"
event_type_str lag_notify = codes "eLagNotify"
event_type_str count_of_event_type = codes "unknown"

-- ASIO_KCP_CONNECTION_TIMEOUT_TIME.
abbrev pub connection_timeout_time : ℕ
connection_timeout_time = 10 * 1000

pub data Effect : Type 0 where
  send_to : Endpoint → Bytes → Effect
  event : ℕ → EventType → Bytes → Effect

unfoldable pub endpoint_to_i : Endpoint → ℕ
endpoint_to_i ep = ep.address * 2 ^ 32 + ep.port
