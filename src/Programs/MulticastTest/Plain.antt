-- ===== src/Programs/MulticastTest/Plain.antt =====
-- multicast_test_client/multicast_client.cpp: the client without multicast. Its `main` is that of the other.
use asio_kcp.Prelude.{ℕ, ◌+◌, ◌%◌, Bool, true, false, Bytes, length, u64_mod}
use asio_kcp.Client.{EventType, connect, connect_failed, disconnect, rcv_msg}

-- The global variables.
pub record PlainClient : Type 0 where
  pub connected : Bool
  pub running : Bool
  pub recv_msgs : ℕ
  pub recv_bytes : ℕ

unfoldable pub client_event_callback : EventType → Bytes → PlainClient → PlainClient
client_event_callback connect msg c = record c { connected = true }
client_event_callback connect_failed msg c = c
client_event_callback disconnect msg c = record c { connected = false; running = false }
client_event_callback rcv_msg msg c = record c {
  recv_msgs = (c.recv_msgs + 1) % u64_mod;
  recv_bytes = (c.recv_bytes + length msg) % u64_mod;
}
