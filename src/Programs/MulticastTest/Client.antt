-- ===== src/Programs/MulticastTest/Client.antt =====
-- udp_multicast_test_client/multicast_client.cpp: the callbacks of the client.
use asio_kcp.Prelude.{
  ℕ, zero, ◌+◌, ◌%◌, ◌^◌, Bool, true, false, Option, none, some, Bytes, codes, length, drop,
  starts_with, ◌==◌, u32_mod, u64_mod, if◌then◌else◌,
}
use asio_kcp.Prelude.Int.{pos}
use asio_kcp.Client.{EventType, connect, connect_failed, disconnect, rcv_msg}
use asio_kcp.MulticastClient
use asio_kcp.MulticastClient.{MulticastClient, JoinCalls}
use asio_kcp.Programs.MulticastTest.{find_char, between, stoi, cast}

-- Where the two colons are that are looked for; `npos + 1` is 0, but then the second one is not used.
unfoldable pub read_info : Bytes → Option (Option (Bytes × ℕ × ℕ))
unfolding stoi
read_info msg = elim (find_char b':' 10 msg) [
  | none ↦ some none
  | some pos2 ↦ elim (find_char b':' (pos2 + 1) msg) [
    | none ↦ some none
    | some pos3 ↦ elim (stoi (between (pos2 + 1) pos3 msg)) [
      | none ↦ none
      | some port ↦ elim (stoi (drop (pos3 + 1) msg)) [
        | none ↦ none
        | some group_id ↦
            some (some (between 10 pos2 msg, cast (2 ^ 16) port, cast u32_mod group_id))
      ]
    ]
  ]
]

-- The global variables; `none` stands for no multicast client.
pub record TestClient : Type 0 where
  pub connected : Bool
  pub running : Bool
  pub recv_msgs : ℕ
  pub recv_bytes : ℕ
  pub multicast_recv_msgs : ℕ
  pub multicast_recv_bytes : ℕ
  pub multicast_addr : Bytes
  pub multicast_port : ℕ
  pub multicast_group_id : ℕ
  pub multicast_client : Option MulticastClient

unfoldable pub multicast_message_callback : ℕ → Bytes → TestClient → TestClient
multicast_message_callback group_id msg c =
    if group_id == c.multicast_group_id
    then record c {
      multicast_recv_msgs = (c.multicast_recv_msgs + 1) % u64_mod;
      multicast_recv_bytes = (c.multicast_recv_bytes + length msg) % u64_mod;
    }
    else c

-- The first multicast client joins and starts; `created` tells whether its thread could be made.
unfoldable pub joined :
    JoinCalls → Bool → Bytes → ℕ → ℕ → Option MulticastClient → Option MulticastClient
unfolding MulticastClient.create MulticastClient.set_message_callback MulticastClient.join_group
    MulticastClient.start
joined calls created address port group_id (some client) = some client
joined calls created address port group_id none =
    let (client, result) =
      MulticastClient.join_group calls address port group_id
        (MulticastClient.set_message_callback MulticastClient.create) in
    let started = (MulticastClient.start created client).0 in
    some (elim result [ pos zero ↦ started | _ ↦ client ])

-- What a message does that tells of the group.
unfoldable pub told :
    JoinCalls → Bool → Option (Option (Bytes × ℕ × ℕ)) → TestClient → Option TestClient
unfolding joined
told calls created none c = none
told calls created (some none) c = some c
told calls created (some (some (address, port, group_id))) c = some (record c {
  multicast_addr = address;
  multicast_port = port;
  multicast_group_id = group_id;
  multicast_client = joined calls created address port group_id c.multicast_client;
})

-- The callback ends with an exception: `none`.
unfoldable pub client_event_callback :
    JoinCalls → Bool → EventType → Bytes → TestClient → Option TestClient
unfolding told read_info
client_event_callback calls created connect msg c = some (record c { connected = true })
client_event_callback calls created connect_failed msg c = some c
client_event_callback calls created disconnect msg c =
    some (record c { connected = false; running = false })
client_event_callback calls created rcv_msg msg c =
    let c' = record c {
      recv_msgs = (c.recv_msgs + 1) % u64_mod;
      recv_bytes = (c.recv_bytes + length msg) % u64_mod;
    } in
    let after = told calls created (read_info msg) c' in
    if starts_with (codes "MULTICAST:") msg then after else some c'
