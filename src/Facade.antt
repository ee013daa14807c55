-- ===== src/Facade.antt =====
-- server_lib/server.cpp: the class that an application uses, which forwards to the two managers. A message
-- is a shared pointer: `none` where it is null.
use asio_kcp.Prelude.{ℕ, Bool, List, [], ◌∷◌, Option, none, some, Bytes}
use asio_kcp.Prelude.Int.{ℤ}
use asio_kcp.Kcp.{Kcp}
use asio_kcp.Server.{Effect, Endpoint}
use asio_kcp.Server.Manager
use asio_kcp.Server.Manager.{Manager, Exit}
use asio_kcp.UdpMulticast
use asio_kcp.UdpMulticast.{UdpMulticastManager, Datagram}

pub record Server (Cb : Type 0) : Type 0 where
  pub connection_manager : Manager Cb
  pub multicast_manager : UdpMulticastManager

module _ {Cb : Type 0} where
  -- The constructor.
  unfoldable pub start : Server Cb
  unfolding Manager.start UdpMulticast.create
  start = record { connection_manager = Manager.start; multicast_manager = UdpMulticast.create }

  unfoldable pub stop : Server Cb → Server Cb × List Effect × Exit
  unfolding Manager.stop_all UdpMulticast.stop
  stop s =
      let r = Manager.stop_all s.connection_manager in
      (
        record {
          connection_manager = r.manager;
          multicast_manager = UdpMulticast.stop s.multicast_manager;
        },
        r.effects,
        r.exit,
      )

  unfoldable pub force_disconnect : ℕ → Server Cb → Server Cb × List Effect
  unfolding Manager.force_disconnect
  force_disconnect conv s =
      let r = Manager.force_disconnect conv s.connection_manager in
      (record s { connection_manager = r.manager }, r.effects)

  unfoldable pub create_multicast_group :
      (Bytes → ℕ → Option Endpoint) → Bytes → ℕ → Bytes × ℕ → Server Cb → Server Cb × ℕ
  unfolding UdpMulticast.create_group
  create_multicast_group open_socket addr port random s =
      let (m, id) = UdpMulticast.create_group open_socket addr port random s.multicast_manager in
      (record s { multicast_manager = m }, id)

  unfoldable pub delete_multicast_group : ℕ → Server Cb → Server Cb × Bool
  unfolding UdpMulticast.delete_group
  delete_multicast_group group_id s =
      let (m, done) = UdpMulticast.delete_group group_id s.multicast_manager in
      (record s { multicast_manager = m }, done)

  -- A null or an empty message is not sent.
  unfoldable pub send_msg_to_multicast_group :
      (Datagram → Bool) → ℕ → Option Bytes → Server Cb → List Datagram
  unfolding UdpMulticast.send_to_group
  send_msg_to_multicast_group accepts group_id none s = []
  send_msg_to_multicast_group accepts group_id (some []) s = []
  send_msg_to_multicast_group accepts group_id (some (b ∷ bs)) s =
      UdpMulticast.send_to_group accepts group_id (b ∷ bs) s.multicast_manager

  unfoldable pub send_reliable_msg_to_multicast_group :
      (Datagram → Bool) → ℕ → Option Bytes → Server Cb → Server Cb × List Datagram
  unfolding UdpMulticast.send_reliable_to_group
  send_reliable_msg_to_multicast_group accepts group_id none s = (s, [])
  send_reliable_msg_to_multicast_group accepts group_id (some []) s = (s, [])
  send_reliable_msg_to_multicast_group accepts group_id (some (b ∷ bs)) s =
      let (m, sent) =
        UdpMulticast.send_reliable_to_group accepts group_id (b ∷ bs) s.multicast_manager in
      (record s { multicast_manager = m }, sent)

  unfoldable pub get_multicast_group_info : (Endpoint → Bytes) → ℕ → Server Cb → Bytes
  unfolding UdpMulticast.get_group_info
  get_multicast_group_info to_string group_id s =
      UdpMulticast.get_group_info to_string group_id s.multicast_manager

module _ (kcp : Kcp) where
  open kcp use {Cb}

  unfoldable pub send_msg : ℕ → Bytes → Server Cb → Server Cb × ℤ
  unfolding Manager.send_msg
  send_msg conv msg s =
      let (m, result) = Manager.send_msg kcp conv msg s.connection_manager in
      (record s { connection_manager = m }, result)
