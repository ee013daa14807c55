-- ===== src/Programs/EchoServer/Echo.antt =====
-- The way of a message through the echo server.
use asio_kcp.Prelude.{
  ap, ◌∙◌, ℕ, ◌<◌, ◌≡◌, refl, false, [], ◌∷◌, Option, none, some, Bytes, length, arith, ◌==◌, ◌*◌,
  if◌then◌else◌,
}
use asio_kcp.ConnectPacket.{is_connect_packet}
use asio_kcp.Kcp.{Kcp}
use asio_kcp.Server.{Endpoint}
use asio_kcp.Server.Connection
use asio_kcp.Server.Connection.{Connection}
use asio_kcp.Server.Container
use asio_kcp.Server.Manager
use asio_kcp.Server.Manager.{Manager, returned}
use asio_kcp.Server.Invariant.{IsValid, find_by_conv-conv}
use asio_kcp.Server.Routing.{put-find_by_conv}
use asio_kcp.Facade
use asio_kcp.Facade.{Server}
use asio_kcp.Programs.EchoServer.{
  EchoServer, manager_of, with_manager, callbacks, handle_datagram, echoed,
}

module _ (kcp : Kcp) where
  open kcp use {Cb}

  callbacks-received :
      (conv clock j : ℕ) (c : Connection Cb) (result : Option Bytes) (m : Manager Cb)
      (s : EchoServer Cb)
      → Container.find_by_conv conv m.connections ≡ some c
      → Container.find_by_conv j
          (manager_of (
            callbacks kcp
              (Connection.received kcp (some clock) conv result)
              (with_manager m s))).connections
        ≡ (if conv == j
            then some (record c { p_kcp = echoed kcp (c.p_kcp, result) })
            else Container.find_by_conv j m.connections)
  unfolding callbacks Connection.received Facade.send_msg Manager.send_msg Connection.send_kcp_msg
  callbacks-received conv clock j c none m s e = ground arith
  callbacks-received conv clock j c (some []) m s e = ground arith
  callbacks-received conv clock j c (some (b ∷ bs)) m s e =
      rw (e, Manager.send_msg) (put-find_by_conv kcp conv j _ m)

  abbrev arrived : Endpoint → Manager Cb → Manager Cb
  arrived ep m = record m { receiving = false; udp_remote_endpoint = ep }

  handled :
      (conv : ℕ) (ep : Endpoint) (udp_data : Bytes) (c : Connection Cb) (m : Manager Cb)
      → 0 < length udp_data
      → is_connect_packet udp_data ≡ false
      → kcp.get_conv udp_data ≡ some conv
      → Container.find_by_conv conv m.connections ≡ some c
      → let (c', effects) = Connection.input kcp (some m.cur_clock) udp_data ep c in
        Manager.handle_udp_receive_from kcp false ep udp_data m ≡ record {
          manager = Manager.hook_udp_async_receive (Manager.put kcp conv c' (arrived ep m));
          effects = effects;
          exit = returned;
        }
  unfolding Manager.handle_udp_receive_from Manager.handle_kcp_packet Manager.deliver
      Connection.input
  handled conv ep udp_data c m some_data other names found = ground (arith, found, names, other)

  -- The connection when KCP has taken the datagram in, and the manager then.
  taken : Endpoint → Bytes → ℕ → Connection Cb → Connection Cb
  taken ep udp_data clock c = (Connection.input kcp (some clock) udp_data ep c).0

  taken_in : ℕ → Endpoint → Bytes → Connection Cb → Manager Cb → Manager Cb
  taken_in conv ep udp_data c m =
      Manager.hook_udp_async_receive
        (Manager.put kcp conv (taken ep udp_data m.cur_clock c) (arrived ep m))

  taken_in-find :
      (conv j : ℕ) (ep : Endpoint) (udp_data : Bytes) (c : Connection Cb) (m : Manager Cb)
      → Container.find_by_conv j (taken_in conv ep udp_data c m).connections ≡ (
          if conv == j
          then some (taken ep udp_data m.cur_clock c)
          else Container.find_by_conv j m.connections)
  unfolding taken_in Manager.hook_udp_async_receive
  taken_in-find conv j ep udp_data c m =
      ground (arith, put-find_by_conv kcp conv j (taken ep udp_data m.cur_clock c) (arrived ep m))

  datagram-callbacks :
      (conv : ℕ) (ep : Endpoint) (udp_data : Bytes) (c : Connection Cb) (s : EchoServer Cb)
      → c.conv ≡ conv
      → 0 < length udp_data
      → is_connect_packet udp_data ≡ false
      → kcp.get_conv udp_data ≡ some conv
      → Container.find_by_conv conv (manager_of s).connections ≡ some c
      → let clock = (manager_of s).cur_clock in
        let result = (kcp.recv (1024 * 1000) (kcp.input udp_data c.p_kcp)).1 in
        handle_datagram kcp ep udp_data s
        ≡ callbacks kcp
            (Connection.received kcp (some clock) conv result)
            (with_manager (taken_in conv ep udp_data c (manager_of s)) s)
  unfolding handle_datagram taken_in taken Connection.input
  datagram-callbacks conv ep udp_data c s same some_data other names found =
      ap (λ r. callbacks kcp r.effects (with_manager r.manager s))
        (handled conv ep udp_data c (manager_of s) some_data other names found)
      ∙ rw same refl

  -- A datagram of KCP for a connection of the echo server: what KCP makes of it is handed back to KCP for the same
  -- connection, and so goes to the client that it came from, whose address is that of the datagram. No other
  -- connection is changed. A datagram that completes no message is only taken in. This holds in a valid state, if
  -- the datagram is not empty and no connect packet, and names a conv that has a connection.
  pub echo_lem :
      (conv : ℕ) (ep : Endpoint) (udp_data : Bytes) (c : Connection Cb) (s : EchoServer Cb)
      → IsValid (manager_of s)
      → 0 < length udp_data
      → is_connect_packet udp_data ≡ false
      → kcp.get_conv udp_data ≡ some conv
      → Container.find_by_conv conv (manager_of s).connections ≡ some c
      → let received = kcp.recv (1024 * 1000) (kcp.input udp_data c.p_kcp) in
        (j : ℕ)
        → Container.find_by_conv j (manager_of (handle_datagram kcp ep udp_data s)).connections ≡ (
            if conv == j
            then some (record c {
              p_kcp = echoed kcp received;
              udp_remote_endpoint = ep;
              last_packet_recv_time = (manager_of s).cur_clock;
            })
            else Container.find_by_conv j (manager_of s).connections)
  echo_lem conv ep udp_data c s v some_data other names found j =
      let m = manager_of s in
      let result = (kcp.recv (1024 * 1000) (kcp.input udp_data c.p_kcp)).1 in
      let (low, high, same) = find_by_conv-conv conv m.connections v.container found in
      let m' = taken_in conv ep udp_data c m in
      ap (λ r. Container.find_by_conv j (manager_of r).connections)
        (datagram-callbacks conv ep udp_data c s same some_data other names found)
      ∙ callbacks-received conv m.cur_clock j (taken ep udp_data m.cur_clock c) result m' s
          (taken_in-find conv conv ep udp_data c m ∙ ground arith)
      ∙ rw (taken_in-find conv j ep udp_data c m) (unfold taken Connection.input in ground arith)
