-- ===== src/Server/Connection.antt =====
-- server_lib/connection.cpp: a connection, which owns a KCP block. The weak pointer to the manager is
-- an argument of the methods: `none` when it has expired, else the clock of the manager.
use asio_kcp.Prelude.{
  ℕ, ◌+◌, ◌-◌, ◌*◌, ◌%◌, Bool, false, List, [], ◌∷◌, ◌++◌, Option, none, some, Bytes, codes,
  u32_mod, ltb, ◌==◌, if◌then◌else◌,
}
use asio_kcp.ConnectPacket.{making_disconnect_packet}
use asio_kcp.Kcp.{Kcp}
use asio_kcp.Server.{Endpoint, Effect, send_to, event, disconnect, rcv_msg, connection_timeout_time}

pub record Connection (Cb : Type 0) : Type 0 where
  pub conv : ℕ
  pub p_kcp : Cb
  pub udp_remote_endpoint : Endpoint
  pub last_packet_recv_time : ℕ

-- A call on `ptr` if the weak pointer can be locked.
abbrev pub locked : Option ℕ → List Effect → List Effect
locked none effects = []
locked (some clock) effects = effects

unfoldable pub get_cur_clock : Option ℕ → ℕ
get_cur_clock none = 0
get_cur_clock (some clock) = clock

unfoldable pub get_timeout_time : ℕ
get_timeout_time = connection_timeout_time

module _ {Cb : Type 0} where
  unfoldable pub send_udp_package : Option ℕ → Connection Cb → Bytes → List Effect
  send_udp_package manager c buf = locked manager (send_to c.udp_remote_endpoint buf ∷ [])

  unfoldable pub set_udp_remote_endpoint : Endpoint → Connection Cb → Connection Cb
  set_udp_remote_endpoint ep c = record c { udp_remote_endpoint = ep }

  -- The destructor. What becomes of the fields of the dead object is left out.
  unfoldable pub clean : Option ℕ → Connection Cb → List Effect
  unfolding send_udp_package
  clean manager c = send_udp_package manager c (making_disconnect_packet c.conv)

  -- The difference of two uint32_t wraps.
  unfoldable pub is_timeout : Option ℕ → Connection Cb → Bool
  unfolding get_cur_clock get_timeout_time
  is_timeout manager c =
      if c.last_packet_recv_time == 0
      then false
      else ltb get_timeout_time
          ((get_cur_clock manager + u32_mod - c.last_packet_recv_time) % u32_mod)

  unfoldable pub do_timeout : Option ℕ → Connection Cb → List Effect
  do_timeout manager c = locked manager (event c.conv disconnect (codes "timeout") ∷ [])

module _ (kcp : Kcp) where
  open kcp use {Cb}

  unfoldable pub init_kcp : ℕ → Cb
  init_kcp conv = kcp.nodelay 1 5 1 1 (kcp.create conv)

  unfoldable pub create : ℕ → Endpoint → Connection Cb
  unfolding init_kcp
  create conv ep = record {
    conv = conv;
    p_kcp = init_kcp conv;
    udp_remote_endpoint = ep;
    last_packet_recv_time = 0;
  }

  -- A failed send is only logged.
  unfoldable pub send_kcp_msg : Bytes → Connection Cb → Connection Cb
  send_kcp_msg msg c = record c { p_kcp = (kcp.send msg c.p_kcp).0 }

  -- What `input` does with a result of `ikcp_recv`; zero bytes are no message.
  unfoldable pub received : Option ℕ → ℕ → Option Bytes → List Effect
  received manager conv none = []
  received manager conv (some []) = []
  received manager conv (some (b ∷ bs)) = locked manager (event conv rcv_msg (b ∷ bs) ∷ [])

  unfoldable pub input : Option ℕ → Bytes → Endpoint → Connection Cb → Connection Cb × List Effect
  unfolding get_cur_clock received
  input manager udp_data ep c =
      let (cb, result) = kcp.recv (1024 * 1000) (kcp.input udp_data c.p_kcp) in
      (
        record c {
          p_kcp = cb;
          udp_remote_endpoint = ep;
          last_packet_recv_time = get_cur_clock manager;
        },
        received manager c.conv result,
      )

  -- `udp_output` sends what KCP puts out.
  unfoldable pub udp_output : Option ℕ → Connection Cb → List Bytes → List Effect
  unfolding send_udp_package
  udp_output manager c [] = []
  udp_output manager c (buf ∷ bufs) = send_udp_package manager c buf ++ udp_output manager c bufs

  unfoldable pub update_kcp : Option ℕ → ℕ → Connection Cb → Connection Cb × List Effect
  unfolding udp_output
  update_kcp manager clock c =
      let (cb, bufs) = kcp.update clock c.p_kcp in
      (record c { p_kcp = cb }, udp_output manager c bufs)
