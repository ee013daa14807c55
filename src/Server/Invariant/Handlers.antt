-- ===== src/Server/Invariant/Handlers.antt =====
-- The handlers of the socket, and the calls that change one connection, keep the invariant.
use asio_kcp.Prelude.{
  if◌then◌else◌, not, ◌&&◌, ltb, length, ap, ◌∙◌, ◌%◌, Bool-cases, ℕ, ◌+◌, ◌<◌, ◌≡◌, refl, Bool,
  true, false, some, Bytes, arith, u32_mod, Option-cases, inl, inr,
}
use asio_kcp.Prelude.Maps.{lookup}
use asio_kcp.Kcp.{Kcp}
use asio_kcp.Server.{Endpoint}
use asio_kcp.Server.Connection
use asio_kcp.Server.Connection.{Connection}
use asio_kcp.Server.Container
use asio_kcp.Server.Container.{Container}
use asio_kcp.Server.Manager
use asio_kcp.Server.Manager.{Manager, Outcome, Exit, returned, assert_exception, system_error}
use asio_kcp.ConnectPacket.{is_connect_packet}
use asio_kcp.Server.Invariant.{
  ContainerIsValid, IsValid, Entries-later, insert-IsValid, find_by_conv-conv,
}

module _ (kcp : Kcp) where
  open kcp use {Cb}

  pub found-not-stopped :
      (conv : ℕ) (m : Manager Cb) {c : Connection Cb}
      → IsValid m
      → Container.find_by_conv conv m.connections ≡ some c
      → m.stopped ≡ false
  unfolding Container.find_by_conv lookup
  found-not-stopped conv m v e = elim (Bool-cases m.stopped) [
    | inl h ↦ cc (ap (lookup conv) (v.stopped_empty h))
    | inr h ↦ h
  ]

  put-IsValid :
      (conv : ℕ) (c c' : Connection Cb) (m : Manager Cb)
      → c'.conv ≡ c.conv
      → IsValid m
      → Container.find_by_conv conv m.connections ≡ some c
      → IsValid (Manager.put kcp conv c' m)
  put-IsValid conv c c' m e v f =
      let (low, high, same) = find_by_conv-conv conv m.connections v.container f in
      let running = found-not-stopped conv m v f in
      record {
        container = insert-IsValid conv c' m.connections low high (e ∙ same) v.container;
        stopped_empty = λ h. cc;
        closed = v.closed;
        timed = v.timed;
      }

  -- With the next conv a new one, a connection is added under it.
  connect-IsValid :
      (m : Manager Cb)
      → m.connections.static_cur_conv + 1 < u32_mod
      → IsValid m
      → IsValid (Manager.handle_connect_packet kcp m).manager
  unfolding Manager.handle_connect_packet Connection.create
  connect-IsValid m h v =
      let s = record (m.connections) {
        static_cur_conv = (m.connections.static_cur_conv + 1) % u32_mod;
      } in
      let valid : ContainerIsValid s = record {
        ordered = v.container.ordered;
        given_out = Entries-later _ _ m.connections.connections (omega arith) v.container.given_out;
        above = omega (arith, v.container.above);
      } in
      let added =
        insert-IsValid s.static_cur_conv
          (Connection.create kcp s.static_cur_conv m.udp_remote_endpoint) s
          (omega (arith, v.container.above)) (omega arith) refl valid in
      elim (Bool-cases m.socket_open) [
        | inl e ↦
            rw (e, Manager.handle_connect_packet)
              (record {
                container = added;
                stopped_empty = λ st. cc (v.closed e);
                closed = λ _. v.closed e;
                timed = v.timed;
              })
        | inr e ↦
            rw (e, Manager.handle_connect_packet)
              (record {
                container = valid;
                stopped_empty = v.stopped_empty;
                closed = λ h. cc;
                timed = v.timed;
              })
      ]

  deliver-IsValid :
      (conv : ℕ) (udp_data : Bytes) (m : Manager Cb)
      → IsValid m
      → IsValid (Manager.deliver kcp conv udp_data m).manager
  unfolding Manager.deliver Connection.input
  deliver-IsValid conv udp_data m v =
      elim (Option-cases (Container.find_by_conv conv m.connections)) [
        | inl e ↦ rw (e, Manager.deliver) v
        | inr (c, e) ↦ rw (e, Manager.deliver) (put-IsValid conv c _ m refl v e)
      ]

  pub send_msg-IsValid :
      (conv : ℕ) (msg : Bytes) (m : Manager Cb)
      → IsValid m
      → IsValid (Manager.send_msg kcp conv msg m).0
  unfolding Manager.send_msg Connection.send_kcp_msg
  send_msg-IsValid conv msg m v = elim (Option-cases (Container.find_by_conv conv m.connections)) [
    | inl e ↦ rw (e, Manager.send_msg) v
    | inr (c, e) ↦ rw (e, Manager.send_msg) (put-IsValid conv c _ m refl v e)
  ]

  -- The invariant reads four fields.
  pub same-IsValid :
      (m m' : Manager Cb)
      → m'.stopped ≡ m.stopped
      → m'.socket_open ≡ m.socket_open
      → m'.timing ≡ m.timing
      → m'.connections ≡ m.connections
      → IsValid m
      → IsValid m'
  same-IsValid m m' s o t c v = record {
    container = rw c v.container;
    stopped_empty = rw (s, c) v.stopped_empty;
    closed = rw (s, o) v.closed;
    timed = rw (s, t) v.timed;
  }

  hook-IsValid : (m : Manager Cb) → IsValid m → IsValid (Manager.hook_udp_async_receive m)
  unfolding Manager.hook_udp_async_receive
  hook-IsValid m v =
      same-IsValid m (Manager.hook_udp_async_receive m) (ground arith) (ground arith) (ground arith)
        (ground arith) v

  end_receive-IsValid :
      (r : Outcome Cb) → IsValid r.manager → IsValid (Manager.end_receive kcp r).manager
  end_receive-IsValid r v = by_exit r.exit
    where
      by_exit :
          (x : Exit)
          → IsValid {Cb = Cb} (
              let r' : Outcome Cb = elim x [
                | returned ↦ record r { manager = Manager.hook_udp_async_receive r.manager }
                | _ ↦ r
              ] in
              r'.manager)
      by_exit returned = hook-IsValid r.manager v
      by_exit assert_exception = v
      by_exit system_error = v

  pub if-IsValid :
      (b : Bool) (r r' : Outcome Cb)
      → IsValid r.manager
      → IsValid r'.manager
      → IsValid (if b then r else r').manager
  if-IsValid true r r' v v' = v
  if-IsValid false r r' v v' = v'

  handle_kcp_packet-IsValid :
      (udp_data : Bytes) (m : Manager Cb)
      → IsValid m
      → IsValid (Manager.handle_kcp_packet kcp udp_data m).manager
  unfolding Manager.handle_kcp_packet
  handle_kcp_packet-IsValid udp_data m v = elim (Option-cases (kcp.get_conv udp_data)) [
    | inl e ↦ rw (e, Manager.handle_kcp_packet) v
    | inr (conv, e) ↦ rw (e, Manager.handle_kcp_packet) (deliver-IsValid conv udp_data m v)
  ]

  pub handle_udp_receive_from-IsValid :
      (error : Bool) (ep : Endpoint) (udp_data : Bytes) (m : Manager Cb)
      → m.connections.static_cur_conv + 1 < u32_mod
      → IsValid m
      → IsValid (Manager.handle_udp_receive_from kcp error ep udp_data m).manager
  unfolding Manager.handle_udp_receive_from
  handle_udp_receive_from-IsValid error ep udp_data m h v =
      let m' = record m { receiving = false; udp_remote_endpoint = ep } in
      let v' = same-IsValid m m' refl refl refl refl v in
      end_receive-IsValid _ (
        if-IsValid (not error && ltb 0 (length udp_data)) _ _
          (if-IsValid (is_connect_packet udp_data) _ _ (connect-IsValid m' h v')
            (handle_kcp_packet-IsValid udp_data m' v'))
          v')
