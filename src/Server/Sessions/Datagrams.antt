-- ===== src/Server/Sessions/Datagrams.antt =====
-- A datagram at a running server does what its sessions specify.
use asio_kcp.Prelude.{
  ℕ, ◌+◌, ◌-◌, ◌<◌, ◌≡◌, refl, ap, ◌∙◌, sym, true, false, not, ◌&&◌, ltb, List, [], ◌∷◌, Option,
  some, Bytes, length, arith, u32_mod, ◌==◌, if◌then◌else◌, Option-cases, Bool-cases, inl, inr,
}
use asio_kcp.Prelude.Maps.{lookup, lookup-insert, Entries-map}
use asio_kcp.ConnectPacket.{is_connect_packet, making_send_back_conv_packet}
use asio_kcp.Kcp.{Kcp}
use asio_kcp.Server.{Endpoint, Effect, send_to}
use asio_kcp.Server.Connection
use asio_kcp.Server.Connection.{Connection}
use asio_kcp.Server.Container
use asio_kcp.Server.Manager
use asio_kcp.Server.Manager.{Manager, Outcome, returned}
use asio_kcp.Server.Invariant.{IsValid}
use asio_kcp.Server.Handshake.{connect_outcome, fresh}
use asio_kcp.Server.Routing.{put-find_by_conv}
use asio_kcp.Server.Sessions.{
  Sessions, for_convs, for_sessions, specified_datagram, specified_kcp_packet, specified_message,
  heard, opened,
}
use asio_kcp.Server.Sessions.Ranges.{entry, for_convs-ext, for_entries, for_convs-entries}
use asio_kcp.Server.Sessions.Outcomes.{
  listens, bad_outcome, stranger_outcome, message_outcome, opened_lem,
}

module _ {Cb : Type 0} where
  -- What a running server shows of its state.
  pub record Views (m : Manager Cb) (a : Sessions Cb) : Type 0 where
    pub open_socket : m.socket_open ≡ true
    pub sessions : (k : ℕ) → Container.find_by_conv k m.connections ≡ a.session k
    pub last_conv : m.connections.static_cur_conv ≡ a.last
    pub clock : m.cur_clock ≡ a.now
    pub listens : m.receiving ≡ a.listening
    pub goes_on : a.running ≡ true

  -- The connections, gone through by their convs.
  pub for_sessions-entries :
      (f : Connection Cb → List Effect) (m : Manager Cb) (a : Sessions Cb)
      → IsValid m
      → Views m a
      → for_sessions f a ≡ for_entries f m.connections.connections
  unfolding Container.find_by_conv
  for_sessions-entries f m a v w =
      let last = m.connections.static_cur_conv in
      let conns = m.connections.connections in
      ap (λ n. for_convs (λ k. entry f (a.session k)) 1001 (n - 1000)) (sym w.last_conv)
      ∙ for_convs-ext _ (λ k. entry f (lookup k conns)) 1001 (last - 1000)
          (λ k h. ap (entry f) (sym (w.sessions k)))
      ∙ for_convs-entries f 1001 (last - 1000) conns v.container.ordered
          (Entries-map (λ k c g. omega (arith, g.1, v.container.above)) conns v.container.given_out)

  -- One session is changed on both sides.
  pub changed_view :
      (k conv conv' : ℕ) (c c' : Option (Connection Cb)) (m : Manager Cb) (a : Sessions Cb)
      → Views m a
      → conv ≡ conv'
      → c ≡ c'
      → (if conv == k then c else Container.find_by_conv k m.connections)
        ≡ (if conv' == k then c' else a.session k)
  changed_view k conv conv' c c' m a w e e' = rw (e, e', w.sessions k) refl

module _ (kcp : Kcp) where
  open kcp use {Cb}

  abbrev pub Follows : Outcome Cb → Sessions Cb × List Effect → Type 0
  Follows r s = (r.effects ≡ s.1) × Views r.manager s.0

  pub datagram-Follows :
      (ep : Endpoint) (udp_data : Bytes) (m : Manager Cb) (a : Sessions Cb)
      → m.connections.static_cur_conv + 1 < u32_mod
      → IsValid m
      → Views m a
      → m.receiving ≡ true
      → (not false && ltb 0 (length udp_data)) ≡ true
      → Follows
          (Manager.handle_udp_receive_from kcp false ep udp_data m)
          (specified_datagram kcp ep udp_data a)
  unfolding Container.find_by_conv
  datagram-Follows ep udp_data m a h v w on some_data =
      elim (Bool-cases (is_connect_packet udp_data)) [
        | inl t ↦
            let conv = m.connections.static_cur_conv + 1 in
            let new = fresh kcp conv m (omega arith) v in
            rw (connect_outcome kcp m ep udp_data t h w.open_socket (v.closed w.open_socket) new, t)
              (
                ap (λ n. send_to ep (making_send_back_conv_packet (n + 1)) ∷ []) w.last_conv,
                record {
                  open_socket = w.open_socket;
                  sessions = λ k.
                      lookup-insert conv k (Connection.create kcp conv ep) m.connections.connections
                      ∙ changed_view k conv (a.last + 1) _ _ m a w (ap (λ n. n + 1) w.last_conv) (
                          ap some (opened_lem kcp conv ep)
                          ∙ ap (λ n. some (opened kcp (n + 1) ep)) w.last_conv);
                  last_conv = ap (λ n. n + 1) w.last_conv;
                  clock = w.clock;
                  listens = sym on ∙ w.listens;
                  goes_on = w.goes_on;
                },
              )
        | inr f ↦ elim (Option-cases (kcp.get_conv udp_data)) [
          | inl none_named ↦
              rw
                (
                  bad_outcome kcp m ep udp_data (v.closed w.open_socket) some_data f none_named,
                  f,
                  specified_kcp_packet,
                  none_named,
                )
                (
                  refl,
                  record {
                    open_socket = w.open_socket;
                    sessions = w.sessions;
                    last_conv = w.last_conv;
                    clock = w.clock;
                    listens = refl;
                    goes_on = w.goes_on;
                  },
                )
          | inr (conv, named) ↦ elim (Option-cases (Container.find_by_conv conv m.connections)) [
            | inl unknown ↦
                let same = sym (w.sessions conv) ∙ unknown in
                rw
                  (
                    stranger_outcome kcp m ep udp_data (v.closed w.open_socket) conv some_data f
                        named unknown,
                    f,
                    specified_kcp_packet,
                    named,
                    specified_message,
                    same,
                  )
                  (
                    refl,
                    record {
                      open_socket = w.open_socket;
                      sessions = w.sessions;
                      last_conv = w.last_conv;
                      clock = w.clock;
                      listens = sym on ∙ w.listens;
                      goes_on = w.goes_on;
                    },
                  )
            | inr (c, known) ↦
                let same = sym (w.sessions conv) ∙ known in
                rw
                  (
                    message_outcome kcp m ep udp_data (v.closed w.open_socket) conv c some_data f
                        named known,
                    f,
                    specified_kcp_packet,
                    named,
                    specified_message,
                    same,
                  )
                  (
                    ap (λ n. (heard kcp n ep udp_data c).1) w.clock,
                    record {
                      open_socket = w.open_socket;
                      sessions = λ k.
                          put-find_by_conv kcp conv k _ (listens ep m)
                          ∙ changed_view k conv conv _ _ m a w refl
                              (ap (λ n. some (heard kcp n ep udp_data c).0) w.clock);
                      last_conv = w.last_conv;
                      clock = w.clock;
                      listens = sym on ∙ w.listens;
                      goes_on = w.goes_on;
                    },
                  )
          ]
        ]
      ]
