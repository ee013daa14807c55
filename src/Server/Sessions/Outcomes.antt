-- ===== src/Server/Sessions/Outcomes.antt =====
-- What the handlers of a running server come to, case by case.
use mathlib.Core.Path.{subst}
use asio_kcp.Prelude.{
  ℕ, ◌*◌, map, Option, ◌≡◌, refl, ap, ◌∙◌, sym, Bool, true, false, not, ◌&&◌, ltb, List, [], ◌∷◌,
  ◌++◌, none, some, Bytes, length, arith, append_assoc, codes, if◌then◌else◌,
}
use asio_kcp.Prelude.Maps.{Map}
use asio_kcp.ConnectPacket.{is_connect_packet}
use asio_kcp.Kcp.{Kcp}
use asio_kcp.Server.{Endpoint, Effect, send_to, event, disconnect}
use asio_kcp.Server.Connection
use asio_kcp.Server.Connection.{Connection}
use asio_kcp.Server.Container
use asio_kcp.Server.Manager
use asio_kcp.Server.Manager.{Manager, Outcome, returned, assert_exception}
use asio_kcp.Server.Sessions.{
  goodbye_to, timer_turn, heard, message_of, opened, silent_too_long, updated,
}
use asio_kcp.Server.Sessions.Ranges.{for_entries}
use asio_kcp.Server.Timeouts.{update_entries-cons}

module _ {Cb : Type 0} where
  abbrev pub listens : Endpoint → Manager Cb → Manager Cb
  listens ep m = record m { receiving = true; udp_remote_endpoint = ep }

  abbrev pub done : Manager Cb → List Effect → Outcome Cb
  done m effects = record { manager = m; effects = effects; exit = returned }

  pub clear-goodbyes :
      (now : ℕ) (m : Map (Connection Cb)) → Container.clear (some now) m ≡ for_entries goodbye_to m
  unfolding Container.clear Connection.clean
  clear-goodbyes now [] = refl
  clear-goodbyes now ((k, c) ∷ m) = ap (λ es. goodbye_to c ++ es) (clear-goodbyes now m)

module _ (kcp : Kcp) where
  open kcp use {Cb}

  -- The connection's methods are what the specification says.
  heard_lem :
      (now : ℕ) (ep : Endpoint) (udp_data : Bytes) (c : Connection Cb)
      → Connection.input kcp (some now) udp_data ep c ≡ heard kcp now ep udp_data c
  unfolding Connection.input Connection.get_cur_clock
  heard_lem now ep udp_data c =
      let (cb, message) = kcp.recv (1024 * 1000) (kcp.input udp_data c.p_kcp) in
      ap
        (λ es. (record c { p_kcp = cb; udp_remote_endpoint = ep; last_packet_recv_time = now }, es))
        (by_message message)
    where
      by_message :
          (message : Option Bytes)
          → Connection.received kcp (some now) c.conv message ≡ message_of kcp c.conv message
      by_message none = unfold Connection.received in refl
      by_message (some []) = unfold Connection.received in refl
      by_message (some (b ∷ bs)) = unfold Connection.received in refl

  pub opened_lem : (conv : ℕ) (ep : Endpoint) → Connection.create kcp conv ep ≡ opened kcp conv ep
  unfolding Connection.create Connection.init_kcp
  opened_lem conv ep = refl

  pub silent_lem :
      (clock : ℕ) (c : Connection Cb)
      → Connection.is_timeout (some clock) c ≡ silent_too_long kcp clock c
  unfolding Connection.is_timeout Connection.get_cur_clock Connection.get_timeout_time
  silent_lem clock c = ground arith

  udp_output_lem :
      (clock : ℕ) (c : Connection Cb) (bufs : List Bytes)
      → Connection.udp_output kcp (some clock) c bufs ≡ map (send_to c.udp_remote_endpoint) bufs
  unfolding Connection.udp_output Connection.send_udp_package
  udp_output_lem clock c [] = refl
  udp_output_lem clock c (buf ∷ bufs) =
      ap (λ es. send_to c.udp_remote_endpoint buf ∷ es) (udp_output_lem clock c bufs)

  pub updated_lem :
      (clock : ℕ) (c : Connection Cb)
      → Connection.update_kcp kcp (some clock) clock c
        ≡ (updated kcp clock c, map (send_to c.udp_remote_endpoint) (kcp.update clock c.p_kcp).1)
  unfolding Connection.update_kcp
  updated_lem clock c =
      ap (λ es. (updated kcp clock c, es)) (udp_output_lem clock c (kcp.update clock c.p_kcp).1)

  module _ (m : Manager Cb) (ep : Endpoint) (udp_data : Bytes) (on : m.stopped ≡ false) where
    pub nothing_outcome :
        (error : Bool)
        → (not error && ltb 0 (length udp_data)) ≡ false
        → Manager.handle_udp_receive_from kcp error ep udp_data m ≡ done (listens ep m) []
    unfolding Manager.handle_udp_receive_from
    nothing_outcome error e = ground (arith, on)

    pub bad_outcome :
        (not false && ltb 0 (length udp_data)) ≡ true
        → is_connect_packet udp_data ≡ false
        → kcp.get_conv udp_data ≡ none
        → Manager.handle_udp_receive_from kcp false ep udp_data m ≡ record {
          manager = record m { receiving = false; udp_remote_endpoint = ep };
          effects = [];
          exit = assert_exception;
        }
    unfolding Manager.handle_udp_receive_from
    bad_outcome e other none_named = ground (arith, on, other, none_named)

    pub stranger_outcome :
        (conv : ℕ)
        → (not false && ltb 0 (length udp_data)) ≡ true
        → is_connect_packet udp_data ≡ false
        → kcp.get_conv udp_data ≡ some conv
        → Container.find_by_conv conv m.connections ≡ none
        → Manager.handle_udp_receive_from kcp false ep udp_data m ≡ done (listens ep m) []
    unfolding Manager.handle_udp_receive_from Manager.deliver
    stranger_outcome conv e other named unknown = ground (arith, on, other, named, unknown)

    pub message_outcome :
        (conv : ℕ) (c : Connection Cb)
        → (not false && ltb 0 (length udp_data)) ≡ true
        → is_connect_packet udp_data ≡ false
        → kcp.get_conv udp_data ≡ some conv
        → Container.find_by_conv conv m.connections ≡ some c
        → let (c', effects) = heard kcp m.cur_clock ep udp_data c in
          Manager.handle_udp_receive_from kcp false ep udp_data m
          ≡ done (Manager.put kcp conv c' (listens ep m)) effects
    unfolding Manager.handle_udp_receive_from Manager.deliver
    message_outcome conv c e other named known =
        subst
          (λ r.
            Manager.handle_udp_receive_from kcp false ep udp_data m
            ≡ done (Manager.put kcp conv r.0 (listens ep m)) r.1)
          (heard_lem m.cur_clock ep udp_data c) (ground (arith, on, other, named, known))

  pub update_entries-turns :
      (clock : ℕ) (m : Map (Connection Cb))
      → (Container.update_entries kcp (some clock) clock m).1 ≡ for_entries (timer_turn kcp clock) m
  unfolding Connection.do_timeout Connection.clean
  update_entries-turns clock [] = unfold Container.update_entries in refl
  update_entries-turns clock ((k, c) ∷ m) =
      let sent = map (send_to c.udp_remote_endpoint) (kcp.update clock c.p_kcp).1 in
      let lost =
        if silent_too_long kcp clock c
        then event c.conv disconnect (codes "timeout") ∷ goodbye_to c
        else [] in
      update_entries-cons kcp clock clock k c m
      ∙ rw (updated_lem clock c, silent_lem clock c) refl
      ∙ ap (λ es. sent ++ (lost ++ es)) (update_entries-turns clock m)
      ∙ sym (append_assoc sent lost (for_entries (timer_turn kcp clock) m))
