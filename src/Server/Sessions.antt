-- ===== src/Server/Sessions.antt =====
-- What the server promises, without its container, its socket and its timers: it has a session for each conv
-- that is in use, as a function of the conv.
pub mod Ranges
pub mod Outcomes
pub mod Datagrams
pub mod Handlers
pub mod Refinement
use asio_kcp.Prelude.{
  ℕ, zero, suc, ◌+◌, ◌-◌, Bool, true, false, not, ◌&&◌, ◌||◌, List, [], ◌∷◌, ◌++◌, Option, none,
  some, Bytes, codes, length, ltb, ◌*◌, ◌%◌, ◌^◌, map, ◌==◌, if◌then◌else◌,
}
use asio_kcp.ConnectPacket.{
  is_connect_packet, making_send_back_conv_packet, making_disconnect_packet,
}
use asio_kcp.Kcp.{Kcp}
use asio_kcp.Server.{Endpoint, Effect, send_to, event, disconnect, rcv_msg}
use asio_kcp.Server.Connection.{Connection}
use asio_kcp.Server.Steps.{Input, udp_receive, timer, send, force_disconnect, stop}

pub record Sessions (Cb : Type 0) : Type 0 where
  pub session : ℕ → Option (Connection Cb)
  -- The last conv that was given out, and the time that the timer saw last.
  pub last : ℕ
  pub now : ℕ
  -- A datagram that is too short for KCP ends the listening.
  pub listening : Bool
  pub running : Bool

-- For `count` convs from `from` on.
unfoldable pub for_convs : (ℕ → List Effect) → ℕ → ℕ → List Effect
for_convs f from zero = []
for_convs f from (suc count) = f from ++ for_convs f (suc from) count

module _ {Cb : Type 0} where
  abbrev pub no_sessions : Sessions Cb
  no_sessions = record {
    session = λ k. none;
    last = 1000;
    now = 0;
    listening = true;
    running = true;
  }

  abbrev pub changed : ℕ → Option (Connection Cb) → Sessions Cb → Sessions Cb
  changed conv c a = record a { session = λ k. if conv == k then c else a.session k }

  abbrev pub for_sessions : (Connection Cb → List Effect) → Sessions Cb → List Effect
  for_sessions f a =
      for_convs (λ k. elim (a.session k) [ none ↦ [] | some c ↦ f c ]) 1001 (a.last - 1000)

  abbrev pub goodbye_to : Connection Cb → List Effect
  goodbye_to c = send_to c.udp_remote_endpoint (making_disconnect_packet c.conv) ∷ []

module _ (kcp : Kcp) where
  open kcp use {Cb}

  -- A new session has a new block of KCP, in its fast mode, and has heard nothing.
  abbrev pub opened : ℕ → Endpoint → Connection Cb
  opened conv ep = record {
    conv = conv;
    p_kcp = kcp.nodelay 1 5 1 1 (kcp.create conv);
    udp_remote_endpoint = ep;
    last_packet_recv_time = 0;
  }

  abbrev pub message_of : ℕ → Option Bytes → List Effect
  message_of conv none = []
  message_of conv (some []) = []
  message_of conv (some (b ∷ bs)) = event conv rcv_msg (b ∷ bs) ∷ []

  -- A datagram at its session: KCP takes it in, and what KCP then has for the application is an event. The sender
  -- and the time are kept.
  abbrev pub heard : ℕ → Endpoint → Bytes → Connection Cb → Connection Cb × List Effect
  heard now ep udp_data c =
      let (cb, message) = kcp.recv (1024 * 1000) (kcp.input udp_data c.p_kcp) in
      (
        record c { p_kcp = cb; udp_remote_endpoint = ep; last_packet_recv_time = now },
        message_of c.conv message,
      )

  -- More than ten seconds without a datagram, on a clock of 32 bits; but a session that has heard nothing yet, or heard
  -- last at the time 0, waits for ever.
  abbrev pub silent_too_long : ℕ → Connection Cb → Bool
  silent_too_long clock c =
      not (c.last_packet_recv_time == 0)
      && ltb 10000 ((clock + 2 ^ 32 - c.last_packet_recv_time) % 2 ^ 32)

  abbrev pub updated : ℕ → Connection Cb → Connection Cb
  updated clock c = record c { p_kcp = (kcp.update clock c.p_kcp).0 }

  -- The timer at a session: what KCP has to send, and the end of a session that has timed out.
  abbrev pub timer_turn : ℕ → Connection Cb → List Effect
  timer_turn clock c =
      map (send_to c.udp_remote_endpoint) (kcp.update clock c.p_kcp).1
      ++ (if silent_too_long clock c
          then event c.conv disconnect (codes "timeout") ∷ goodbye_to c
          else [])

  abbrev pub timer_kept : ℕ → Option (Connection Cb) → Option (Connection Cb)
  timer_kept clock none = none
  timer_kept clock (some c) = if silent_too_long clock c then none else some (updated clock c)

  abbrev pub specified_message : Endpoint → Bytes → ℕ → Sessions Cb → Sessions Cb × List Effect
  specified_message ep udp_data conv a = elim (a.session conv) [
    | none ↦ (a, [])
    | some c ↦ let (c', effects) = heard a.now ep udp_data c in (changed conv (some c') a, effects)
  ]

  abbrev pub specified_kcp_packet : Endpoint → Bytes → Sessions Cb → Sessions Cb × List Effect
  specified_kcp_packet ep udp_data a = elim (kcp.get_conv udp_data) [
    | none ↦ (record a { listening = false }, [])
    | some k ↦ specified_message ep udp_data k a
  ]

  abbrev pub specified_datagram : Endpoint → Bytes → Sessions Cb → Sessions Cb × List Effect
  specified_datagram ep udp_data a =
      let conv = a.last + 1 in
      let message = specified_kcp_packet ep udp_data a in
      if is_connect_packet udp_data
      then (
        record (changed conv (some (opened conv ep)) a) { last = conv },
        send_to ep (making_send_back_conv_packet conv) ∷ [],
      )
      else message

  abbrev pub specified_running : Input → Sessions Cb → Sessions Cb × List Effect
  specified_running (udp_receive error ep udp_data) a =
      if a.listening && not error && ltb 0 (length udp_data)
      then specified_datagram ep udp_data a
      else (a, [])
  specified_running (timer clock) a = (
    record a { now = clock; session = λ k. timer_kept clock (a.session k) },
    for_sessions (timer_turn clock) a,
  )
  specified_running (send conv msg) a = elim (a.session conv) [
    | none ↦ (a, [])
    | some c ↦ (changed conv (some (record c { p_kcp = (kcp.send msg c.p_kcp).0 })) a, [])
  ]
  specified_running (force_disconnect conv) a = elim (a.session conv) [
    | none ↦ (a, [])
    | some c ↦ (
      changed conv none a,
      event conv disconnect (codes "server force disconnect") ∷ goodbye_to c,
    )
  ]
  specified_running stop a =
      (record a { session = λ k. none; running = false }, for_sessions goodbye_to a)

  -- A server that has stopped does nothing more.
  unfoldable pub specified : Input → Sessions Cb → Sessions Cb × List Effect
  specified i a = let r = specified_running i a in if a.running then r else (a, [])

  unfoldable pub specified_run : Sessions Cb → List Input → List Effect
  unfolding specified
  specified_run a [] = []
  specified_run a (i ∷ is) = let (a', effects) = specified i a in effects ++ specified_run a' is
