-- ===== src/Programs/MulticastTest/Main/Waiting.antt =====
-- The wait for the connection in `main`, of both clients.
use asio_kcp.Prelude.{
  ℕ, ◌≡◌, ◌⊎◌, refl, inl, inr, true, false, Bool-cases, List, [], Option, none, some, Bytes,
}
use asio_kcp.Prelude.Int.{ℤ, is_negative}
use asio_kcp.Kcp.{Kcp}
use asio_kcp.Client.{ConnectCalls}
use asio_kcp.Programs.MulticastTest.Client as Multicast
use asio_kcp.Programs.MulticastTest.Plain
use asio_kcp.Programs.MulticastTest.Main.{
  End, exits, throws, Program, Turn, State, main, start, after_connect, Args, too_few, no_number,
  parsed, parse_args,
}

-- The initial values of the global variables.
abbrev pub multicast_program : Program
multicast_program = record {
  Globals = Multicast.TestClient;
  initial = record {
    connected = false;
    running = true;
    recv_msgs = 0;
    recv_bytes = 0;
    multicast_recv_msgs = 0;
    multicast_recv_bytes = 0;
    multicast_addr = [];
    multicast_port = 0;
    multicast_group_id = 0;
    multicast_client = none;
  };
  callback = Multicast.client_event_callback;
  connected = λ g. g.connected;
  running = λ g. g.running;
}

abbrev pub plain_program : Program
plain_program = record {
  Globals = Plain.PlainClient;
  initial = record { connected = false; running = true; recv_msgs = 0; recv_bytes = 0 };
  callback = λ calls created type_ msg g. some (Plain.client_event_callback type_ msg g);
  connected = λ g. g.connected;
  running = λ g. g.running;
}

-- The end before the loop: nothing has been sent.
abbrev pub EndsAtOnce : Option End → Type 0
EndsAtOnce end = (end ≡ some (exits 1 [])) ⊎ (end ≡ some (throws []))

module _ (p : Program) (kcp : Kcp) where
  after_connect-EndsAtOnce :
      (fuel : ℕ) (size ret : ℤ) (turns : List Turn) (s : State p kcp)
      → p.connected s.globals ≡ false
      → EndsAtOnce (after_connect p kcp fuel size turns s ret)
  unfolding after_connect
  after_connect-EndsAtOnce fuel size ret turns s lost = elim (Bool-cases (is_negative ret)) [
    | inl t ↦ rw (after_connect, t) (inl refl)
    | inr f ↦ rw (after_connect, f, lost) (inl refl)
  ]

  start-EndsAtOnce :
      (calls : ConnectCalls) (clock fuel : ℕ) (turns : List Turn) (args : Args)
      → p.connected p.initial ≡ false
      → EndsAtOnce (start p kcp calls clock fuel turns args)
  unfolding start
  start-EndsAtOnce calls clock fuel turns too_few lost = inl refl
  start-EndsAtOnce calls clock fuel turns no_number lost = inr refl
  start-EndsAtOnce calls clock fuel turns (parsed target size) lost =
      after_connect-EndsAtOnce fuel size _ turns _ lost

-- Neither test client ever gets a connection: nothing updates its client while `main` waits for the callback that
-- reports one. Whatever its arguments are and the system answers, it ends with the result 1 or with
-- the exception of an argument that is no number, and has sent nothing.
pub never_connects :
    (kcp : Kcp) (calls : ConnectCalls) (clock fuel : ℕ) (turns : List Turn) (argv : List Bytes)
    → EndsAtOnce (main multicast_program kcp calls clock fuel turns argv)
      × EndsAtOnce (main plain_program kcp calls clock fuel turns argv)
unfolding main
never_connects kcp calls clock fuel turns argv = (
  start-EndsAtOnce multicast_program kcp calls clock fuel turns (parse_args argv) refl,
  start-EndsAtOnce plain_program kcp calls clock fuel turns (parse_args argv) refl,
)
