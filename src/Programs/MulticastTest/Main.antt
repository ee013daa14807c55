-- ===== src/Programs/MulticastTest/Main.antt =====
-- `main` of udp_multicast_test_client/multicast_client.cpp, over the callback and the global variables of the
-- program. The thread that reports prints only; what `stop` does behind the loop is left out.
pub mod Waiting
pub mod Goodbye
use asio_kcp.Prelude.{
  ℕ, zero, suc, ◌+◌, ◌%◌, Bool, true, false, List, [], ◌∷◌, ◌++◌, Option, none, some, Bytes, length,
  take, u64_mod, if◌then◌else◌,
}
use asio_kcp.Prelude.Int.{ℤ, pos, negsuc, is_negative}
use asio_kcp.Kcp.{Kcp}
use asio_kcp.Client
use asio_kcp.Client.{Client, Effect, EventType, event, send_to_server, ConnectCalls, Target}
use asio_kcp.ClientWrap.{Tick}
use asio_kcp.MulticastClient.{JoinCalls}
use asio_kcp.Programs.MulticastTest.{generate_random_message, stoi}

-- How the program ends: with a result of `main`, or with an exception; or it still runs after the turns.
pub data End : Type 0 where
  exits : ℕ → List Effect → End
  throws : List Effect → End
  runs : List Effect → End

abbrev pub behind : List Effect → End → End
behind effects (exits code more) = exits code (effects ++ more)
behind effects (throws more) = throws (effects ++ more)
behind effects (runs more) = runs (effects ++ more)

-- A turn of the loop: the random characters, what the update finds, and what the system answers to a
-- multicast client that its callbacks make.
pub record Turn : Type 0 where
  pub alphanum : ℕ → ℕ
  pub tick : Tick
  pub calls : JoinCalls
  pub created : Bool

-- The arguments: fewer than three; one that is no number; or those of the connect and the size of the messages.
pub data Args : Type 0 where
  too_few no_number : Args
  parsed : Target → ℤ → Args

abbrev pub all_numbers : List Bytes → Bool
unfolding stoi
all_numbers [] = true
all_numbers (arg ∷ args) =
    let more = all_numbers args in elim (stoi arg) [ none ↦ false | some _ ↦ more ]

abbrev pub size_of_first : List Bytes → ℤ
unfolding stoi
size_of_first [] = pos 1024
size_of_first (arg ∷ args) = elim (stoi arg) [ none ↦ pos 1024 | some size ↦ size ]

-- Without the name of the program; what stands behind the interval is not looked at.
unfoldable pub parse_args : List Bytes → Args
unfolding stoi
parse_args (local_port ∷ server_ip ∷ server_port ∷ options) = elim (stoi local_port) [
  | none ↦ no_number
  | some local ↦ elim (stoi server_port) [
    | none ↦ no_number
    | some remote ↦
        if all_numbers (take 2 options)
        then parsed (record { udp_port_bind = local; server_ip = server_ip; server_port = remote })
            (size_of_first options)
        else no_number
  ]
]
parse_args _ = too_few

-- What one of these programs has of its own: the global variables, the callback, where an exception
-- is `none`, and the two flags.
pub record Program : Type 1 where
  pub Globals : Type 0
  pub initial : Globals
  pub callback : JoinCalls → Bool → EventType → Bytes → Globals → Option Globals
  pub connected : Globals → Bool
  pub running : Globals → Bool

module _ (p : Program) (kcp : Kcp) where
  open kcp use {Cb}
  open p use {Globals}

  -- The client, the global variables, and `sent_msgs` and `sent_bytes` of the statistics.
  pub record State : Type 0 where
    pub client : Client Cb
    pub globals : Globals
    pub sent_msgs : ℕ
    pub sent_bytes : ℕ

  -- The callbacks of an update, in their order.
  unfoldable pub called_back : JoinCalls → Bool → List Effect → Globals → Option Globals
  called_back calls created [] g = some g
  called_back calls created (send_to_server msg ∷ es) g = called_back calls created es g
  called_back calls created (event conv type_ msg ∷ es) g =
      elim (p.callback calls created type_ msg g) [
        | none ↦ none
        | some g' ↦ called_back calls created es g'
      ]

  unfoldable pub send_random : Turn → ℕ → State → State
  unfolding generate_random_message Client.send_msg
  send_random t size s =
      let msg = generate_random_message t.alphanum size in
      record s {
        client = Client.send_msg msg s.client;
        sent_msgs = (s.sent_msgs + 1) % u64_mod;
        sent_bytes = (s.sent_bytes + length msg) % u64_mod;
      }

  -- The fuel is that of `update`, which returns within it or the program hangs: `none`.
  unfoldable pub main_loop : ℕ → ℤ → List Turn → State → Option End
  unfolding send_random Client.update called_back
  main_loop fuel size [] s = some (runs [])
  main_loop fuel size (t ∷ ts) s = elim (p.running s.globals) [
    | false ↦ some (exits 0 [])
    | true ↦ elim (p.connected s.globals) [
      | false ↦ some (exits 0 [])
      | true ↦ elim size [
        | negsuc n ↦ some (throws [])
        | pos n ↦ elim (Client.update kcp fuel t.tick.0 t.tick.1 (send_random t n s).client) [
          | none ↦ none
          | some r ↦ elim (called_back t.calls t.created r.effects s.globals) [
            | none ↦ some (throws r.effects)
            | some g ↦
                elim (main_loop fuel size ts
                  (record (send_random t n s) { client = r.client; globals = g })) [
                    | none ↦ none
                    | some end ↦ some (behind r.effects end)
                  ]
          ]
        ]
      ]
    ]
  ]

  -- `wait_for` gives what the flag is when the five seconds are over, or when it is set before. In
  -- this time no thread of the program touches the client or the flag.
  unfoldable pub after_connect : ℕ → ℤ → List Turn → State → ℤ → Option End
  unfolding main_loop
  after_connect fuel size turns s ret =
      if is_negative ret then some (exits 1 []) else elim (p.connected s.globals) [
        | false ↦ some (exits 1 [])
        | true ↦ main_loop fuel size turns s
      ]

  -- The clock is that of `connect_async`.
  unfoldable pub start : ConnectCalls → ℕ → ℕ → List Turn → Args → Option End
  unfolding after_connect Client.create Client.set_event_callback Client.connect_async
  start calls clock fuel turns too_few = some (exits 1 [])
  start calls clock fuel turns no_number = some (throws [])
  start calls clock fuel turns (parsed target size) =
      let (c, ret) =
        Client.connect_async target calls clock (Client.set_event_callback Client.create) in
      after_connect fuel size turns
        (record { client = c; globals = p.initial; sent_msgs = 0; sent_bytes = 0 }) ret

  unfoldable pub main : ConnectCalls → ℕ → ℕ → List Turn → List Bytes → Option End
  unfolding start parse_args
  main calls clock fuel turns argv = start calls clock fuel turns (parse_args argv)
