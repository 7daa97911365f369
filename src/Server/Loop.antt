-- ===== src/Server/Loop.antt =====
-- server/main.c: the loop of `main`, which turns the descriptors that are ready into a set of actions
-- and runs these in a fixed order, and the loops over the clients that are ready.
pub mod Actions
pub mod Turns
use sik_screen_worms.Prelude.{
  ℕ, ◌+◌, ◌/◌, ◌%◌, ◌<◌, ◌≡◌, refl, arith, Bool, true, false, ◌||◌, not, Option, none, some, List,
  [], ◌∷◌, ◌++◌, ◌==◌, if◌then◌else◌, bit_or, bit_and,
}
use sik_screen_worms.Memory.{◌>>=◌}
use sik_screen_worms.Clients.{Client}
use sik_screen_worms.Game.Reals.{Reals}
use sik_screen_worms.Server.{
  Server, Sent, handle_timeout, handle_new_client, handle_client_message, handle_round,
}

pub data Descriptor : Type 0 where
  server_sock : Descriptor
  data_epoll : Descriptor
  timeout_epoll : Descriptor
  round_timer : Descriptor

-- LA_NEW_CLIENT is 1, LA_DATA is 2, LA_TIMEOUT is 4 and LA_ROUND is 8.
abbrev pub action_of : Descriptor → ℕ
action_of server_sock = 1
action_of data_epoll = 2
action_of timeout_epoll = 4
action_of round_timer = 8

-- `loop_actions`, from the actions found so far.
unfoldable pub loop_actions : List Descriptor → ℕ → ℕ
loop_actions [] actions = actions
loop_actions (d ∷ ds) actions = loop_actions ds (bit_or actions (action_of d))

abbrev pub has_action : ℕ → Descriptor → Bool
has_action actions d = not (bit_and actions (action_of d) == 0)

-- What the system calls give to the handlers: the clients whose timers ran out, the datagram and the
-- descriptors of a new client, and the clients with the last datagram of each.
pub record Inputs : Type 0 where
  pub timed_out : List Client
  pub bytes : List ℕ
  pub num_bytes : ℕ
  pub sock_fd : ℕ
  pub timer_fd : ℕ
  pub messages : List (Client × List ℕ × ℕ)
  -- Whether memory is found for the events of a round.
  pub memory : ℕ → Bool × Bool
  -- Which datagrams are sent whole: to each client of a round, to a new client, and to each client
  -- that sent a message.
  pub round_sends : ℕ → ℕ → Bool
  pub request_sends : ℕ → Bool
  pub data_sends : ℕ → ℕ → Bool

module _ (R : Reals) where
  open R use {Pos}

  unfoldable pub handle_timeouts : Server Pos → List Client → Option (Server Pos)
  handle_timeouts s [] = some s
  handle_timeouts s (c ∷ cs) = handle_timeout R s c >>= λ t. handle_timeouts t cs

  -- The clients that are ready, from client `k` of these on.
  unfoldable pub handle_clients :
      (ℕ → ℕ → Bool) → Server Pos → List (Client × List ℕ × ℕ) → ℕ → Option (Server Pos × Sent)
  handle_clients sends s [] k = some (s, [])
  handle_clients sends s ((client, bytes, num_bytes) ∷ rest) k = do
    first ← handle_client_message R (sends k) s client bytes num_bytes
    others ← handle_clients sends first.0 rest (k + 1)
    some (others.0, first.1 ++ others.1)

  -- The four actions, each only if its flag is set.
  unfoldable pub run_actions : Server Pos → ℕ → Inputs → Option (Server Pos × Sent)
  unfolding handle_timeouts handle_clients
  run_actions s actions i = do
    round ←
        if has_action actions round_timer
        then handle_round R i.memory i.round_sends s
        else some (s, [])
    quiet ←
        if has_action actions timeout_epoll
        then handle_timeouts round.0 i.timed_out
        else some round.0
    joined ←
        if has_action actions server_sock
        then handle_new_client R i.request_sends quiet i.bytes i.num_bytes i.sock_fd i.timer_fd
        else some (quiet, [])
    served ←
        if has_action actions data_epoll
        then handle_clients i.data_sends joined.0 i.messages 0
        else some (joined.0, [])
    some (served.0, round.1 ++ (joined.1 ++ served.1))

  -- One turn of the loop.
  unfoldable pub loop_turn : Server Pos → List Descriptor → Inputs → Option (Server Pos × Sent)
  unfolding loop_actions run_actions
  loop_turn s ready i = run_actions s (loop_actions ready 0) i
