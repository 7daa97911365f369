-- ===== src/Client/Session.antt =====
-- client/main.c: `init_client_session`, the state that the client starts in, and the loop of `main`
-- over what `epoll_wait` reports. Setting up the sockets, the timer and epoll is left out.
use sik_screen_worms.Prelude.{
  ℕ, ◌%◌, ◌^◌, Bool, false, Option, none, some, List, [], ◌∷◌, ◌++◌, ◌==◌, if◌then◌else◌, replicate,
}
use sik_screen_worms.Memory.{◌>>=◌, write_at, read_at, strlen}
use sik_screen_worms.Messages.{ClientMessage}
use sik_screen_worms.GuiClient.{StreamEnd}
use sik_screen_worms.ClientArgs.{ClientArgs}
use sik_screen_worms.Client.{
  ClientState, Ran, returns, exits, faults, handle_gui_message, handle_tick, handle_server_message,
}

-- The array of the name in the message is cleared, and the name is copied into it. `none` is an
-- access outside an object.
unfoldable pub name_array : Option (List ℕ) → Option (List ℕ)
name_array none = some (replicate 21 0)
name_array (some name) = strlen name >>= λ len.
    if len == 0
    then some (replicate 21 0)
    else (read_at name 0 len >>= λ text. write_at (replicate 21 0) 0 text)

-- `time` is what `time(NULL)` gives; `session_id` is a `uint32_t`.
unfoldable pub init_client_session : ClientArgs → ℕ → Option ClientMessage
unfolding name_array
init_client_session args time = name_array args.player_name >>= λ player_name. some (record {
  session_id = time % 2 ^ 32;
  turn_direction = 0;
  next_expected_event_no = 0;
  player_name = player_name;
})

-- The global variables at the start, with the message and the arrays of the two connections.
abbrev pub initial : ClientMessage → List ℕ → List ℕ → ClientState
initial message game_buffer gui_buffer = record {
  keys = record { turn_direction = 0; left_down = false; right_down = false };
  view = record {
    next_expected_event_no = 0;
    current_game_id = 0;
    players_names = [];
    players_num = 0;
    width = 0;
    height = 0;
  };
  client_message = message;
  game_buffer = game_buffer;
  gui_buffer = gui_buffer;
}

-- One descriptor that is ready, and what its system calls answer. `hung_up` is EPOLLHUP.
pub data Ready : Type 0 where
  timer : Option ℕ → Ready
  gui : Bool → List (List ℕ) → StreamEnd → StreamEnd → Ready
  server : Option (List ℕ) → (ℕ → ℕ → Option ℕ) → Ready

-- What goes out: a datagram for the server, or text for the interface.
pub data Sent : Type 0 where
  to_server : List ℕ → Sent
  to_gui : List ℕ → Sent

abbrev pub wrap {ℓ κ} : {A : Type ℓ} {B : Type κ} → (A → B) → Ran A → Ran B
wrap f (returns a) = returns (f a)
wrap f exits = exits
wrap f faults = faults

-- The body of the loop.
unfoldable pub handle_ready : ClientState → Ready → Ran (ClientState × List Sent)
handle_ready s (timer answer) =
    wrap (λ (r : ClientState × List ℕ). (r.0, to_server r.1 ∷ [])) (handle_tick s answer)
handle_ready s (gui hung_up pieces end full) =
    if hung_up
    then exits
    else wrap (λ (t : ClientState). (t, [])) (handle_gui_message s pieces end full)
handle_ready s (server datagram send) =
    wrap (λ (r : ClientState × List ℕ). (r.0, to_gui r.1 ∷ []))
      (handle_server_message s datagram send)

unfoldable pub run_client : ClientState → List Ready → Ran (ClientState × List Sent)
unfolding handle_ready
run_client s [] = returns (s, [])
run_client s (r ∷ rs) = elim (handle_ready s r) [
  | returns (t, sent) ↦ wrap (λ (u : ClientState × List Sent). (u.0, sent ++ u.1)) (run_client t rs)
  | exits ↦ exits
  | faults ↦ faults
]
