-- ===== src/Examples/Sessions.antt =====
-- A client that starts with a name, and its first ticks.
use sik_screen_worms.Prelude.{
  ℕ, ◌+◌, ◌^◌, ◌≡◌, refl, none, some, List, [], ◌∷◌, ◌++◌, length, replicate,
}
use sik_screen_worms.Memory.{be_bytes, read_at, strlen, write_at}
use sik_screen_worms.Messages.{ClientMessage, ok}
use sik_screen_worms.Messages.Client.{deserialize_client_message, serialize_client_message}
use sik_screen_worms.GuiMessages.{
  gui_text, print_int, digits, print_names, print_name, print_string, serialize_client_gui_message,
  serialize_client_gui_message_new_game,
}
use sik_screen_worms.GuiClient.{gui_client_send_event, send_text}
use sik_screen_worms.GameClient.{game_client_send}
use sik_screen_worms.ClientArgs.{
  ClientArgs, success, parse_client_args, parse_options, parse_option, player_name_valid,
  chars_valid, read_port, to_int32, default_args,
}
use sik_screen_worms.ClientArgs.Names.{Accepted, parse_client_args-Accepted}
use sik_screen_worms.ServerArgs.{pos, Strtol}
use sik_screen_worms.Client.{
  ClientState, returns, check_event, on_event_new_game, deliver, shown, handle_tick,
}
use sik_screen_worms.Client.Ordered.{Taken, deliver-Taken}
use sik_screen_worms.Client.Session.{
  initial, init_client_session, name_array, timer, run_client, handle_ready, to_server,
}
use sik_screen_worms.Client.Ticking.{handle_tick-deserialize}
use sik_screen_worms.Examples.Packets.{opening}
use sik_screen_worms.Examples.Playing.{no_game, started, first_line, slow_send}

deliver-Taken_example :
    Taken no_game (opening ∷ opening ∷ []) (record started { current_game_id = 0 })
unfolding deliver shown check_event on_event_new_game gui_client_send_event send_text
    serialize_client_gui_message gui_text serialize_client_gui_message_new_game print_int digits
    print_names print_name print_string strlen read_at write_at
deliver-Taken_example =
    deliver-Taken (λ n i. slow_send i) (opening ∷ opening ∷ []) no_game
      (record started { current_game_id = 0 }) (replicate 2048 0) (first_line ++ replicate 2027 0)
      first_line refl

-- Every string is the number 2021 to this `strtol`.
abbrev always_2021 : List ℕ → Strtol
always_2021 str = record { errno = 0; consumed = 4; value = pos 2021 }

-- `-n bob -p 2021 host`.
abbrev some_options : List (ℕ × List ℕ)
some_options = (b'n', b'b' ∷ b'o' ∷ b'b' ∷ 0 ∷ []) ∷ (b'p', b'2' ∷ b'0' ∷ b'2' ∷ b'1' ∷ 0 ∷ []) ∷ []

abbrev host : List ℕ
host = b'h' ∷ b'o' ∷ b's' ∷ b't' ∷ 0 ∷ []

abbrev bobs_args : ClientArgs
bobs_args = record default_args {
  player_name = some (b'b' ∷ b'o' ∷ b'b' ∷ 0 ∷ []);
  server_address = some host;
}

parsed : parse_client_args always_2021 some_options (some host) ≡ success bobs_args
unfolding parse_client_args parse_options parse_option player_name_valid chars_valid read_port
    to_int32 strlen
parsed = refl

parse_client_args-Accepted_example : Accepted bobs_args (some host)
parse_client_args-Accepted_example =
    parse_client_args-Accepted always_2021 some_options (some host) bobs_args parsed

abbrev bobs_message : ClientMessage
bobs_message = record {
  session_id = 5;
  turn_direction = 0;
  next_expected_event_no = 0;
  player_name = b'b' ∷ b'o' ∷ b'b' ∷ replicate 18 0;
}

-- What the first tick sends.
abbrev bobs_datagram : List ℕ
bobs_datagram = replicate 7 0 ++ (5 ∷ 0 ∷ 0 ∷ 0 ∷ 0 ∷ 0 ∷ b'b' ∷ b'o' ∷ b'b' ∷ [])

abbrev ticked : ClientState
ticked = initial bobs_message (bobs_datagram ++ replicate 1008 0) (replicate 2048 0)

handle_tick-deserialize_example :
    (t : ClientState) × (datagram : List ℕ) × (m : ClientMessage) × (handle_tick ticked none
      ≡ returns (t, datagram))
    × (deserialize_client_message (datagram ++ (1 ∷ 2 ∷ [])) (length datagram)
        ≡ ok (m, length datagram))
    × (m.session_id ≡ 5)
    × (m.turn_direction ≡ 0)
    × (m.next_expected_event_no ≡ 0)
unfolding init_client_session name_array run_client handle_ready handle_tick game_client_send
    serialize_client_message be_bytes strlen read_at write_at
handle_tick-deserialize_example =
    handle_tick-deserialize always_2021 some_options (some host) bobs_args (2 ^ 32 + 5) bobs_message
      (replicate 1024 0) (replicate 2048 0) (timer (some 16) ∷ []) ticked
      (to_server bobs_datagram ∷ []) none (1 ∷ 2 ∷ []) parsed refl refl refl
