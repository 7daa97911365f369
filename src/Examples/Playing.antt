-- ===== src/Examples/Playing.antt =====
-- A client that starts, gets the start of a game from the server and the keys of its player.
use sik_screen_worms.Prelude.{
  ℕ, ◌≡◌, refl, arith, true, false, Option, some, List, [], ◌∷◌, ◌++◌, length, replicate, get_elem?,
}
use mathlib.Core.List.{flatten}
use sik_screen_worms.Memory.{read_at, strlen}
use sik_screen_worms.Messages.{GameEvent, Outcome}
use sik_screen_worms.SendEvents.{send_events}
use sik_screen_worms.GuiMessages.{
  GuiAction, left_key_down, left_key_up, right_key_down, text_left, text_key_down, gui_text,
  print_int, digits, print_names, print_name, print_string, serialize_client_gui_message_new_game,
}
use sik_screen_worms.GuiClient.{
  gui_client_send_event, gui_client_recv_event, GuiReceived, actions, would_block, closed,
}
use sik_screen_worms.GuiClient.Sending.{Takes, gui_client_send_event-whole}
use sik_screen_worms.GuiClient.Parsing.{
  key_lines, gui_client_recv_event-key_lines, gui_client_recv_event_total,
}
use sik_screen_worms.GameClient.{game_client_recv}
use sik_screen_worms.GameClient.Receiving.{game_client_recv_total}
use sik_screen_worms.Client.{
  View, ClientState, returns, press_all, check_event, on_event_new_game, on_game_restart,
}
use sik_screen_worms.Client.Keys.{Shows, hold_all, press_all-Shows}
use sik_screen_worms.Client.Playing.{play, texts}
use sik_screen_worms.Client.Complete.{receive_all, receive_all-send_events}
use sik_screen_worms.Client.Session.{initial}
use sik_screen_worms.GuiMessages.Texts.{FitsArray}
use sik_screen_worms.Client.Accepting.{play-game}
use sik_screen_worms.Messages.{player_eliminated, game_over}
use sik_screen_worms.Messages.Encoding.{received}
use sik_screen_worms.Messages.{NewGame, new_game}
use sik_screen_worms.Client.Playing.{Line}
use sik_screen_worms.Prelude.{map, All}
use sik_screen_worms.Examples.Packets.{step, opening, length-opening, opening-IsEvent}
use sik_screen_worms.Examples.Storing.{one_stored}

press_all-Shows_example :
    Shows
      (press_all
        (left_key_down ∷ right_key_down ∷ left_key_up ∷ [])
        (record { turn_direction = 0; left_down = false; right_down = false }))
      (hold_all (left_key_down ∷ right_key_down ∷ left_key_up ∷ []) [])
press_all-Shows_example = press_all-Shows (left_key_down ∷ right_key_down ∷ left_key_up ∷ [])

game_client_recv_total_example :
    (after : List ℕ) × (r : Outcome (ℕ × List GameEvent)) × (game_client_recv
        (replicate 1024 0)
        (some (replicate 30 7))
      ≡ some (after, r))
    × (length after ≡ 1024)
game_client_recv_total_example =
    game_client_recv_total (replicate 1024 0) (some (replicate 30 7)) refl

-- Two key messages in three pieces.
abbrev two_keys : List GuiAction
two_keys = left_key_down ∷ left_key_up ∷ []

abbrev three_pieces : List (List ℕ)
three_pieces =
    text_left
    ∷ text_key_down
    ∷ (b'L' ∷ b'E' ∷ b'F' ∷ b'T' ∷ b'_' ∷ b'K' ∷ b'E' ∷ b'Y' ∷ b'_' ∷ b'U' ∷ b'P' ∷ 10 ∷ [])
    ∷ []

gui_client_recv_event-key_lines_example :
    gui_client_recv_event three_pieces would_block closed
    ≡ some (key_lines two_keys ++ replicate 2022 0, actions (length (key_lines two_keys)) two_keys)
unfolding flatten
gui_client_recv_event-key_lines_example =
    gui_client_recv_event-key_lines three_pieces two_keys closed refl (omega arith)

gui_client_recv_event_total_example :
    (after : List ℕ) × (r : GuiReceived) × (gui_client_recv_event
        (replicate 2048 10 ∷ [])
        closed
        would_block
      ≡ some (after, r))
gui_client_recv_event_total_example =
    gui_client_recv_event_total (replicate 2048 10 ∷ []) closed would_block

-- The line of the start of the game, `NEW_GAME 640 480 a b`.
abbrev pub first_line : List ℕ
first_line =
    b'N' ∷ b'E' ∷ b'W' ∷ b'_' ∷ b'G' ∷ b'A' ∷ b'M' ∷ b'E' ∷ b' ' ∷ b'6' ∷ b'4' ∷ b'0' ∷ b' ' ∷ b'4'
    ∷ b'8' ∷ b'0' ∷ b' ' ∷ b'a' ∷ b' ' ∷ b'b' ∷ 10 ∷ []

abbrev two_names : List (List ℕ)
two_names = (97 ∷ 0 ∷ []) ∷ (98 ∷ 0 ∷ []) ∷ []

-- `send` takes 20 bytes and then one.
abbrev pub slow_send : ℕ → Option ℕ
slow_send i = get_elem? (20 ∷ 1 ∷ []) i

slow-Takes : Takes slow_send first_line
slow-Takes = record {
  cuts = 20 ∷ 1 ∷ [];
  positive = (omega arith, (omega arith, tt));
  whole = refl;
  answers = λ n. refl;
}

first_text : gui_text opening.body two_names ≡ some first_line
unfolding gui_text serialize_client_gui_message_new_game print_int digits print_names print_name
    print_string strlen read_at
first_text = refl

gui_client_send_event-whole_example :
    (after : List ℕ) × (gui_client_send_event slow_send (replicate 2048 0) opening.body two_names
      ≡ some (after, first_line, true))
    × (length after ≡ 2048)
gui_client_send_event-whole_example =
    gui_client_send_event-whole slow_send (replicate 2048 0) opening.body two_names first_line
      first_text (omega arith) (omega arith) slow-Takes

abbrev pub no_game : View
no_game =
    (initial
      (record {
        session_id = 5;
        turn_direction = 0;
        next_expected_event_no = 0;
        player_name = replicate 21 0;
      })
      (replicate 1024 0) (replicate 2048 0)).view

abbrev pub started : View
started = record no_game {
  next_expected_event_no = 1;
  current_game_id = 77;
  players_names = two_names;
  players_num = 2;
  width = 640;
  height = 480;
}

abbrev waiting : ClientState
waiting =
    initial
      (record {
        session_id = 5;
        turn_direction = 0;
        next_expected_event_no = 0;
        player_name = replicate 21 0;
      })
      (replicate 1024 0) (replicate 2048 0)

receive_all-send_events_example :
    (sent : List (List ℕ)) × (t : ClientState) × (send_events one_stored.0
        (λ _. true)
        (replicate 1024 0)
        77
        0
      ≡ some sent)
    × (receive_all (λ n i. slow_send i) sent waiting
        ≡ returns (t, texts (record { event_no = 0; text = first_line } ∷ [])))
    × (t.view ≡ started)
unfolding play check_event on_event_new_game on_game_restart gui_text
    serialize_client_gui_message_new_game print_int digits print_names print_name print_string
    strlen read_at
receive_all-send_events_example =
    receive_all-send_events one_stored.0 [] [] opening (replicate 1024 0) 77 (λ n i. slow_send i)
      waiting started (record { event_no = 0; text = first_line } ∷ []) one_stored.1
      (omega (arith, length-opening), tt) (opening-IsEvent, tt) refl (omega arith) refl refl refl
      (record { nonempty = omega arith; fits = omega arith; taken = slow-Takes }, tt)

abbrev opening_data : NewGame
opening_data = record { max_x = 640; max_y = 480; players_num = 2; players_names = two_names }

-- Behind the start: a pixel, the end of a player and the end of the game.
abbrev short_game : List GameEvent
short_game =
    step
    ∷ record { event_no = 2; body = player_eliminated 0 }
    ∷ record { event_no = 3; body = game_over }
    ∷ []

play-game_example :
    (last : View) × (lines : List Line) × (play no_game
        (map received (record { event_no = 0; body = new_game opening_data } ∷ short_game))
      ≡ some (last, lines))
    × (last.next_expected_event_no ≡ 4)
    × All (λ (l : Line). FitsArray l.text) lines
play-game_example =
    play-game no_game opening_data short_game 4 refl (omega arith) refl opening-IsEvent.body_fits.3
      (omega arith) (refl, (refl, (refl, refl)))
      ((omega arith, omega arith, omega arith), (omega arith, (tt, tt)))
