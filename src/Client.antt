-- ===== src/Client.antt =====
-- client/main.c: the state of the client between two messages, and what its handlers do to it.
-- What the sockets answer is an argument. `fatal` and `exit` end the program. Reading the timer,
-- freeing the names of the last game and the output are left out.
pub mod Keys
pub mod Ordered
pub mod Playing
pub mod Accepting
pub mod Complete
pub mod Session
pub mod Kept
pub mod Running
pub mod Ticking
use sik_screen_worms.Prelude.{
  ℕ, ◌+◌, ◌%◌, ◌^◌, Bool, true, false, not, Option, none, some, List, [], ◌∷◌, ◌++◌, leb, ltb, ◌==◌,
  if◌then◌else◌,
}
use sik_screen_worms.Memory.{◌>>=◌}
use sik_screen_worms.Messages.{
  ClientMessage, NewGame, Pixel, EventData, new_game, pixel, player_eliminated, game_over, unknown,
  GameEvent, ok, refused, fault,
}
use sik_screen_worms.GuiMessages.{
  GuiAction, error, left_key_down, left_key_up, right_key_down, right_key_up,
}
use sik_screen_worms.GuiClient.{
  gui_client_send_event, gui_client_recv_event, GuiReceived, lost, actions, StreamEnd,
}
use sik_screen_worms.GameClient.{game_client_send, game_client_recv}

-- `turn_direction`, `left_key_down` and `right_key_down`.
pub record KeyState : Type 0 where
  pub turn_direction : ℕ
  pub left_down : Bool
  pub right_down : Bool

-- What the events of a game are checked against: `next_expected_event_no`, `current_game_id`, the
-- names of the players and their number, and the size of the board.
pub record View : Type 0 where
  pub next_expected_event_no : ℕ
  pub current_game_id : ℕ
  pub players_names : List (List ℕ)
  pub players_num : ℕ
  pub width : ℕ
  pub height : ℕ

-- The other global variables: the message to the server, and the buffers of the two connections.
pub record ClientState : Type 0 where
  pub keys : KeyState
  pub view : View
  pub client_message : ClientMessage
  pub game_buffer : List ℕ
  pub gui_buffer : List ℕ

-- How a handler ends: it returns, it ends the program, or it leaves an object.
pub data Ran {ℓ} (A : Type ℓ) : Type ℓ where
  returns : A → Ran A
  exits : Ran A
  faults : Ran A

-- PD_FORWARD is 0, PD_RIGHT is 1 and PD_LEFT is 2.
unfoldable pub press : GuiAction → KeyState → KeyState
press left_key_down k = record k { left_down = true; turn_direction = 2 }
press right_key_down k = record k { right_down = true; turn_direction = 1 }
press left_key_up k = record k { left_down = false; turn_direction = if k.right_down then 1 else 0 }
press right_key_up k = record k {
  right_down = false;
  turn_direction = if k.left_down then 2 else 0;
}
press error k = k

-- The loop over the messages of the interface.
unfoldable pub press_all : List GuiAction → KeyState → KeyState
unfolding press
press_all [] k = k
press_all (a ∷ rest) k = press_all rest (press a k)

unfoldable pub handle_gui_message :
    ClientState → List (List ℕ) → StreamEnd → StreamEnd → Ran ClientState
unfolding press_all
handle_gui_message s pieces end full = elim (gui_client_recv_event pieces end full) [
  | none ↦ faults
  | some received ↦ elim received.1 [
    | actions n list ↦
        if n == 0
        then exits
        else returns (record s { keys = press_all list s.keys; gui_buffer = received.0 })
    | other ↦ exits
  ]
]

-- The message that goes out, the bytes sent and the state after the tick of the timer.
unfoldable pub handle_tick : ClientState → Option ℕ → Ran (ClientState × List ℕ)
handle_tick s answer =
    let message = record s.client_message {
      turn_direction = s.keys.turn_direction;
      next_expected_event_no = s.view.next_expected_event_no;
    } in
    elim (game_client_send s.game_buffer message answer) [
      | none ↦ faults
      | some r ↦ returns (record s { client_message = message; game_buffer = r.0 }, r.1)
    ]

unfoldable pub on_game_restart : View → ℕ → View
on_game_restart v game_id = record v {
  current_game_id = game_id;
  next_expected_event_no = 0;
  players_names = [];
  players_num = 0;
}

-- The view behind the checks of an event; `none` is `fatal`.
unfoldable pub on_event_new_game : View → ℕ → NewGame → Option View
on_event_new_game v event_no d =
    if not (event_no == 0)
    then none
    else if ltb d.players_num 2
    then none
    else some (record v {
      players_num = d.players_num;
      players_names = d.players_names;
      width = d.max_x;
      height = d.max_y;
    })

unfoldable pub on_event_pixel : View → Pixel → Option View
on_event_pixel v d =
    if leb v.players_num d.player_number
    then none
    else if leb v.width d.x
    then none
    else if leb v.height d.y
    then none
    else some v

unfoldable pub on_event_player_eliminated : View → ℕ → Option View
on_event_player_eliminated v player_number =
    if leb v.players_num player_number then none else some v

-- The `switch` on the type of an event that goes to the interface.
unfoldable pub check_event : View → GameEvent → Option View
unfolding on_event_new_game on_event_pixel on_event_player_eliminated
check_event v e = elim e.body [
  | new_game d ↦ on_event_new_game v e.event_no d
  | pixel d ↦ on_event_pixel v d
  | player_eliminated n ↦ on_event_player_eliminated v n
  | game_over ↦ some v
  | unknown t ↦ some v
]

-- GAME_OVER and unknown types go no further.
abbrev pub is_shown : EventData → Bool
is_shown (new_game d) = true
is_shown (pixel d) = true
is_shown (player_eliminated n) = true
is_shown game_over = false
is_shown (unknown t) = false

-- `next_expected_event_no++`.
abbrev pub next_event : View → View
next_event v = record v { next_expected_event_no = (v.next_expected_event_no + 1) % 2 ^ 32 }

-- Behind `gui_client_send_event`: its failure ends the loop, and `rest` is the loop behind it.
unfoldable pub shown :
    View
    → Option (List ℕ × List ℕ × Bool)
    → (View → List ℕ → Ran (View × List ℕ × List ℕ))
    → Ran (View × List ℕ × List ℕ)
shown v none rest = faults
shown v (some (buffer, text, false)) rest = returns (v, buffer, text)
shown v (some (buffer, text, true)) rest = elim (rest (next_event v) buffer) [
  | returns r ↦ returns (r.0, r.1, text ++ r.2)
  | exits ↦ exits
  | faults ↦ faults
]

-- The loop over the events of a message. `send n` are the answers of `send` for the event with
-- number `n`. Beside the view and the buffer: the bytes that went to the interface.
unfoldable pub deliver :
    (ℕ → ℕ → Option ℕ) → List GameEvent → View → List ℕ → Ran (View × List ℕ × List ℕ)
unfolding check_event shown
deliver send [] v buffer = returns (v, buffer, [])
deliver send (e ∷ es) v buffer =
    let rest = λ (w : View) (b : List ℕ). deliver send es w b in
    if e.event_no == v.next_expected_event_no
    then elim (check_event v e) [
      | none ↦ exits
      | some w ↦
          if is_shown e.body
          then shown w (gui_client_send_event (send e.event_no) buffer e.body w.players_names) rest
          else rest (next_event w) buffer
    ]
    else returns (v, buffer, [])

-- A new id starts a new game.
abbrev pub view_for : View → ℕ → View
view_for v game_id = if v.current_game_id == game_id then v else on_game_restart v game_id

-- A datagram, if `recv` gives one. Beside the state: the bytes that went to the interface.
unfoldable pub handle_server_message :
    ClientState → Option (List ℕ) → (ℕ → ℕ → Option ℕ) → Ran (ClientState × List ℕ)
unfolding on_game_restart deliver
handle_server_message s datagram send = elim (game_client_recv s.game_buffer datagram) [
  | none ↦ faults
  | some (buffer, fault) ↦ faults
  | some (buffer, refused) ↦ returns (record s { game_buffer = buffer }, [])
  | some (buffer, ok (game_id, [])) ↦ returns (record s { game_buffer = buffer }, [])
  | some (buffer, ok (game_id, e ∷ es)) ↦
      elim (deliver send (e ∷ es) (view_for s.view game_id) s.gui_buffer) [
        | returns r ↦ returns (record s { game_buffer = buffer; view = r.0; gui_buffer = r.1 }, r.2)
        | exits ↦ exits
        | faults ↦ faults
      ]
]
