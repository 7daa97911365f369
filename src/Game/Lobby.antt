-- ===== src/Game/Lobby.antt =====
-- Who is in the game: creating it, players and observers that come and go, their directions, and
-- the restart. A `uint32_t` counter wraps at 2 ^ 32.
use sik_screen_worms.Prelude.{
  ℕ, ◌+◌, ◌-◌, ◌%◌, ◌^◌, Bool, true, false, ◌&&◌, Option, none, some, List, [], ◌∷◌, ◌++◌, ltb,
  ◌==◌, if◌then◌else◌, take, map, get_or,
}
use sik_screen_worms.GameBoard.{game_board_create}
use sik_screen_worms.Game.{Player, Game, ps_waiting, ps_disconnected, has_flag, set_flag}
use sik_screen_worms.Game.Reals.{Reals}

-- The new value of `players_ready`, from the direction of the player and the one requested.
unfoldable pub ready_after : ℕ → ℕ → ℕ → ℕ
ready_after players_ready old turn_direction =
    if old == 0 && ltb 0 turn_direction
    then (players_ready + 1) % 2 ^ 32
    else if ltb 0 old && turn_direction == 0
    then (players_ready + 2 ^ 32 - 1) % 2 ^ 32
    else players_ready

module _ {Pos : Type 0} where
  -- The node found is the first with the session; `has_player` says whether there is one.
  unfoldable pub has_player : List (Player Pos) → ℕ → Bool
  has_player [] session_id = false
  has_player (p ∷ ps) session_id =
      if p.session_id == session_id then true else has_player ps session_id

  -- A change of that player in place, and the removal of its node.
  unfoldable pub change_player :
      (Player Pos → Player Pos) → List (Player Pos) → ℕ → List (Player Pos)
  change_player f [] session_id = []
  change_player f (p ∷ ps) session_id =
      if p.session_id == session_id then f p ∷ ps else p ∷ change_player f ps session_id

  unfoldable pub remove_player : List (Player Pos) → ℕ → List (Player Pos)
  remove_player [] session_id = []
  remove_player (p ∷ ps) session_id =
      if p.session_id == session_id then ps else p ∷ remove_player ps session_id

  unfoldable pub find_player : List (Player Pos) → ℕ → Option (Player Pos)
  find_player [] session_id = none
  find_player (p ∷ ps) session_id =
      if p.session_id == session_id then some p else find_player ps session_id

  -- The players that stay for the next game.
  unfoldable pub connected : List (Player Pos) → List (Player Pos)
  connected [] = []
  connected (p ∷ ps) = if has_flag p.status ps_disconnected then connected ps else p ∷ connected ps

  unfoldable pub rest_player : Player Pos → Player Pos
  rest_player p = record p { turn_direction = 0; status = ps_waiting }

  unfoldable pub game_restart : Game Pos → Game Pos
  unfolding connected rest_player
  game_restart g = record g {
    in_progress = false;
    players_ready = 0;
    players_alive = 0;
    next_event_no = 0;
    board = game_board_create g.width g.height;
    players_names = [];
    waiting = map rest_player (g.waiting ++ connected g.players);
    players = [];
  }

  -- The returned flag is true when the player was taken out of a list, false otherwise.
  unfoldable pub game_remove_player : Game Pos → ℕ → Game Pos × Bool
  unfolding has_player change_player remove_player
  game_remove_player g session_id =
      if has_player g.observers session_id
      then (record g { observers = remove_player g.observers session_id }, true)
      else if has_player g.waiting session_id
      then (record g { waiting = remove_player g.waiting session_id }, true)
      else if has_player g.players session_id
      then (
        record g {
          players =
              change_player (λ p. record p { status = set_flag p.status ps_disconnected }) g.players
                session_id;
        },
        false,
      )
      else (g, false)

  unfoldable pub game_set_turn_direction : Game Pos → ℕ → ℕ → Game Pos × Bool
  unfolding has_player change_player find_player ready_after
  game_set_turn_direction g session_id turn_direction =
      if g.in_progress
      then (if has_player g.players session_id
          then (
            record g {
              players =
                  change_player (λ p. record p { turn_direction = turn_direction }) g.players
                    session_id;
            },
            true,
          )
          else (g, false))
      else elim (find_player g.waiting session_id) [
        | none ↦ (g, false)
        | some player ↦ (
          record g {
            players_ready = ready_after g.players_ready player.turn_direction turn_direction;
            waiting =
                change_player (λ p. record p { turn_direction = turn_direction }) g.waiting
                  session_id;
          },
          true,
        )
      ]

module _ (R : Reals) where
  open R use {Pos, zero_pos}

  -- The fields that `game_create` sets.
  unfoldable pub initial_game : ℕ → ℕ → ℕ → Game Pos
  initial_game width height turning_speed = record {
    in_progress = false;
    game_id = 0;
    width = width;
    height = height;
    turning_speed = turning_speed;
    next_event_no = 0;
    players = [];
    waiting = [];
    observers = [];
    board = game_board_create width height;
    players_alive = 0;
    players_ready = 0;
    players_names = [];
  }

  -- `memory` says whether memory is found for the game, and `parts` whether it is found for its lists
  -- and its board; `none` is NULL.
  unfoldable pub game_create : Bool → Bool → ℕ → ℕ → ℕ → Option (Game Pos)
  unfolding initial_game
  game_create memory parts width height turning_speed =
      if memory && parts then some (initial_game width height turning_speed) else none

  -- The code leaves `direction` uninitialised; the start of a game sets it before it is read.
  unfoldable pub player_create : ℕ → List ℕ → Player Pos
  player_create session_id player_name = record {
    status = ps_waiting;
    session_id = session_id;
    player_name = take 21 player_name;
    turn_direction = 0;
    direction = 0;
    x_pos = zero_pos;
    y_pos = zero_pos;
  }

  unfoldable pub add_observer : Game Pos → ℕ → List ℕ → Game Pos
  unfolding player_create has_player
  add_observer g session_id player_name =
      if has_player g.observers session_id
      then g
      else record g { observers = g.observers ++ (player_create session_id player_name ∷ []) }

  unfoldable pub add_player : Game Pos → ℕ → List ℕ → Game Pos
  unfolding player_create has_player
  add_player g session_id player_name =
      if has_player g.players session_id
      then g
      else if has_player g.waiting session_id
      then g
      else record g { waiting = g.waiting ++ (player_create session_id player_name ∷ []) }

  -- `player_name[0]` is the first byte of the name.
  unfoldable pub game_add_player : Game Pos → ℕ → List ℕ → Game Pos
  unfolding add_observer add_player
  game_add_player g session_id player_name =
      if get_or player_name 0 0 == 0
      then add_observer g session_id player_name
      else add_player g session_id player_name
