-- ===== src/Game.antt =====
-- server/game.h and server/game.c: the state of a game. The list of a game is the list of its
-- players by value, as `list_add` copies them; allocation succeeds, except that `game_create` is told
-- whether memory is found. A failed assert, a division by zero and an access outside the board are
-- `none`.
pub mod Reals
pub mod Names
pub mod Sorting
pub mod Lobby
pub mod Tick
pub mod Standing
pub mod Moving
pub mod Emitting
pub mod Rounds
pub mod Starting
pub mod Ordering
pub mod Invariant
pub mod Progress
pub mod Waiting
pub mod Safety
use sik_screen_worms.Prelude.{ℕ, ◌%◌, Bool, List, take, bit_or, bit_and, ltb}
use sik_screen_worms.GameBoard.{GameBoard}

-- PS_WAITING, PS_IN_GAME, PS_DEAD and PS_DISCONNECTED.
abbrev pub ps_waiting : ℕ
ps_waiting = 0x1

abbrev pub ps_in_game : ℕ
ps_in_game = 0x2

abbrev pub ps_dead : ℕ
ps_dead = 0x4

abbrev pub ps_disconnected : ℕ
ps_disconnected = 0x8

-- A coordinate is a `double`, which is a parameter of the model.
pub record Player (Pos : Type 0) : Type 0 where
  pub status : ℕ
  pub session_id : ℕ
  pub player_name : List ℕ
  pub turn_direction : ℕ
  pub direction : ℕ
  pub x_pos : Pos
  pub y_pos : Pos

pub record Game (Pos : Type 0) : Type 0 where
  pub in_progress : Bool
  pub game_id : ℕ
  pub width : ℕ
  pub height : ℕ
  pub turning_speed : ℕ
  pub next_event_no : ℕ
  pub players : List (Player Pos)
  pub waiting : List (Player Pos)
  pub observers : List (Player Pos)
  pub board : GameBoard
  pub players_alive : ℕ
  pub players_ready : ℕ
  pub players_names : List (List ℕ)

-- `status & flag` as a condition, and `status |= flag` on a `uint8_t`.
abbrev pub has_flag : ℕ → ℕ → Bool
has_flag status flag = ltb 0 (bit_and status flag)

abbrev pub set_flag : ℕ → ℕ → ℕ
set_flag status flag = bit_or status flag % 256
