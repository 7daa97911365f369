-- ===== src/Messages.antt =====
-- common/messages.h and common/messages.c: the messages between client and server, and the game
-- events that the server sends. The children hold the serializers, the deserializers and proofs.
pub mod Client
pub mod ClientLaws
pub mod ClientRoundTrip
pub mod Event
pub mod Parse
pub mod Encoding
mod Bodies
pub mod Writing
mod ReadBack
pub mod RoundTrip
pub mod Robustness
pub mod Corruption
use sik_screen_worms.Prelude.{ℕ, List}

pub record ClientMessage : Type 0 where
  pub session_id : ℕ
  pub turn_direction : ℕ
  pub next_expected_event_no : ℕ
  pub player_name : List ℕ

-- `players_names` holds a pointer for each name: the bytes from it on.
pub record NewGame : Type 0 where
  pub max_x : ℕ
  pub max_y : ℕ
  pub players_num : ℕ
  pub players_names : List (List ℕ)

pub record Pixel : Type 0 where
  pub player_number : ℕ
  pub x : ℕ
  pub y : ℕ

-- The tag `type` and the member of the union that goes with it. Of a tag above 3 the code sets and
-- reads no member.
pub data EventData : Type 0 where
  new_game : NewGame → EventData
  pixel : Pixel → EventData
  player_eliminated : ℕ → EventData
  game_over : EventData
  unknown : ℕ → EventData

pub record GameEvent : Type 0 where
  pub event_no : ℕ
  pub body : EventData

-- GE_NEW_GAME, GE_PIXEL, GE_PLAYER_ELIMINATED and GE_GAME_OVER.
abbrev pub event_type : EventData → ℕ
event_type (new_game d) = 0
event_type (pixel d) = 1
event_type (player_eliminated n) = 2
event_type game_over = 3
event_type (unknown t) = t

-- How a deserializer ends: with a value, by returning -1, or by reading outside an object.
pub data Outcome {ℓ} (A : Type ℓ) : Type ℓ where
  ok : A → Outcome A
  refused : Outcome A
  fault : Outcome A
