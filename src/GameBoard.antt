-- ===== src/GameBoard.antt =====
-- server/game_board.c: the board of eaten pixels, one bit for each. `none` is a failed assert or an
-- access outside the array `data`; a `size_t` wraps at 2 ^ 64, and a byte of `data` at 256.
pub mod Bytes
pub mod Layout
pub mod Pixels
use sik_screen_worms.Prelude.{
  ℕ, ◌+◌, ◌*◌, ◌/◌, ◌%◌, ◌^◌, Bool, ◌&&◌, Option, none, some, List, ltb, ◌==◌, if◌then◌else◌,
  bit_and, bit_or, get_elem?, set, replicate,
}

pub record GameBoard : Type 0 where
  pub width : ℕ
  pub height : ℕ
  pub cells : List ℕ

-- `width * height` bits, rounded up to bytes.
abbrev pub board_size : ℕ → ℕ
board_size pixel_num = if pixel_num % 8 == 0 then pixel_num / 8 else pixel_num / 8 + 1

unfoldable pub game_board_create : ℕ → ℕ → GameBoard
game_board_create width height = record {
  width = width;
  height = height;
  cells = replicate (board_size (width * height % 2 ^ 64)) 0;
}

-- `board->width * y + x`.
abbrev pub index : GameBoard → ℕ → ℕ → ℕ
index board x y = (board.width * y + x) % 2 ^ 64

pub game_board_set : GameBoard → ℕ → ℕ → Option GameBoard
game_board_set board x y =
    if ltb x board.width && ltb y board.height
    then elim (get_elem? board.cells (index board x y / 8)) [
      | none ↦ none
      | some cell ↦ some (record board {
        cells =
            set board.cells (index board x y / 8) (bit_or cell (2 ^ (index board x y % 8)) % 256);
      })
    ]
    else none

pub game_board_get : GameBoard → ℕ → ℕ → Option Bool
game_board_get board x y =
    if ltb x board.width && ltb y board.height
    then elim (get_elem? board.cells (index board x y / 8)) [
      | none ↦ none
      | some cell ↦ some (ltb 0 (bit_and cell (2 ^ (index board x y % 8))))
    ]
    else none
