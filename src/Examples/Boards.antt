-- ===== src/Examples/Boards.antt =====
-- A board of 5 by 4 pixels.
use sik_screen_worms.Prelude.{ℕ, ◌≡◌, arith, some, [], ◌∷◌, true}
use sik_screen_worms.GameBoard.{GameBoard, game_board_create, game_board_set}
use sik_screen_worms.GameBoard.Layout.{IsBoard}
use sik_screen_worms.GameBoard.Pixels.{Sets, game_board_create-IsBoard, game_board_set-Sets}
use sik_screen_worms.Stack.{stack_create, stack_push, Stack}
use sik_screen_worms.Stack.Laws.{Holds, stack_create-Holds, stack_push-Holds}

abbrev small_board : GameBoard
small_board = game_board_create 5 4

small_board-IsBoard : IsBoard small_board
small_board-IsBoard = game_board_create-IsBoard 5 4 (omega arith)

game_board_set-Sets_example :
    (b' : GameBoard) × (game_board_set small_board 4 3 ≡ some b') × Sets small_board 4 3 b'
unfolding game_board_create
game_board_set-Sets_example =
    game_board_set-Sets small_board small_board-IsBoard 4 3 (omega arith) (omega arith)

-- The fifth push makes the stack grow; here it is the first of them.
stack_push-Holds_example :
    (s' : Stack ℕ) × (stack_push true stack_create 7 ≡ some (s', some 0)) × Holds s' (7 ∷ [])
stack_push-Holds_example = stack_push-Holds stack_create [] 7 stack_create-Holds

abbrev one_pushed : Stack ℕ
one_pushed = (stack_push-Holds {A = ℕ} stack_create [] 7 stack_create-Holds).0
