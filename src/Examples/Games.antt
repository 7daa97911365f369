-- ===== src/Examples/Games.antt =====
-- A game of two players on 5 by 4 pixels. Coordinates are whole numbers here, counted from the
-- pixel left of the board or above it, and a step goes to the next pixel.
use sik_screen_worms.Prelude.{
  ℕ, ◌+◌, ◌-◌, ◌≡◌, arith, Bool, true, ◌||◌, some, List, [], ◌∷◌, leb, ltb, ◌==◌, if◌then◌else◌,
}
use mathlib.Core.List.{Permᴰ}
use sik_screen_worms.Game.{Player, Game}
use sik_screen_worms.Game.Reals.{Reals}
use sik_screen_worms.Game.Sorting.{sort_players}
use sik_screen_worms.Game.Lobby.{initial_game}
use sik_screen_worms.Game.Ordering.{Sorted, sort_players-Sorted}
use sik_screen_worms.Game.Invariant.{IsSize, IsGame, initial_game-IsGame}
use sik_screen_worms.Game.Safety.{Call, tick, joins, leaves, turns, run, run-IsGame}

abbrev walk : Bool → ℕ → ℕ
walk forward p = if forward then p + 1 else p - 1

abbrev pub grid : Reals
grid = record {
  Pos = ℕ;
  zero_pos = 1;
  centre = λ n. n + 1;
  cell = λ p. p - 1;
  step_x = λ d p. walk (ltb d 90 || ltb 270 d) p;
  step_y = λ d p. walk (ltb d 180) p;
  outside = λ p bound. p == 0 || leb bound (p - 1);
  cell-centre = λ n h. omega arith;
  cell-inside = λ p bound h q. ground (arith, q);
}

abbrev small : IsSize 5 4
small = record {
  small_w = omega arith;
  small_h = omega arith;
  some_w = omega arith;
  some_h = omega arith;
}

abbrev worm : ℕ → ℕ → ℕ → ℕ → Player ℕ
worm status session_id name x = record {
  status = status;
  session_id = session_id;
  player_name = name ∷ [];
  turn_direction = 1;
  direction = 10;
  x_pos = x;
  y_pos = 2;
}

-- Two players that are ready.
abbrev ready : Game ℕ
ready = record (initial_game grid 5 4 6) {
  waiting = worm 1 11 98 1 ∷ worm 1 12 97 1 ∷ [];
  players_ready = 2;
}

-- The same two in a game.
abbrev pub playing : Game ℕ
playing = record (initial_game grid 5 4 6) {
  in_progress = true;
  players = worm 2 12 97 2 ∷ worm 2 11 98 4 ∷ [];
  players_alive = 2;
  next_event_no = 3;
}

abbrev session : List Call
session =
    joins 11 (98 ∷ []) ∷ joins 12 (97 ∷ []) ∷ turns 11 1 ∷ turns 12 2 ∷ tick ∷ leaves 12 ∷ tick ∷ []

run-IsGame_example :
    (g' : Game ℕ) × (rand' : ℕ) × (run grid session (initial_game grid 5 4 6) 420042
      ≡ some (g', rand'))
    × IsGame grid g'
run-IsGame_example =
    run-IsGame grid session (initial_game grid 5 4 6) 420042 (initial_game-IsGame grid 5 4 6 small)

sort_players-Sorted_example :
    Permᴰ ready.waiting (sort_players ready.waiting) × Sorted (sort_players ready.waiting)
sort_players-Sorted_example = sort_players-Sorted ready.waiting
