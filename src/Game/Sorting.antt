-- ===== src/Game/Sorting.antt =====
-- `sort_players`: a selection sort by the names.
use sik_screen_worms.Prelude.{ℕ, zero, suc, ◌+◌, List, [], ◌∷◌, ◌++◌, if◌then◌else◌, length}
use sik_screen_worms.Game.{Player}
use sik_screen_worms.Game.Names.{name_lt}

module _ {Pos : Type 0} where
  -- `list_remove` of the node at an index.
  unfoldable pub remove_at : ℕ → List (Player Pos) → List (Player Pos)
  remove_at i [] = []
  remove_at zero (p ∷ ps) = ps
  remove_at (suc i) (p ∷ ps) = p ∷ remove_at i ps

  -- The inner loop, from index `i` on: the index of the least player, and the player.
  unfoldable pub find_min : ℕ → Player Pos → ℕ → List (Player Pos) → ℕ × Player Pos
  find_min min_node min_player i [] = (min_node, min_player)
  find_min min_node min_player i (p ∷ ps) =
      find_min (if name_lt p.player_name min_player.player_name then i else min_node)
        (if name_lt p.player_name min_player.player_name then p else min_player) (i + 1) ps

  -- `while (list_size(players))`; the fuel is the number of the players.
  unfoldable pub sort_loop : ℕ → List (Player Pos) → List (Player Pos) → List (Player Pos)
  sort_loop zero players sorted = sorted
  sort_loop (suc fuel) [] sorted = sorted
  sort_loop (suc fuel) (p ∷ ps) sorted =
      let found = find_min 0 p 1 ps in
      sort_loop fuel (remove_at found.0 (p ∷ ps)) (sorted ++ (found.1 ∷ []))

  unfoldable pub sort_players : List (Player Pos) → List (Player Pos)
  sort_players players = sort_loop (length players) players []
