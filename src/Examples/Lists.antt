-- ===== src/Examples/Lists.antt =====
-- A list of three elements on a heap.
use sik_screen_worms.Prelude.{ℕ, ◌≡◌, refl, arith, true, none, some, List, [], ◌∷◌, ◌++◌, All}
use sik_screen_worms.LinkedList.{LinkedList, Heap, load, list_add, list_remove, list_remove_all}
use sik_screen_worms.LinkedList.Links.{Avoids}
use sik_screen_worms.LinkedList.Relinking.{Frame}
use sik_screen_worms.LinkedList.Refines.{Holds, list_remove-Holds}
use sik_screen_worms.LinkedList.Adding.{list_add-Holds}
use sik_screen_worms.LinkedList.Whole.{list_remove_all-Holds}

-- The nodes for 7, 8 and 9, the second of them at the greatest address.
abbrev three_nodes : Heap ℕ
three_nodes =
    some (record { prev = none; next = some 2; element = 7 })
    ∷ some (record { prev = some 2; next = none; element = 9 })
    ∷ some (record { prev = some 0; next = some 1; element = 8 })
    ∷ []

abbrev three : LinkedList
three = record { size = 3; head = some 0; tail = some 1 }

abbrev three_cells : List (ℕ × ℕ)
three_cells = (0, 7) ∷ (2, 8) ∷ (1, 9) ∷ []

three-Holds : Holds three_nodes three three_cells
three-Holds = record {
  linked = (refl, (refl, (refl, tt)));
  apart = (
    ((λ e. absurd (omega (arith, e))), ((λ e. absurd (omega (arith, e))), tt)),
    (((λ e. absurd (omega (arith, e))), tt), (tt, tt)),
  );
  at_head = refl;
  at_tail = refl;
  counted = refl;
}

list_remove-Holds_example :
    (after : Heap ℕ) × (next : LinkedList) × (list_remove three_nodes three 2 ≡ some (after, next))
    × Holds after next ((0, 7) ∷ (1, 9) ∷ [])
    × (load after 2 ≡ none)
    × Frame three_nodes after three_cells
list_remove-Holds_example =
    list_remove-Holds three_nodes three ((0, 7) ∷ []) ((1, 9) ∷ []) 2 8 three-Holds

list_add-Holds_example :
    (after : Heap ℕ) × (next : LinkedList) × (list_add true three_nodes three 5
      ≡ some (after, next, some 3))
    × Holds after next (three_cells ++ ((3, 5) ∷ []))
    × Avoids 3 three_cells
list_add-Holds_example = list_add-Holds three_nodes three three_cells 5 three-Holds

list_remove_all-Holds_example :
    (after : Heap ℕ) × (next : LinkedList) × (list_remove_all three_nodes three
      ≡ some (after, next))
    × Holds after next []
    × All (λ c. load after c.0 ≡ none) three_cells
    × Frame three_nodes after three_cells
list_remove_all-Holds_example = list_remove_all-Holds three_nodes three three_cells three-Holds
