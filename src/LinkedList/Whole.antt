-- ===== src/LinkedList/Whole.antt =====
-- The loops over a whole list: its callers visit the elements, and `list_remove_all` frees the nodes.
use sik_screen_worms.Prelude.{
  ℕ, zero, suc, ◌+◌, ◌≤◌, ◌≡◌, refl, ap, ◌∙◌, arith, Option, none, some, List, [], ◌∷◌, length, set,
  All, map,
}
use sik_screen_worms.LinkedList.{
  ListNode, LinkedList, Heap, load, list_head, remove_loop, list_remove_all, list_element,
  list_next, visit_all,
}
use sik_screen_worms.LinkedList.Links.{
  first_of, Linked, Apart, load-set_ne, load-set_self, Linked-set,
}
use sik_screen_worms.LinkedList.Relinking.{Frame}
use sik_screen_worms.LinkedList.Refines.{Holds}

module _ {ℓ} {A : Type ℓ} where
  visit_all-Linked :
      (fuel : ℕ) (heap : Heap A) (before : Option ℕ) (cells : List (ℕ × A))
      → Linked heap before cells none
      → length cells ≤ fuel
      → visit_all fuel heap (first_of cells none) ≡ some (map (λ c. c.1) cells)
  unfolding visit_all list_element list_next
  visit_all-Linked zero heap before [] h k = refl
  visit_all-Linked (suc fuel) heap before [] h k = refl
  visit_all-Linked zero heap before (c ∷ cells) h k = elim k [ ]
  visit_all-Linked (suc fuel) heap before ((p, a) ∷ cells) (e, h) k =
      rw (e, visit_all-Linked fuel heap (some p) cells h (omega (arith, k)))

  -- The cells in use.
  abbrev live : Heap A → ℕ
  live [] = 0
  live (none ∷ heap) = live heap
  live (some n ∷ heap) = suc (live heap)

  live-le : (heap : Heap A) → live heap ≤ length heap
  live-le [] = omega arith
  live-le (none ∷ heap) = omega (arith, live-le heap)
  live-le (some n ∷ heap) = omega (arith, live-le heap)

  live-release :
      (heap : Heap A) (p : ℕ) (n : ListNode A)
      → load heap p ≡ some n
      → live (set heap p none) + 1 ≡ live heap
  live-release [] p n e = cc
  live-release (none ∷ heap) zero n e = cc
  live-release (some m ∷ heap) zero n e = omega arith
  live-release (none ∷ heap) (suc p) n e = live-release heap p n e
  live-release (some m ∷ heap) (suc p) n e = omega (arith, live-release heap p n e)

  remove_loop-Linked :
      (fuel : ℕ) (heap : Heap A) (before : Option ℕ) (cells : List (ℕ × A))
      → Linked heap before cells none
      → Apart cells
      → live heap ≤ fuel
      → (after : Heap A) × (remove_loop fuel heap (first_of cells none) ≡ some after)
        × All (λ c. load after c.0 ≡ none) cells
        × Frame heap after cells
  unfolding remove_loop
  remove_loop-Linked zero heap before [] h apart k = (heap, refl, tt, λ p out. refl)
  remove_loop-Linked (suc fuel) heap before [] h apart k = (heap, refl, tt, λ p out. refl)
  remove_loop-Linked zero heap before ((p, a) ∷ cells) (e, h) apart k =
      absurd (omega (arith, k, live-release heap p _ e))
  remove_loop-Linked (suc fuel) heap before ((p, a) ∷ cells) (e, h) (out, apart) k =
      let freed : Heap A = set heap p none in
      let (after, run, gone, f) =
        remove_loop-Linked fuel freed (some p) cells
          (Linked-set heap (some p) cells none p none out h) apart
          (omega (arith, k, live-release heap p _ e)) in
      (
        after,
        rw (e, run),
        (f p out ∙ load-set_self heap p _ none e, gone),
        λ q o. f q o.1 ∙ load-set_ne heap q p none o.0,
      )

  -- The loop from the head on with `list_next`, which the callers of the list write, visits the
  -- elements in order and ends behind the last of them, with one round for each.
  pub visit_all-Holds :
      (heap : Heap A) (list : LinkedList) (cells : List (ℕ × A)) (fuel : ℕ)
      → Holds heap list cells
      → length cells ≤ fuel
      → visit_all fuel heap (list_head list) ≡ some (map (λ c. c.1) cells)
  unfolding list_head
  visit_all-Holds heap list cells fuel h k =
      ap (visit_all fuel heap) h.at_head ∙ visit_all-Linked fuel heap none cells h.linked k

  -- All nodes are freed, no other cell of the heap changes, and the list is empty. The loop ends.
  pub list_remove_all-Holds :
      (heap : Heap A) (list : LinkedList) (cells : List (ℕ × A))
      → Holds heap list cells
      → (after : Heap A) × (next : LinkedList) × (list_remove_all heap list ≡ some (after, next))
        × Holds after next []
        × All (λ c. load after c.0 ≡ none) cells
        × Frame heap after cells
  unfolding list_remove_all
  list_remove_all-Holds heap list cells h =
      let (after, run, gone, f) =
        remove_loop-Linked (length heap) heap none cells h.linked h.apart (live-le heap) in
      (
        after,
        record { size = 0; head = none; tail = none },
        rw (h.at_head, run),
        record { linked = tt; apart = tt; at_head = refl; at_tail = refl; counted = refl },
        gone,
        f,
      )
