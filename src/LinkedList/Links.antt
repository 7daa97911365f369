-- ===== src/LinkedList/Links.antt =====
-- A run of nodes that are linked in both directions, and what a write to a heap does to it.
use sik_screen_worms.Prelude.{
  ℕ, zero, suc, ◌<◌, ◌≡◌, ◌≢◌, refl, sym, ap, ◌∙◌, arith, Option, some, List, [], ◌∷◌, ◌++◌, length,
  get_elem?-set_self, get_elem?-set_ne, set, All,
}
use sik_screen_worms.Memory.{◌>>=◌}
use sik_screen_worms.LinkedList.{ListNode, Heap, load}

module _ {ℓ} {A : Type ℓ} where
  -- The first and the last pointer of a run, and the pointer beyond it if the run is empty.
  abbrev pub first_of : List (ℕ × A) → Option ℕ → Option ℕ
  first_of [] beyond = beyond
  first_of ((p, a) ∷ cells) beyond = some p

  abbrev pub last_of : List (ℕ × A) → Option ℕ → Option ℕ
  last_of [] before = before
  last_of ((p, a) ∷ cells) before = last_of cells (some p)

  -- The nodes at the given addresses hold the given elements; `before` and `beyond` are the links
  -- that lead out of the run.
  abbrev pub Linked : Heap A → Option ℕ → List (ℕ × A) → Option ℕ → Type ℓ
  Linked heap before [] beyond = Unit {ℓ}
  Linked heap before ((p, a) ∷ cells) beyond =
      (load heap p ≡ some (record { prev = before; next = first_of cells beyond; element = a }))
      × Linked heap (some p) cells beyond

  abbrev pub Avoids : ℕ → List (ℕ × A) → Type 0
  Avoids p = All (λ c. c.0 ≢ p)

  abbrev pub Apart : List (ℕ × A) → Type 0
  Apart [] = Unit
  Apart ((p, a) ∷ cells) = Avoids p cells × Apart cells

  pub load-set_ne :
      (heap : Heap A) (p q : ℕ) (cell : Option (ListNode A))
      → q ≢ p
      → load (set heap q cell) p ≡ load heap p
  load-set_ne heap p q cell ne = ap (λ o. o >>= λ c. c) (get_elem?-set_ne heap q p cell ne)

  pub load-lt : (heap : Heap A) (p : ℕ) (n : ListNode A) → load heap p ≡ some n → p < length heap
  load-lt [] p n e = cc
  load-lt (c ∷ heap) zero n e = omega arith
  load-lt (c ∷ heap) (suc p) n e = omega (arith, load-lt heap p n e)

  pub load-set_self :
      (heap : Heap A) (p : ℕ) (n : ListNode A) (cell : Option (ListNode A))
      → load heap p ≡ some n
      → load (set heap p cell) p ≡ cell
  load-set_self heap p n cell e =
      ap (λ o. o >>= λ c. c) (get_elem?-set_self heap p cell (load-lt heap p n e))

  -- A write to a node outside the run.
  pub Linked-set :
      (heap : Heap A) (before : Option ℕ) (cells : List (ℕ × A)) (beyond : Option ℕ) (q : ℕ)
      (cell : Option (ListNode A))
      → Avoids q cells
      → Linked heap before cells beyond
      → Linked (set heap q cell) before cells beyond
  Linked-set heap before [] beyond q cell out h = tt
  Linked-set heap before ((p, a) ∷ cells) beyond q cell (ne, out) (e, h) = (
    load-set_ne heap p q cell (λ eq. ne (sym eq)) ∙ e,
    Linked-set heap (some p) cells beyond q cell out h,
  )

  pub first_of-append :
      (xs ys : List (ℕ × A)) (beyond : Option ℕ)
      → first_of (xs ++ ys) beyond ≡ first_of xs (first_of ys beyond)
  first_of-append [] ys beyond = refl
  first_of-append (x ∷ xs) ys beyond = refl

  pub last_of-append :
      (xs ys : List (ℕ × A)) (before : Option ℕ)
      → last_of (xs ++ ys) before ≡ last_of ys (last_of xs before)
  last_of-append [] ys before = refl
  last_of-append ((p, a) ∷ xs) ys before = last_of-append xs ys (some p)

  pub Linked-append :
      (heap : Heap A) (before : Option ℕ) (xs ys : List (ℕ × A)) (beyond : Option ℕ)
      → Linked heap before xs (first_of ys beyond)
      → Linked heap (last_of xs before) ys beyond
      → Linked heap before (xs ++ ys) beyond
  Linked-append heap before [] ys beyond h k = k
  Linked-append heap before ((p, a) ∷ xs) ys beyond (e, h) k = (
    e
        ∙ ap (λ n. some (record { prev = before; next = n; element = a }))
            (sym (first_of-append xs ys beyond)),
    Linked-append heap (some p) xs ys beyond h k,
  )

  pub Linked-split :
      (heap : Heap A) (before : Option ℕ) (xs ys : List (ℕ × A)) (beyond : Option ℕ)
      → Linked heap before (xs ++ ys) beyond
      → Linked heap before xs (first_of ys beyond) × Linked heap (last_of xs before) ys beyond
  Linked-split heap before [] ys beyond h = (tt, h)
  Linked-split heap before ((p, a) ∷ xs) ys beyond (e, h) =
      let (k, l) = Linked-split heap (some p) xs ys beyond h in
      (
        (
          e
              ∙ ap (λ n. some (record { prev = before; next = n; element = a }))
                  (first_of-append xs ys beyond),
          k,
        ),
        l,
      )
