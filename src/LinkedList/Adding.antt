-- ===== src/LinkedList/Adding.antt =====
-- `list_add` adds one element at the end.
use sik_screen_worms.Prelude.{
  ℕ, zero, suc, ◌+◌, ◌%◌, ◌^◌, ◌≡◌, refl, sym, ap, ◌∙◌, arith, true, Option, none, some, List, [],
  ◌∷◌, ◌++◌, length, length-append, get_elem?-middle,
}
use sik_screen_worms.Memory.{◌>>=◌}
use sik_screen_worms.LinkedList.{ListNode, LinkedList, Heap, load, store_next, list_add}
use sik_screen_worms.LinkedList.Links.{Linked, Avoids, Linked-append, load-lt, last_of-append}
use sik_screen_worms.LinkedList.Relinking.{last_address, last_of-address, store_last}
use sik_screen_worms.LinkedList.Refines.{Holds, Disjoint, Apart-join}

module _ {ℓ} {A : Type ℓ} where
  load-old :
      (heap more : Heap A) (p : ℕ) (n : ListNode A)
      → load heap p ≡ some n
      → load (heap ++ more) p ≡ some n
  load-old [] more p n e = cc
  load-old (c ∷ heap) more zero n e = e
  load-old (c ∷ heap) more (suc p) n e = load-old heap more p n e

  load-new : (heap : Heap A) (n : ListNode A) → load (heap ++ (some n ∷ [])) (length heap) ≡ some n
  load-new heap n = ap (λ o. o >>= λ c. c) (get_elem?-middle heap [] (some n) (length heap) refl)

  Linked-old :
      (heap more : Heap A) (before : Option ℕ) (cells : List (ℕ × A)) (beyond : Option ℕ)
      → Linked heap before cells beyond
      → Linked (heap ++ more) before cells beyond
  Linked-old heap more before [] beyond h = tt
  Linked-old heap more before ((p, a) ∷ cells) beyond (e, h) =
      (load-old heap more p _ e, Linked-old heap more (some p) cells beyond h)

  Linked-Avoids :
      (heap : Heap A) (before : Option ℕ) (cells : List (ℕ × A)) (beyond : Option ℕ)
      → Linked heap before cells beyond
      → Avoids (length heap) cells
  Linked-Avoids heap before [] beyond h = tt
  Linked-Avoids heap before ((p, a) ∷ cells) beyond (e, h) = (
    (λ q. absurd (omega (arith, q, load-lt heap p _ e))),
    Linked-Avoids heap (some p) cells beyond h,
  )

  Avoids-Disjoint :
      (p : ℕ) (a : A) (cells : List (ℕ × A)) → Avoids p cells → Disjoint cells ((p, a) ∷ [])
  Avoids-Disjoint p a [] h = tt
  Avoids-Disjoint p a (c ∷ cells) (ne, h) = (((λ e. ne (sym e)), tt), Avoids-Disjoint p a cells h)

  list_add_steps :
      (heap after : Heap A) (list : LinkedList) (a : A) (last : ℕ)
      → list.tail ≡ some last
      → store_next
          (heap ++ (some (record { prev = some last; next = none; element = a }) ∷ []))
          last
          (some (length heap))
        ≡ some after
      → list_add true heap list a
        ≡ some (
          after,
          record list { size = (list.size + 1) % 2 ^ 64; tail = some (length heap) },
          some (length heap),
        )
  unfolding list_add
  list_add_steps heap after list a last e w = rw (list_add, e, w)

  list_add_first :
      (heap : Heap A) (list : LinkedList) (a : A)
      → list.tail ≡ none
      → list_add true heap list a
        ≡ some (
          heap ++ (some (record { prev = none; next = none; element = a }) ∷ []),
          record {
            size = (list.size + 1) % 2 ^ 64;
            head = some (length heap);
            tail = some (length heap);
          },
          some (length heap),
        )
  unfolding list_add
  list_add_first heap list a e = rw (list_add, e)

  -- With memory, the element is added behind all others, in a new node, whose address no other node
  -- of the list has; the others keep their addresses and elements.
  pub list_add-Holds :
      (heap : Heap A) (list : LinkedList) (cells : List (ℕ × A)) (a : A)
      → Holds heap list cells
      → (after : Heap A) × (next : LinkedList) × (list_add true heap list a
          ≡ some (after, next, some (length heap)))
        × Holds after next (cells ++ ((length heap, a) ∷ []))
        × Avoids (length heap) cells
  list_add-Holds heap list [] a h = (
    _,
    _,
    list_add_first heap list a h.at_tail,
    record {
      linked = (load-new heap _, tt);
      apart = (tt, tt);
      at_head = refl;
      at_tail = refl;
      counted = omega (arith, h.counted);
    },
    tt,
  )
  list_add-Holds heap list ((q, b) ∷ cells) a h =
      let new : ℕ = length heap in
      let last : ℕ = last_address q cells in
      let node : ListNode A = record { prev = some last; next = none; element = a } in
      let whole : List (ℕ × A) = (q, b) ∷ cells in
      let out = Linked-Avoids heap none whole none h.linked in
      let (after, w, k, f) =
        store_last (heap ++ (some node ∷ [])) none q b cells none (some new)
          (Linked-old heap (some node ∷ []) none whole none h.linked) h.apart in
      (
        after,
        record list { size = (list.size + 1) % 2 ^ 64; tail = some new },
        list_add_steps heap after list a last (h.at_tail ∙ last_of-address q cells) w,
        record {
          linked = Linked-append after none whole ((new, a) ∷ []) none k (
            f new out
                ∙ load-new heap node
                ∙ ap (λ t. some (record { prev = t; next = none; element = a }))
                    (sym (last_of-address q cells)),
            tt,
          );
          apart =
              Apart-join whole ((new, a) ∷ []) h.apart (tt, tt) (Avoids-Disjoint new a whole out);
          at_head = h.at_head;
          at_tail = sym (last_of-append whole ((new, a) ∷ []) none);
          counted = omega (arith, h.counted, length-append whole ((new, a) ∷ []));
        },
        out,
      )
