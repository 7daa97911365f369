-- ===== src/LinkedList/Relinking.antt =====
-- What `list_remove` does to the nodes before and behind the one that it takes out.
use sik_screen_worms.Prelude.{
  ℕ, ◌≡◌, ◌≢◌, refl, ◌∙◌, arith, true, false, Option, none, some, List, [], ◌∷◌, ◌==◌,
}
use sik_screen_worms.LinkedList.{
  ListNode, LinkedList, Place, in_list, in_node, Heap, load, store_next, prev_next, next_prev,
  write_prev_next, write_next_prev,
}
use sik_screen_worms.LinkedList.Links.{
  first_of, last_of, Linked, Avoids, Apart, load-set_ne, load-set_self, Linked-set,
}

other_number : (p q : ℕ) → q ≢ p → (q == p) ≡ false
other_number p q ne = ground (arith, ne)

same_number : (p : ℕ) → (p == p) ≡ true
same_number p = ground arith

module _ {ℓ} {A : Type ℓ} where
  abbrev pub last_address : ℕ → List (ℕ × A) → ℕ
  last_address q [] = q
  last_address q ((p, a) ∷ cells) = last_address p cells

  pub last_of-address :
      (q : ℕ) (cells : List (ℕ × A)) → last_of cells (some q) ≡ some (last_address q cells)
  last_of-address q [] = refl
  last_of-address q ((p, a) ∷ cells) = last_of-address p cells

  last_address-ne :
      (p q : ℕ) (cells : List (ℕ × A)) → q ≢ p → Avoids p cells → last_address q cells ≢ p
  last_address-ne p q [] ne out = ne
  last_address-ne p q ((r, a) ∷ cells) ne (ne2, out) = last_address-ne p r cells ne2 out

  -- Where the link to the first node behind `front` stands, and the link back to the last one
  -- before `back`.
  abbrev pub place_before : List (ℕ × A) → Place
  place_before [] = in_list
  place_before ((q, b) ∷ cells) = in_node (last_address q cells)

  abbrev pub place_behind : List (ℕ × A) → Place
  place_behind [] = in_list
  place_behind ((r, c) ∷ cells) = in_node r

  module _ (heap : Heap A) (list : LinkedList) (p : ℕ) (n : ListNode A)
      (found : load heap p ≡ some n) where
    pub prev_next_lem :
        (front : List (ℕ × A))
        → list.head ≡ first_of front (some p)
        → Avoids p front
        → n.prev ≡ last_of front none
        → prev_next heap list p ≡ some (place_before front)
    unfolding prev_next
    prev_next_lem [] e out k = rw (e, same_number p)
    prev_next_lem ((q, b) ∷ front) e (ne, out) k =
        rw (e, other_number p q ne, found, k, last_of-address q front)

    pub next_prev_lem :
        (back : List (ℕ × A))
        → list.tail ≡ last_of back (some p)
        → Avoids p back
        → n.next ≡ first_of back none
        → next_prev heap list p ≡ some (place_behind back)
    unfolding next_prev
    next_prev_lem [] e out k = rw (e, same_number p)
    next_prev_lem ((r, c) ∷ back) e (ne, out) k = rw (
      e,
      last_of-address r back,
      other_number p (last_address r back) (last_address-ne p r back ne out),
      found,
      k,
    )

  -- Nodes other than those of a run are as before.
  abbrev pub Frame : Heap A → Heap A → List (ℕ × A) → Type ℓ
  Frame before after cells = (p : ℕ) → Avoids p cells → load after p ≡ load before p

  pub store_last :
      (heap : Heap A) (before : Option ℕ) (q : ℕ) (b : A) (cells : List (ℕ × A))
      (beyond v : Option ℕ)
      → Linked heap before ((q, b) ∷ cells) beyond
      → Apart ((q, b) ∷ cells)
      → (after : Heap A) × (store_next heap (last_address q cells) v ≡ some after)
        × Linked after before ((q, b) ∷ cells) v
        × Frame heap after ((q, b) ∷ cells)
  store_last heap before q b [] beyond v (e, h) apart =
      (_, rw e refl, (load-set_self heap q _ _ e, tt), λ p out. load-set_ne heap p q _ out.0)
  store_last heap before q b ((r, c) ∷ cells) beyond v (e, h) (out, apart) =
      let (after, w, k, f) = store_last heap (some q) r c cells beyond v h apart in
      (after, w, (f q out ∙ e, k), λ p o. f p o.1)

  -- The run in front of the node gets a new link at its end.
  pub write_prev_next_lem :
      (heap : Heap A) (list : LinkedList) (front : List (ℕ × A)) (old v : Option ℕ)
      → Linked heap none front old
      → Apart front
      → list.head ≡ first_of front old
      → (after : Heap A) × (next : LinkedList) × (write_prev_next heap list (place_before front) v
          ≡ some (after, next))
        × Linked after none front v
        × Frame heap after front
        × (next.head ≡ first_of front v)
        × (next.tail ≡ list.tail)
        × (next.size ≡ list.size)
  unfolding write_prev_next
  write_prev_next_lem heap list [] old v h apart e =
      (heap, record list { head = v }, refl, tt, λ p out. refl, refl, refl, refl)
  write_prev_next_lem heap list ((q, b) ∷ cells) old v h apart e =
      let (after, w, k, f) = store_last heap none q b cells old v h apart in
      (after, list, rw w, k, f, e, refl, refl)

  -- The run behind the node gets a new link at its start.
  pub write_next_prev_lem :
      (heap : Heap A) (list : LinkedList) (back : List (ℕ × A)) (old v : Option ℕ)
      → Linked heap old back none
      → Apart back
      → list.tail ≡ last_of back old
      → (after : Heap A) × (next : LinkedList) × (write_next_prev heap list (place_behind back) v
          ≡ some (after, next))
        × Linked after v back none
        × Frame heap after back
        × (next.tail ≡ last_of back v)
        × (next.head ≡ list.head)
        × (next.size ≡ list.size)
  unfolding write_next_prev
  write_next_prev_lem heap list [] old v h apart e =
      (heap, record list { tail = v }, refl, tt, λ p out. refl, refl, refl, refl)
  write_next_prev_lem heap list ((r, c) ∷ cells) old v (e1, h) (out, apart) e = (
    _,
    list,
    rw e1 refl,
    (load-set_self heap r _ _ e1, Linked-set heap (some r) cells none r _ out h),
    λ p o. load-set_ne heap p r _ o.0,
    e,
    refl,
    refl,
  )
