-- ===== src/LinkedList/Refines.antt =====
-- The list on the heap stands for a list of elements, and `list_remove` takes one of them out.
use sik_screen_worms.Prelude.{
  ℕ, ◌+◌, ◌-◌, ◌%◌, ◌^◌, ◌≡◌, refl, sym, ◌∙◌, arith, Option, none, some, List, [], ◌∷◌, ◌++◌,
  length, length-append, set, All,
}
use sik_screen_worms.LinkedList.{
  ListNode, LinkedList, Heap, load, list_remove, prev_next, next_prev, write_prev_next,
  write_next_prev,
}
use sik_screen_worms.LinkedList.Links.{
  first_of, last_of, Linked, Avoids, Apart, load-set_ne, load-set_self, Linked-set, Linked-append,
  Linked-split, first_of-append, last_of-append,
}
use sik_screen_worms.LinkedList.Relinking.{
  Frame, place_before, place_behind, prev_next_lem, next_prev_lem, write_prev_next_lem,
  write_next_prev_lem,
}

-- The nodes of the list, with their addresses and elements, in order.
pub record Holds {ℓ} {A : Type ℓ} (heap : Heap A) (list : LinkedList) (cells : List (ℕ × A))
    : Type ℓ where
  pub linked : Linked heap none cells none
  pub apart : Apart cells
  pub at_head : list.head ≡ first_of cells none
  pub at_tail : list.tail ≡ last_of cells none
  pub counted : list.size ≡ length cells % 2 ^ 64

module _ {ℓ} {A : Type ℓ} where
  -- No address of the first run is one of the second.
  abbrev pub Disjoint : List (ℕ × A) → List (ℕ × A) → Type 0
  Disjoint xs ys = All (λ c. Avoids c.0 ys) xs

  Avoids-split : (p : ℕ) (xs ys : List (ℕ × A)) → Avoids p (xs ++ ys) → Avoids p xs × Avoids p ys
  Avoids-split p [] ys h = (tt, h)
  Avoids-split p (x ∷ xs) ys (ne, h) = let (k, l) = Avoids-split p xs ys h in ((ne, k), l)

  Avoids-join : (p : ℕ) (xs ys : List (ℕ × A)) → Avoids p xs → Avoids p ys → Avoids p (xs ++ ys)
  Avoids-join p [] ys h k = k
  Avoids-join p (x ∷ xs) ys (ne, h) k = (ne, Avoids-join p xs ys h k)

  Apart-split : (xs ys : List (ℕ × A)) → Apart (xs ++ ys) → Apart xs × Apart ys × Disjoint xs ys
  Apart-split [] ys h = (tt, h, tt)
  Apart-split ((p, a) ∷ xs) ys (out, h) =
      let (k, l, d) = Apart-split xs ys h in
      let (o1, o2) = Avoids-split p xs ys out in ((o1, k), l, (o2, d))

  pub Apart-join : (xs ys : List (ℕ × A)) → Apart xs → Apart ys → Disjoint xs ys → Apart (xs ++ ys)
  Apart-join [] ys h k d = k
  Apart-join ((p, a) ∷ xs) ys (out, h) k (o, d) =
      (Avoids-join p xs ys out o, Apart-join xs ys h k d)

  -- A pair of runs, told apart from the other side.
  Disjoint-tail : (xs ys : List (ℕ × A)) (c : ℕ × A) → Disjoint xs (c ∷ ys) → Disjoint xs ys
  Disjoint-tail [] ys c h = tt
  Disjoint-tail (x ∷ xs) ys c ((ne, o), h) = (o, Disjoint-tail xs ys c h)

  Disjoint-head : (xs ys : List (ℕ × A)) (p : ℕ) (a : A) → Disjoint xs ((p, a) ∷ ys) → Avoids p xs
  Disjoint-head [] ys p a h = tt
  Disjoint-head (x ∷ xs) ys p a ((ne, o), h) = ((λ e. ne (sym e)), Disjoint-head xs ys p a h)

  Disjoint-Avoids : (xs ys : List (ℕ × A)) → Disjoint xs ys → All (λ c. Avoids c.0 xs) ys
  Disjoint-Avoids xs [] h = tt
  Disjoint-Avoids xs ((p, a) ∷ ys) h =
      (Disjoint-head xs ys p a h, Disjoint-Avoids xs ys (Disjoint-tail xs ys (p, a) h))

  Linked-Frame :
      (heap after : Heap A) (changed : List (ℕ × A)) (before : Option ℕ) (cells : List (ℕ × A))
      (beyond : Option ℕ)
      → Frame heap after changed
      → Disjoint cells changed
      → Linked heap before cells beyond
      → Linked after before cells beyond
  Linked-Frame heap after changed before [] beyond f d h = tt
  Linked-Frame heap after changed before ((p, a) ∷ cells) beyond f (o, d) (e, h) =
      (f p o ∙ e, Linked-Frame heap after changed (some p) cells beyond f d h)

  list_remove_steps :
      (heap h1 h2 : Heap A) (list l1 l2 : LinkedList) (p : ℕ) (front back : List (ℕ × A))
      (n m k : ListNode A)
      → prev_next heap list p ≡ some (place_before front)
      → next_prev heap list p ≡ some (place_behind back)
      → load heap p ≡ some n
      → write_prev_next heap list (place_before front) n.next ≡ some (h1, l1)
      → load h1 p ≡ some m
      → write_next_prev h1 l1 (place_behind back) m.prev ≡ some (h2, l2)
      → load h2 p ≡ some k
      → list_remove heap list p
        ≡ some (set h2 p none, record l2 { size = (l2.size + (2 ^ 64 - 1)) % 2 ^ 64 })
  unfolding list_remove
  list_remove_steps heap h1 h2 list l1 l2 p front back n m k a b c d e f g =
      rw (list_remove, a, b, c, d, e, f, g)

  fewer :
      (size : ℕ) (front back : List (ℕ × A)) (c : ℕ × A)
      → size ≡ length (front ++ (c ∷ back)) % 2 ^ 64
      → (size + (2 ^ 64 - 1)) % 2 ^ 64 ≡ length (front ++ back) % 2 ^ 64
  fewer size front back c e =
      omega (arith, e, length-append front (c ∷ back), length-append front back)

  -- A node of the list, wherever it stands in it, is taken out and freed: the others stay, in their
  -- order, and no cell of the heap changes that is no node of the list.
  pub list_remove-Holds :
      (heap : Heap A) (list : LinkedList) (front back : List (ℕ × A)) (p : ℕ) (a : A)
      → Holds heap list (front ++ ((p, a) ∷ back))
      → (after : Heap A) × (next : LinkedList) × (list_remove heap list p ≡ some (after, next))
        × Holds after next (front ++ back)
        × (load after p ≡ none)
        × Frame heap after (front ++ ((p, a) ∷ back))
  list_remove-Holds heap list front back p a h =
      let (apart_front, (out_back, apart_back), d) = Apart-split front ((p, a) ∷ back) h.apart in
      let (lf, (found, lb)) = Linked-split heap none front ((p, a) ∷ back) none h.linked in
      let out_front : Avoids p front = Disjoint-head front back p a d in
      let apart : Disjoint front back = Disjoint-tail front back (p, a) d in
      let before : Option ℕ = last_of front none in
      let beyond : Option ℕ = first_of back none in
      let n : ListNode A = record { prev = before; next = beyond; element = a } in
      let head : list.head ≡ first_of front (some p) =
        h.at_head ∙ first_of-append front ((p, a) ∷ back) none in
      let tail : list.tail ≡ last_of back (some p) =
        h.at_tail ∙ last_of-append front ((p, a) ∷ back) none in
      let place1 = prev_next_lem heap list p n found front head out_front refl in
      let place2 = next_prev_lem heap list p n found back tail out_back refl in
      let (h1, l1, w1, k1, f1, head1, tail1, size1) =
        write_prev_next_lem heap list front (some p) beyond lf apart_front head in
      let back1 : Linked h1 (some p) back none =
        Linked-Frame heap h1 front (some p) back none f1 (Disjoint-Avoids front back apart) lb in
      let (h2, l2, w2, k2, f2, tail2, head2, size2) =
        write_next_prev_lem h1 l1 back (some p) before back1 apart_back (tail1 ∙ tail) in
      let found1 = f1 p out_front ∙ found in
      let found2 = f2 p out_back ∙ found1 in
      let front2 : Linked h2 none front beyond =
        Linked-Frame h1 h2 back none front beyond f2 apart k1 in
      (
        set h2 p none,
        record l2 { size = (l2.size + (2 ^ 64 - 1)) % 2 ^ 64 },
        list_remove_steps heap h1 h2 list l1 l2 p front back n n n place1 place2 found w1 found1 w2
            found2,
        record {
          linked =
              Linked-append (set h2 p none) none front back none
                (Linked-set h2 none front beyond p none out_front front2)
                (Linked-set h2 before back none p none out_back k2);
          apart = Apart-join front back apart_front apart_back apart;
          at_head = head2 ∙ head1 ∙ sym (first_of-append front back none);
          at_tail = tail2 ∙ sym (last_of-append front back none);
          counted = fewer l2.size front back (p, a) (size2 ∙ size1 ∙ h.counted);
        },
        load-set_self h2 p n none found2,
        λ q out.
            let (o1, (ne, o2)) = Avoids-split q front ((p, a) ∷ back) out in
            load-set_ne h2 q p none ne ∙ f2 q o2 ∙ f1 q o1,
      )
