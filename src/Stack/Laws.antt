-- ===== src/Stack/Laws.antt =====
-- The stack implements a list that grows at its end.
use sik_screen_worms.Prelude.{
  ℕ, zero, suc, ◌+◌, ◌*◌, ◌≤◌, ◌<◌, ◌≡◌, refl, sym, ap, ◌∙◌, arith, true, false, ◌&&◌, Option, none,
  some, List, [], ◌∷◌, ◌++◌, map, ltb, leb, ◌==◌, get_elem?, set, replicate, length, inl, inr,
  Bool-cases, ◌≢◌, length-append, length-map, length-replicate, length-set, append_assoc,
  set-middle,
}
use sik_screen_worms.Stack.{Stack, stack_create, stack_get, stack_push, store}

-- `xs` are the elements, in the order in which they were pushed.
pub record Holds {ℓ} {A : Type ℓ} (s : Stack A) (xs : List A) : Type ℓ where
  pub spare : List (Option A)
  pub elements : s.slots ≡ map some xs ++ spare
  pub sized : s.size ≡ length xs
  pub full : length s.slots ≡ s.capacity
  pub some_room : 0 < s.capacity

module _ {ℓ} {A : Type ℓ} where
  get_elem?-map-some :
      (xs : List A) (spare : List (Option A)) (i : ℕ)
      → i < length xs
      → get_elem? (map some xs ++ spare) i ≡ some (get_elem? xs i)
  get_elem?-map-some [] spare i h = elim h [ ]
  get_elem?-map-some (x ∷ xs) spare zero h = refl
  get_elem?-map-some (x ∷ xs) spare (suc i) h = get_elem?-map-some xs spare i (omega arith)

  get_elem?-beyond : (xs : List A) (i : ℕ) → length xs ≤ i → get_elem? xs i ≡ none
  get_elem?-beyond [] i h = refl
  get_elem?-beyond (x ∷ xs) zero h = elim h [ ]
  get_elem?-beyond (x ∷ xs) (suc i) h = get_elem?-beyond xs i (omega arith)

  -- Reading the stack at an index reads the list, NULL behind its end included.
  pub stack_get-Holds :
      (s : Stack A) (xs : List A) (i : ℕ) → Holds s xs → stack_get s i ≡ get_elem? xs i
  unfolding stack_get
  stack_get-Holds s xs i h = elim (Bool-cases (leb s.size i)) [
    | inl e ↦ rw e (sym (get_elem?-beyond xs i (ground (arith, h.sized))))
    | inr e ↦ rw (
      e,
      ap (λ t. get_elem? t i) h.elements
          ∙ get_elem?-map-some xs h.spare i (ground (arith, h.sized)),
    )
  ]

  pub stack_create-Holds : Holds {A = A} stack_create []
  unfolding stack_create
  stack_create-Holds = record {
    spare = replicate 4 none;
    elements = refl;
    sized = refl;
    full = refl;
    some_room = omega arith;
  }

  map-snoc :
      (xs : List A) (x : A) (r : List (Option A))
      → map some xs ++ (some x ∷ r) ≡ map some (xs ++ (x ∷ [])) ++ r
  map-snoc [] x r = refl
  map-snoc (y ∷ xs) x r = ap (λ t. some y ∷ t) (map-snoc xs x r)

  -- A write with a free place.
  store-Holds :
      (s : Stack A) (xs : List A) (x : A)
      → Holds s xs
      → s.size < s.capacity
      → (s' : Stack A) × (store s x ≡ some (s', some (length xs))) × Holds s' (xs ++ (x ∷ []))
  unfolding store
  store-Holds s xs x h room = go h.spare h.elements
    where
      go :
          (spare : List (Option A))
          → s.slots ≡ map some xs ++ spare
          → (s' : Stack A) × (store s x ≡ some (s', some (length xs))) × Holds s' (xs ++ (x ∷ []))
      go [] e = absurd (
          omega (
            arith,
            h.sized,
            h.full,
            ap length e,
            length-append (map some xs) [],
            length-map {B = Option A} some xs,
          ))
      go (slot ∷ spare) e =
          let tests : (ltb s.size s.capacity && ltb s.size (length s.slots)) ≡ true =
            ground (arith, room, h.full) in
          (
            record s { slots = set s.slots s.size (some x); size = s.size + 1 },
            rw tests (
                ap
                  (λ n.
                    some
                      (record s { slots = set s.slots s.size (some x); size = s.size + 1 }, some n))
                  h.sized),
            record {
              spare = spare;
              elements =
                  ap (λ t. set t s.size (some x)) e
                  ∙ set-middle (map some xs) spare slot (some x) s.size
                      (h.sized ∙ sym (length-map some xs))
                  ∙ map-snoc xs x spare;
              sized = omega (arith, h.sized, length-append xs (x ∷ []));
              full = length-set s.slots s.size (some x) ∙ h.full;
              some_room = h.some_room;
            },
          )

  -- With memory at hand a push succeeds, returns the index of the new element and appends it,
  -- whether or not the array has to grow.
  pub stack_push-Holds :
      (s : Stack A) (xs : List A) (x : A)
      → Holds s xs
      → (s' : Stack A) × (stack_push true s x ≡ some (s', some (length xs)))
        × Holds s' (xs ++ (x ∷ []))
  unfolding stack_push
  stack_push-Holds s xs x h = elim (Bool-cases (s.size == s.capacity)) [
    | inl e ↦ rw e (store-Holds grown xs x grown_Holds (ground (arith, h.some_room, e)))
    | inr e ↦ rw e (store-Holds s xs x h (omega (arith, bound, apart e)))
  ]
    where
      grown : Stack A
      grown = record s { capacity = s.capacity * 2; slots = s.slots ++ replicate s.capacity none }

      grown_Holds : Holds grown xs
      grown_Holds = record {
        spare = h.spare ++ replicate s.capacity none;
        elements =
            ap (λ t. t ++ replicate s.capacity none) h.elements
            ∙ append_assoc (map some xs) h.spare (replicate s.capacity none);
        sized = h.sized;
        full = omega (
          arith,
          h.full,
          length-append s.slots (replicate s.capacity none),
          length-replicate {A = Option A} s.capacity none,
        );
        some_room = omega (arith, h.some_room);
      }

      bound : s.size ≤ s.capacity
      bound = omega (
        arith,
        h.sized,
        h.full,
        ap length h.elements,
        length-append (map some xs) h.spare,
        length-map {B = Option A} some xs,
      )

      apart : (s.size == s.capacity) ≡ false → s.size ≢ s.capacity
      apart e = ground arith
