-- ===== src/Game/Ordering.antt =====
-- `sort_players` gives back the same players, in the order of their names.
use sik_screen_worms.Prelude.{
  ℕ, zero, suc, ◌+◌, ◌≡◌, ◌⊎◌, inl, inr, refl, sym, ap, ◌∙◌, arith, true, false, some, List, [],
  ◌∷◌, ◌++◌, All, All-append, length, get_elem?, get_elem?-middle, length-append, append-nil, subst,
  Bool-cases, append_assoc,
}
use mathlib.Core.List.{Permᴰ}
use mathlib.Core.List.Permᴰ
use sik_screen_worms.Game.{Player}
use sik_screen_worms.Game.Names.{lower, name_lt}
use sik_screen_worms.Game.Sorting.{remove_at, find_min, sort_loop, sort_players}

-- The order of the names.
name_lt_trans : (a b c : List ℕ) → name_lt a b ≡ true → name_lt b c ≡ true → name_lt a c ≡ true
unfolding name_lt lower
name_lt_trans a [] c p q = cc
name_lt_trans a (y ∷ b) [] p q = cc
name_lt_trans [] (y ∷ b) (z ∷ c) p q = ground arith
name_lt_trans (x ∷ a) (y ∷ b) (z ∷ c) p q = ground (arith, name_lt_trans a b c)

name_lt_irrefl : (a : List ℕ) → name_lt a a ≡ false
unfolding name_lt lower
name_lt_irrefl [] = refl
name_lt_irrefl (x ∷ a) = ground (arith, name_lt_irrefl a)

module _ {Pos : Type 0} where
  pub All-perm :
      (P : Player Pos → Type 0) (xs ys : List (Player Pos)) → Permᴰ xs ys → All P xs → All P ys
  All-perm P _ _ Permᴰ.nil h = h
  All-perm P _ _ (Permᴰ.cons {l₁ = xs} {l₂ = ys} e d) (p, h) = (subst P e p, All-perm P xs ys d h)
  All-perm P _ _ (Permᴰ.swap e f) (p, (q, h)) = (subst P f q, (subst P e p, h))
  All-perm P _ _ (Permᴰ.trans {l₁ = xs} {l₂ = ys} {l₃ = zs} d k) h =
      All-perm P ys zs k (All-perm P xs ys d h)

  pub length-perm : (xs ys : List (Player Pos)) → Permᴰ xs ys → length xs ≡ length ys
  length-perm _ _ Permᴰ.nil = refl
  length-perm _ _ (Permᴰ.cons {l₁ = xs} {l₂ = ys} e d) = ap suc (length-perm xs ys d)
  length-perm _ _ (Permᴰ.swap e f) = refl
  length-perm _ _ (Permᴰ.trans {l₁ = xs} {l₂ = ys} {l₃ = zs} d k) =
      length-perm xs ys d ∙ length-perm ys zs k

  remove_at-perm :
      (i : ℕ) (xs : List (Player Pos)) (x : Player Pos)
      → get_elem? xs i ≡ some x
      → Permᴰ (x ∷ remove_at i xs) xs
  unfolding remove_at
  remove_at-perm i [] x h = cc
  remove_at-perm zero (y ∷ xs) x h = Permᴰ.cons (cc h) (Permᴰ.refl xs)
  remove_at-perm (suc i) (y ∷ xs) x h =
      Permᴰ.trans (Permᴰ.swap refl refl) (Permᴰ.cons refl (remove_at-perm i xs x h))

  abbrev NotLess : Player Pos → Player Pos → Type 0
  NotLess x y = name_lt y.player_name x.player_name ≡ false

  pub record Least (all : List (Player Pos)) (found : ℕ × Player Pos) : Type 0 where
    pub at : get_elem? all found.0 ≡ some found.1
    pub least : All (NotLess found.1) all

  -- With a smaller player all that were not less stay not less.
  All-smaller :
      (x y : Player Pos) (ps : List (Player Pos))
      → name_lt y.player_name x.player_name ≡ true
      → All (NotLess x) ps
      → All (NotLess y) ps
  All-smaller x y [] l h = tt
  All-smaller x y (p ∷ ps) l (q, h) =
      (here (Bool-cases (name_lt p.player_name y.player_name)), All-smaller x y ps l h)
    where
      here :
          (name_lt p.player_name y.player_name ≡ true)
            ⊎ (name_lt p.player_name y.player_name ≡ false)
          → NotLess y p
      here (inl e) = absurd (cc (name_lt_trans p.player_name y.player_name x.player_name e l, q))
      here (inr e) = e

  -- The inner loop finds a least player.
  find_min-Least :
      (front rest : List (Player Pos)) (m : ℕ) (x : Player Pos) (i : ℕ)
      → i ≡ length front
      → get_elem? (front ++ rest) m ≡ some x
      → All (NotLess x) front
      → Least (front ++ rest) (find_min m x i rest)
  unfolding find_min
  find_min-Least front [] m x i e g h = record {
    at = g;
    least = subst (All (NotLess x)) (sym (append-nil front)) h;
  }
  find_min-Least front (p ∷ ps) m x i e g h =
      elim (Bool-cases (name_lt p.player_name x.player_name)) [
        | inl l ↦ rw l (
            subst (λ t. Least t (find_min i p (i + 1) ps)) regroup
              (find_min-Least (front ++ (p ∷ [])) ps i p (i + 1) next
                (ap (λ t. get_elem? t i) regroup ∙ get_elem?-middle front ps p i e)
                (All-append (NotLess p) front (p ∷ []) (All-smaller x p front l h)
                  (name_lt_irrefl p.player_name, tt))))
        | inr l ↦ rw l (
            subst (λ t. Least t (find_min m x (i + 1) ps)) regroup
              (find_min-Least (front ++ (p ∷ [])) ps m x (i + 1) next
                (ap (λ t. get_elem? t m) regroup ∙ g)
                (All-append (NotLess x) front (p ∷ []) h (l, tt))))
      ]
    where
      regroup : (front ++ (p ∷ [])) ++ ps ≡ front ++ (p ∷ ps)
      regroup = append_assoc front (p ∷ []) ps

      next : i + 1 ≡ length (front ++ (p ∷ []))
      next = omega (arith, e, length-append front (p ∷ []))

  -- No later name is less than an earlier one.
  abbrev pub Sorted : List (Player Pos) → Type 0
  Sorted [] = Unit {0}
  Sorted (p ∷ ps) = All (NotLess p) ps × Sorted ps

  abbrev Below : List (Player Pos) → List (Player Pos) → Type 0
  Below xs ys = All (λ (x : Player Pos). All (NotLess x) ys) xs

  Sorted-snoc :
      (xs : List (Player Pos)) (x : Player Pos)
      → Sorted xs
      → Below xs (x ∷ [])
      → Sorted (xs ++ (x ∷ []))
  Sorted-snoc [] x s b = (tt, tt)
  Sorted-snoc (y ∷ xs) x (a, s) (b, bs) =
      (All-append (NotLess y) xs (x ∷ []) a b, Sorted-snoc xs x s bs)

  Below-map :
      (xs ys zs : List (Player Pos))
      → ((x : Player Pos) → All (NotLess x) ys → All (NotLess x) zs)
      → Below xs ys
      → Below xs zs
  Below-map [] ys zs f b = tt
  Below-map (x ∷ xs) ys zs f (b, bs) = (f x b, Below-map xs ys zs f bs)

  sort_loop-Sorted :
      (fuel : ℕ) (players sorted : List (Player Pos))
      → fuel ≡ length players
      → Sorted sorted
      → Below sorted players
      → Permᴰ (sorted ++ players) (sort_loop fuel players sorted)
        × Sorted (sort_loop fuel players sorted)
  unfolding sort_loop
  sort_loop-Sorted zero [] sorted e s b = (Permᴰ.append-nil sorted, s)
  sort_loop-Sorted zero (p ∷ ps) sorted e s b = absurd (omega (arith, e))
  sort_loop-Sorted (suc fuel) [] sorted e s b = absurd (omega (arith, e))
  sort_loop-Sorted (suc fuel) (p ∷ ps) sorted e s b =
      let found : ℕ × Player Pos = find_min 0 p 1 ps in
      let min : Least (p ∷ ps) found =
        find_min-Least (p ∷ []) ps 0 p 1 refl refl (name_lt_irrefl p.player_name, tt) in
      let x : Player Pos = found.1 in
      let rest : List (Player Pos) = remove_at found.0 (p ∷ ps) in
      let perm : Permᴰ (p ∷ ps) (x ∷ rest) =
        Permᴰ.symm (remove_at-perm found.0 (p ∷ ps) x min.at) in
      let size : length (p ∷ ps) ≡ length (x ∷ rest) = length-perm (p ∷ ps) (x ∷ rest) perm in
      let below : Below sorted (x ∷ rest) =
        Below-map sorted (p ∷ ps) (x ∷ rest) (λ y. All-perm (NotLess y) (p ∷ ps) (x ∷ rest) perm)
          b in
      let below_x : Below sorted (x ∷ []) =
        Below-map sorted (x ∷ rest) (x ∷ []) (λ y h. (h.0, tt)) below in
      let below_rest : Below (sorted ++ (x ∷ [])) rest =
        All-append (λ (y : Player Pos). All (NotLess y) rest) sorted (x ∷ [])
          (Below-map sorted (x ∷ rest) rest (λ y h. h.1) below)
          ((All-perm (NotLess x) (p ∷ ps) (x ∷ rest) perm min.least).1, tt) in
      let (permuted, ordered) =
        sort_loop-Sorted fuel rest (sorted ++ (x ∷ [])) (omega (arith, e, size))
          (Sorted-snoc sorted x s below_x) below_rest in
      (
        Permᴰ.trans
            (Permᴰ.trans (Permᴰ.append_left sorted perm) (
              subst (Permᴰ (sorted ++ (x ∷ rest))) (sym (append_assoc sorted (x ∷ []) rest))
                (Permᴰ.refl _)))
            permuted,
        ordered,
      )

  -- Sorting loses no player, adds none, and puts their names in the order of `strcasecmp`.
  pub sort_players-Sorted :
      (players : List (Player Pos))
      → Permᴰ players (sort_players players) × Sorted (sort_players players)
  unfolding sort_players
  sort_players-Sorted players = sort_loop-Sorted (length players) players [] refl tt tt
