-- ===== src/GameBoard/Layout.antt =====
-- Where the bit of a pixel lies in the array of a well-formed board.
use sik_screen_worms.Prelude.{
  ℕ, zero, suc, ◌+◌, ◌*◌, ◌/◌, ◌%◌, ◌^◌, ◌≤◌, ◌<◌, ◌≡◌, ◌⊎◌, inl, inr, refl, ap, ◌∙◌, arith, Bool,
  true, false, ◌||◌, some, List, [], ◌∷◌, ◌==◌, if◌then◌else◌, bit_or, get_elem?, set, length,
  get_or, All, length-set, All-set, Bool-cases, lt→ltb, ==_iff,
}
use sik_screen_worms.GameBoard.{GameBoard, board_size, index, game_board_set, game_board_get}
use sik_screen_worms.GameBoard.Bytes.{bit_at, bit_at-bit_or}
use mathlib.Core.Path.{ap₂}

pub record IsBoard (b : GameBoard) : Type 0 where
  pub fits : b.width * b.height < 2 ^ 64
  pub sized : length b.cells ≡ board_size (b.width * b.height)
  pub bytes : All (λ v. v < 256) b.cells

abbrev pub InBoard : GameBoard → ℕ → ℕ → Type 0
InBoard b x y = (x < b.width) × (y < b.height)

-- The bit of a pixel.
abbrev pub eaten : GameBoard → ℕ → ℕ → Bool
eaten b x y = bit_at (get_or b.cells (index b x y / 8) 0) (index b x y % 8)

get_elem?-get_or : (xs : List ℕ) (i : ℕ) → i < length xs → get_elem? xs i ≡ some (get_or xs i 0)
get_elem?-get_or [] i h = elim h [ ]
get_elem?-get_or (x ∷ xs) zero h = refl
get_elem?-get_or (x ∷ xs) (suc i) h = get_elem?-get_or xs i (omega arith)

get_or-set :
    (xs : List ℕ) (i j v : ℕ)
    → i < length xs
    → get_or (set xs i v) j 0 ≡ (if i == j then v else get_or xs j 0)
get_or-set [] i j v h = elim h [ ]
get_or-set (x ∷ xs) zero zero v h = refl
get_or-set (x ∷ xs) zero (suc j) v h = ground arith
get_or-set (x ∷ xs) (suc i) zero v h = ground arith
get_or-set (x ∷ xs) (suc i) (suc j) v h = ground (arith, get_or-set xs i j v)

get_or-lt : (xs : List ℕ) (i : ℕ) → All (λ v. v < 256) xs → get_or xs i 0 < 256
get_or-lt [] i h = omega arith
get_or-lt (x ∷ xs) zero (p, h) = p
get_or-lt (x ∷ xs) (suc i) (p, h) = get_or-lt xs i h

pub row_bound : (w h x y : ℕ) → x < w → y < h → w * y + x < w * h
row_bound w h x y p q = grind arith

pub board_size-holds : (n i : ℕ) → i < n → i / 8 < board_size n
board_size-holds n i h = ground arith

module _ (b : GameBoard) (v : IsBoard b) (x y : ℕ) (p : x < b.width) (q : y < b.height) where
  pub index_lem : index b x y ≡ b.width * y + x
  index_lem =
      let below : b.width * y + x < 2 ^ 64 =
        omega (arith, row_bound b.width b.height x y p q, v.fits) in
      omega arith

  pub index_in_range : index b x y / 8 < length b.cells
  index_in_range =
      let below : index b x y < b.width * b.height =
        omega (arith, index_lem, row_bound b.width b.height x y p q) in
      omega (arith, v.sized, board_size-holds (b.width * b.height) (index b x y) below)

  -- A pixel of the board is read without leaving the array.
  pub game_board_get-eaten : game_board_get b x y ≡ some (eaten b x y)
  unfolding game_board_get
  game_board_get-eaten = rw (
    lt→ltb x b.width p,
    lt→ltb y b.height q,
    get_elem?-get_or b.cells (index b x y / 8) index_in_range,
  )

  abbrev pub after_set : GameBoard
  after_set = record b {
    cells =
        set b.cells (index b x y / 8)
          (bit_or (get_or b.cells (index b x y / 8) 0) (2 ^ (index b x y % 8)) % 256);
  }

  pub game_board_set-after_set : game_board_set b x y ≡ some after_set
  unfolding game_board_set
  game_board_set-after_set = rw (
    lt→ltb x b.width p,
    lt→ltb y b.height q,
    get_elem?-get_or b.cells (index b x y / 8) index_in_range,
  )

  pub after_set-IsBoard : IsBoard after_set
  after_set-IsBoard = record {
    fits = v.fits;
    sized = length-set b.cells (index b x y / 8) _ ∙ v.sized;
    bytes = All-set (λ c. c < 256) b.cells (index b x y / 8) _ v.bytes (omega arith);
  }

rows_apart : (w y y' : ℕ) → y < y' → w * y + w ≤ w * y'
rows_apart w y y' h = grind arith

pub index_injective :
    (w x y x' y' : ℕ) → x < w → x' < w → w * y + x ≡ w * y' + x' → (x ≡ x') × (y ≡ y')
index_injective w x y x' y' h h' e = elim (order y y') [
  | inl l ↦ absurd (omega (arith, rows_apart w y y' l))
  | inr (inl g) ↦ absurd (omega (arith, rows_apart w y' y g))
  | inr (inr s) ↦ (omega (arith, ap (λ (t : ℕ). w * t) s), s)
]
  where
    order : (a b : ℕ) → (a < b) ⊎ ((b < a) ⊎ (a ≡ b))
    order a b = omega arith

parts_injective : (i j : ℕ) → i / 8 ≡ j / 8 → i % 8 ≡ j % 8 → i ≡ j
parts_injective i j e f = omega arith

-- The bit of one pixel after the bit of another was set, by their positions in the array.
pub eaten-set :
    (cells : List ℕ) (i j : ℕ)
    → All (λ c. c < 256) cells
    → i / 8 < length cells
    → bit_at
        (get_or (set cells (i / 8) (bit_or (get_or cells (i / 8) 0) (2 ^ (i % 8)) % 256)) (j / 8) 0)
        (j % 8)
      ≡ (i == j) || bit_at (get_or cells (j / 8) 0) (j % 8)
eaten-set cells i j bytes h =
    ap (λ c. bit_at c (j % 8)) (get_or-set cells (i / 8) (j / 8) _ h)
    ∙ go (Bool-cases (i / 8 == j / 8))
  where
    stored : ℕ
    stored = bit_or (get_or cells (i / 8) 0) (2 ^ (i % 8)) % 256

    go :
        ((i / 8 == j / 8) ≡ true) ⊎ ((i / 8 == j / 8) ≡ false)
        → bit_at (if i / 8 == j / 8 then stored else get_or cells (j / 8) 0) (j % 8)
          ≡ (i == j) || bit_at (get_or cells (j / 8) 0) (j % 8)
    go (inl e) =
        let same : i / 8 ≡ j / 8 = (==_iff (i / 8) (j / 8)).0 e in
        rw e (
          bit_at-bit_or (i % 8) (j % 8) (get_or cells (i / 8) 0) (omega arith) (omega arith)
            (get_or-lt cells (i / 8) bytes)
          ∙ ap₂ ◌||◌ (test_eq same) (ap (λ t. bit_at (get_or cells t 0) (j % 8)) same))
      where
        test_eq : i / 8 ≡ j / 8 → (i % 8 == j % 8) ≡ (i == j)
        test_eq same = ground (arith, parts_injective i j same)
    go (inr e) = rw (e, apart) refl
      where
        apart : (i == j) ≡ false
        apart = ground arith
