-- ===== src/GameBoard/Pixels.antt =====
-- The board seen as a set of pixels: what `game_board_create`, `game_board_set` and
-- `game_board_get` do to it, and that they never leave the array.
use sik_screen_worms.Prelude.{
  ℕ, zero, suc, ◌*◌, ◌/◌, ◌%◌, ◌^◌, ◌≤◌, ◌<◌, ◌≡◌, ◌↔◌, ◌⊎◌, inl, inr, refl, sym, ap, ◌∙◌, arith,
  true, false, ◌&&◌, ◌||◌, none, some, ltb, ◌==◌, if◌then◌else◌, replicate, get_or, All,
  length-replicate, Bool-cases,
}
use sik_screen_worms.GameBoard.{
  GameBoard, board_size, game_board_create, index, game_board_set, game_board_get,
}
use sik_screen_worms.GameBoard.Bytes.{bit_at}
use mathlib.Core.Path.{ap₂}
use sik_screen_worms.GameBoard.Layout.{
  IsBoard, InBoard, eaten, index_injective, eaten-set, index_lem, index_in_range, after_set,
  after_set-IsBoard, game_board_get-eaten, game_board_set-after_set,
}
use Prim.Native.Nat.{bit_and-bitwise}

-- What setting a pixel changes: the pixel, and nothing else.
pub record Sets (b : GameBoard) (x y : ℕ) (b' : GameBoard) : Type 0 where
  pub valid : IsBoard b'
  pub same_width : b'.width ≡ b.width
  pub same_height : b'.height ≡ b.height
  pub pixels :
      (x' y' : ℕ)
      → game_board_get b' x' y' ≡ (if x == x' && y == y' then some true else game_board_get b x' y')

game_board_get-outside :
    (b : GameBoard) (x y : ℕ) → (b.width ≤ x) ⊎ (b.height ≤ y) → game_board_get b x y ≡ none
unfolding game_board_get
game_board_get-outside b x y h = ground arith

game_board_set-outside :
    (b : GameBoard) (x y : ℕ) → (b.width ≤ x) ⊎ (b.height ≤ y) → game_board_set b x y ≡ none
unfolding game_board_set
game_board_set-outside b x y h = ground arith

InBoard-cases : (b : GameBoard) (x y : ℕ) → InBoard b x y ⊎ ((b.width ≤ x) ⊎ (b.height ≤ y))
InBoard-cases b x y = elim (Bool-cases (ltb x b.width && ltb y b.height)) [
  | inl e ↦ inl (ground arith, ground arith)
  | inr e ↦ inr (ground arith)
]

-- A read fails outside the board, and only there; the same holds of a write.
pub game_board_get_fails_iff :
    (b : GameBoard) (x y : ℕ)
    → IsBoard b
    → ((game_board_get b x y ≡ none) ↔ ((b.width ≤ x) ⊎ (b.height ≤ y)))
      × ((game_board_set b x y ≡ none) ↔ ((b.width ≤ x) ⊎ (b.height ≤ y)))
game_board_get_fails_iff b x y v = elim (InBoard-cases b x y) [
  | inl (p, q) ↦ (
    (λ e. cc (game_board_get-eaten b v x y p q), game_board_get-outside b x y),
    (λ e. cc (game_board_set-after_set b v x y p q), game_board_set-outside b x y),
  )
  | inr o ↦ ((λ e. o, game_board_get-outside b x y), (λ e. o, game_board_set-outside b x y))
]

module _ (b : GameBoard) (v : IsBoard b) (x y : ℕ) (p : x < b.width) (q : y < b.height) where
  after_set-inside :
      (x' y' : ℕ)
      → x' < b.width
      → y' < b.height
      → game_board_get (after_set b v x y p q) x' y'
        ≡ (if x == x' && y == y' then some true else game_board_get b x' y')
  after_set-inside x' y' p' q' =
      let b' : GameBoard = after_set b v x y p q in
      let bits =
        eaten-set b.cells (index b x y) (index b x' y') v.bytes (index_in_range b v x y p q) in
      game_board_get-eaten b' (after_set-IsBoard b v x y p q) x' y' p' q'
      ∙ ap some bits
      ∙ go (Bool-cases (x == x' && y == y'))
    where
      go :
          ((x == x' && y == y') ≡ true) ⊎ ((x == x' && y == y') ≡ false)
          → some ((index b x y == index b x' y') || eaten b x' y')
            ≡ (if x == x' && y == y' then some true else game_board_get b x' y')
      go (inl e) = rw (e, same) refl
        where
          same : (index b x y == index b x' y') ≡ true
          same = ground (arith, e, ap₂ (index b) xs ys)
            where
              xs : x ≡ x'
              xs = ground arith

              ys : y ≡ y'
              ys = ground arith
      go (inr e) = rw (e, apart) (sym (game_board_get-eaten b v x' y' p' q'))
        where
          apart : (index b x y == index b x' y') ≡ false
          apart = ground (
            arith,
            index_lem b v x y p q,
            index_lem b v x' y' p' q',
            index_injective b.width x y x' y' p p',
          )

  after_set-pixels :
      (x' y' : ℕ)
      → game_board_get (after_set b v x y p q) x' y'
        ≡ (if x == x' && y == y' then some true else game_board_get b x' y')
  after_set-pixels x' y' = elim (InBoard-cases b x' y') [
    | inl (p', q') ↦ after_set-inside x' y' p' q'
    | inr o ↦ ground (
      arith,
      game_board_get-outside b x' y' o,
      game_board_get-outside (after_set b v x y p q) x' y' o,
    )
  ]

  -- A write to a pixel of the board succeeds, sets that pixel and changes no other.
  pub game_board_set-Sets : (b' : GameBoard) × (game_board_set b x y ≡ some b') × Sets b x y b'
  game_board_set-Sets = (
    after_set b v x y p q,
    game_board_set-after_set b v x y p q,
    record {
      valid = after_set-IsBoard b v x y p q;
      same_width = refl;
      same_height = refl;
      pixels = after_set-pixels;
    },
  )

All-replicate : (n : ℕ) → All (λ v. v < 256) (replicate n 0)
All-replicate zero = tt
All-replicate (suc n) = (omega arith, All-replicate n)

get_or-replicate : (n i : ℕ) → ◌≡◌ {A = ℕ} (get_or (replicate n 0) i 0) 0
get_or-replicate zero i = refl
get_or-replicate (suc n) zero = refl
get_or-replicate (suc n) (suc i) = get_or-replicate n i

pub game_board_create-IsBoard : (w h : ℕ) → w * h < 2 ^ 64 → IsBoard (game_board_create w h)
unfolding game_board_create
game_board_create-IsBoard w h fits = record {
  fits = fits;
  sized = length-replicate (board_size (w * h % 2 ^ 64)) 0 ∙ ap board_size (omega arith);
  bytes = All-replicate (board_size (w * h % 2 ^ 64));
}

zero_bit : (q : ℕ) → bit_at 0 q ≡ false
zero_bit q = rw (bit_and-bitwise 0 (2 ^ q))

-- A new board whose pixels can be counted in a `size_t` is well formed, and none of its pixels is
-- eaten.
pub game_board_create-empty :
    (w h x y : ℕ)
    → w * h < 2 ^ 64
    → x < w
    → y < h
    → IsBoard (game_board_create w h) × (game_board_get (game_board_create w h) x y ≡ some false)
unfolding game_board_create
game_board_create-empty w h x y fits p q = (
  game_board_create-IsBoard w h fits,
  game_board_get-eaten (game_board_create w h) (game_board_create-IsBoard w h fits) x y p q
      ∙ ap some (
          ap (λ c. bit_at c (index (game_board_create w h) x y % 8))
            (get_or-replicate (board_size (w * h % 2 ^ 64)) (index (game_board_create w h) x y / 8))
          ∙ zero_bit (index (game_board_create w h) x y % 8)),
)
