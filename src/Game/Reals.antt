-- ===== src/Game/Reals.antt =====
-- The floating-point numbers that the game computes with: `double`, `cos` and `sin` are not part
-- of the program.
use sik_screen_worms.Prelude.{ℕ, ◌^◌, ◌<◌, ◌≡◌, Bool, false}

pub record Reals : Type 1 where
  pub Pos : Type 0
  -- 0.
  pub zero_pos : Pos
  -- `0.5 + (double) n`.
  pub centre : ℕ → Pos
  -- `(uint32_t) floor(p)`.
  pub cell : Pos → ℕ
  -- `p + cos(direction * M_PI / 180)` and `p + sin(direction * M_PI / 180)`.
  pub step_x : ℕ → Pos → Pos
  pub step_y : ℕ → Pos → Pos
  -- `p < 0 || p >= bound`.
  pub outside : Pos → ℕ → Bool
  -- Halves are exact below 2 ^ 32.
  pub cell-centre : (n : ℕ) → n < 2 ^ 32 → cell (centre n) ≡ n
  -- A number from 0 up to a bound that a `uint32_t` holds is rounded down below that bound.
  pub cell-inside :
      (p : Pos) (bound : ℕ) → bound < 2 ^ 32 → outside p bound ≡ false → cell p < bound
