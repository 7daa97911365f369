-- ===== src/Memory/Numbers.antt =====
-- Numbers in memory: reading back what was written.
use sik_screen_worms.Prelude.{
  ℕ, zero, suc, ◌+◌, ◌*◌, ◌^◌, ◌<◌, ◌≡◌, refl, ap, arith, List, [], ◌∷◌, length, All,
}
use sik_screen_worms.Memory.{be_bytes, be_fold, from_be}
use native.Mathlib.Nat.{pow-suc}

pub length-be_bytes : (k v : ℕ) → length (be_bytes k v) ≡ k
unfolding be_bytes
length-be_bytes zero v = refl
length-be_bytes (suc k) v = ap suc (length-be_bytes k v)

pub be_bytes-All : (k v : ℕ) → All (λ b. b < 256) (be_bytes k v)
unfolding be_bytes
be_bytes-All zero v = tt
be_bytes-All (suc k) v = (omega arith, be_bytes-All k v)

-- A `uint32_t` and a `uint64_t` are read back.
pub from_be-be_bytes_four : (v : ℕ) → v < 2 ^ 32 → from_be (be_bytes 4 v) ≡ v
unfolding from_be be_bytes
from_be-be_bytes_four v h = omega arith

pub from_be-be_bytes_eight : (v : ℕ) → v < 2 ^ 64 → from_be (be_bytes 8 v) ≡ v
unfolding from_be be_bytes
from_be-be_bytes_eight v h = omega arith

be_fold-lt :
    (bytes : List ℕ) (acc n : ℕ)
    → acc < n
    → All (λ b. b < 256) bytes
    → be_fold acc bytes < n * 256 ^ length bytes
unfolding be_fold
be_fold-lt [] acc n h hs = omega arith
be_fold-lt (b ∷ bs) acc n h (hb, hs) = omega (
  arith,
  be_fold-lt bs (acc * 256 + b) (n * 256) (omega arith) hs,
  ap (λ (t : ℕ). n * t) (pow-suc 256 (length bs)),
)

pub from_be-lt : (bytes : List ℕ) → All (λ b. b < 256) bytes → from_be bytes < 256 ^ length bytes
unfolding from_be
from_be-lt bytes h = omega (arith, be_fold-lt bytes 0 1 (omega arith) h)
