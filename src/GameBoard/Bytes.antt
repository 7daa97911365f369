-- ===== src/GameBoard/Bytes.antt =====
-- One byte of the board: setting a bit, and reading it back.
use sik_screen_worms.Prelude.{
  ℕ, zero, suc, ◌%◌, ◌^◌, ◌<◌, ◌≡◌, refl, arith, Bool, true, false, ◌||◌, ltb, ◌==◌, if◌then◌else◌,
  bit_and, bit_or,
}

abbrev pub bit_at : ℕ → ℕ → Bool
bit_at v q = ltb 0 (bit_and v (2 ^ q))

abbrev same : Bool → Bool → Bool
same true true = true
same false false = true
same _ _ = false

same→eq : (a b : Bool) → same a b ≡ true → a ≡ b
same→eq true true e = refl
same→eq false false e = refl
same→eq true false e = cc
same→eq false true e = cc

module _ (p : ℕ → Bool) where
  all_below : ℕ → Bool
  all_below zero = true
  all_below (suc n) = if p n then all_below n else false

  all_below_sound : (n x : ℕ) → all_below n ≡ true → x < n → p x ≡ true
  unfolding all_below
  all_below_sound zero x h lt = absurd (omega arith)
  all_below_sound (suc n) x h lt = ground (arith, all_below_sound n x)

entry : ℕ → ℕ → ℕ → Bool
entry p q v = same (bit_at (bit_or v (2 ^ p) % 256) q) ((p == q) || bit_at v q)

bits_table : all_below (λ p. all_below (λ q. all_below (entry p q) 256) 8) 8 ≡ true
unfolding all_below entry
bits_table = refl

-- After bit `p` is set, bit `q` is set if it is the same or was set before.
pub bit_at-bit_or :
    (p q v : ℕ)
    → p < 8
    → q < 8
    → v < 256
    → bit_at (bit_or v (2 ^ p) % 256) q ≡ (p == q) || bit_at v q
unfolding entry
bit_at-bit_or p q v hp hq hv = same→eq _ _ (
    all_below_sound (entry p q) 256 v
      (all_below_sound (λ q. all_below (entry p q) 256) 8 q
        (all_below_sound (λ p. all_below (λ q. all_below (entry p q) 256) 8) 8 p bits_table hp) hq)
      hv)
