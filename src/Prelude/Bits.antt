-- ===== src/Prelude/Bits.antt =====
-- Laws of the bit operations, from the recursion on binary digits that they stand for.
use Prim.Native.Nat.{ℕ, zero, suc, ◌+◌, ◌*◌, ◌/◌, ◌%◌, ◌^◌, ◌≤◌, ◌<◌, min, max}
use Prim.Native.Nat.{bit_and, bit_or, bit_xor, digits, bitwise, differ}
use Prim.Native.Nat.{bit_and-bitwise, bit_or-bitwise, bit_xor-bitwise}
use native.Mathlib.Nat.{le_refl, pow-suc, div-div-eq-div-mul}
use mathlib.Core.Path.{◌≡◌, refl, ap, sym, ◌∙◌}
use native.Mathlib.Omega.{arith}

-- Fuel beyond the first number changes nothing, so each operation obeys an equation on the lowest
-- digit.
module _ (at_zero : ℕ → ℕ) (digit : ℕ → ℕ → ℕ) where
  zero_digits : (fuel y : ℕ) → digits at_zero digit fuel 0 y ≡ at_zero y
  zero_digits zero y = refl
  zero_digits (suc fuel) y = refl

  extra_fuel :
      (fuel total x y : ℕ)
      → x ≤ fuel
      → fuel ≤ total
      → digits at_zero digit total x y ≡ digits at_zero digit fuel x y
  extra_fuel fuel total zero y enough more = zero_digits total y ∙ sym (zero_digits fuel y)
  extra_fuel zero total (suc x) y enough more = absurd (omega arith)
  extra_fuel (suc fuel) zero (suc x) y enough more = absurd (omega arith)
  extra_fuel (suc fuel) (suc total) (suc x) y enough more =
      ap (λ rest. rest * 2 + digit (suc x % 2) (y % 2))
        (extra_fuel fuel total (suc x / 2) (y / 2) (omega arith) (omega arith))

  lowest_digit :
      (x y half : ℕ)
      → half ≡ suc x / 2
      → bitwise at_zero digit (suc x) y
        ≡ bitwise at_zero digit half (y / 2) * 2 + digit (suc x % 2) (y % 2)
  lowest_digit x y half e =
      ap (λ rest. rest * 2 + digit (suc x % 2) (y % 2))
        (ap (λ h. digits at_zero digit x h (y / 2)) (sym e)
          ∙ extra_fuel half x half (y / 2) (omega arith) (omega arith))

pub bit_and_step : (x y : ℕ) → bit_and x y ≡ bit_and (x / 2) (y / 2) * 2 + min (x % 2) (y % 2)
bit_and_step zero y = simp bit_and-bitwise (omega arith)
bit_and_step (suc x) y = simp bit_and-bitwise (lowest_digit (λ t. 0) min x y (suc x / 2) refl)

pub bit_or_step : (x y : ℕ) → bit_or x y ≡ bit_or (x / 2) (y / 2) * 2 + max (x % 2) (y % 2)
bit_or_step zero y = simp bit_or-bitwise (omega arith)
bit_or_step (suc x) y = simp bit_or-bitwise (lowest_digit (λ t. t) max x y (suc x / 2) refl)

differ_bits : (a b : ℕ) → a < 2 → b < 2 → differ a b ≡ (a + b) % 2
differ_bits zero zero h k = refl
differ_bits zero (suc zero) h k = refl
differ_bits (suc zero) zero h k = refl
differ_bits (suc zero) (suc zero) h k = refl
differ_bits (suc (suc a)) b h k = absurd (omega arith)
differ_bits zero (suc (suc b)) h k = absurd (omega arith)
differ_bits (suc zero) (suc (suc b)) h k = absurd (omega arith)

pub bit_xor_step : (a b : ℕ) → bit_xor a b ≡ bit_xor (a / 2) (b / 2) * 2 + (a + b) % 2
bit_xor_step zero b = simp bit_xor-bitwise (omega arith)
bit_xor_step (suc a) b = simp bit_xor-bitwise (
    omega (
      arith,
      lowest_digit (λ t. t) differ a b (suc a / 2) refl,
      differ_bits (suc a % 2) (b % 2) (omega arith) (omega arith),
    ))

pub bit_xor-half : (a b : ℕ) → bit_xor a b / 2 ≡ bit_xor (a / 2) (b / 2)
bit_xor-half a b = omega (arith, bit_xor_step a b)

pub bit_xor-parity : (a b : ℕ) → bit_xor a b % 2 ≡ (a + b) % 2
bit_xor-parity a b = omega (arith, bit_xor_step a b)

pub zero-bit_xor : (b : ℕ) → bit_xor 0 b ≡ b
zero-bit_xor b = bit_xor-bitwise 0 b

bit_xor-comm_fuel : (n a b : ℕ) → a ≤ n → b ≤ n → bit_xor a b ≡ bit_xor b a
bit_xor-comm_fuel zero zero zero h k = refl
bit_xor-comm_fuel zero (suc a) b h k = absurd (omega arith)
bit_xor-comm_fuel zero zero (suc b) h k = absurd (omega arith)
bit_xor-comm_fuel (suc n) a b h k = omega (
  arith,
  bit_xor_step a b,
  bit_xor_step b a,
  bit_xor-comm_fuel n (a / 2) (b / 2) (omega arith) (omega arith),
)

pub bit_xor_comm : (a b : ℕ) → bit_xor a b ≡ bit_xor b a
bit_xor_comm a b = bit_xor-comm_fuel (a + b) a b (omega arith) (omega arith)

bit_xor-assoc_fuel :
    (n a b c : ℕ) → a ≤ n → b ≤ n → c ≤ n → bit_xor (bit_xor a b) c ≡ bit_xor a (bit_xor b c)
bit_xor-assoc_fuel zero zero b c h k l =
    ap (λ t. bit_xor t c) (zero-bit_xor b) ∙ sym (zero-bit_xor (bit_xor b c))
bit_xor-assoc_fuel zero (suc a) b c h k l = absurd (omega arith)
bit_xor-assoc_fuel (suc n) a b c h k l =
    let ih =
      bit_xor-assoc_fuel n (a / 2) (b / 2) (c / 2) (omega arith) (omega arith) (omega arith) in
    omega (
      arith,
      bit_xor_step (bit_xor a b) c,
      bit_xor_step a (bit_xor b c),
      bit_xor-parity a b,
      bit_xor-parity b c,
      ih,
      ap (λ (t : ℕ). bit_xor t (c / 2)) (bit_xor-half a b),
      ap (λ (t : ℕ). bit_xor (a / 2) t) (bit_xor-half b c),
    )

pub bit_xor_assoc : (a b c : ℕ) → bit_xor (bit_xor a b) c ≡ bit_xor a (bit_xor b c)
bit_xor_assoc a b c = bit_xor-assoc_fuel (a + b + c) a b c (omega arith) (omega arith) (omega arith)

-- Regroups two sums of two.
pub bit_xor_swap :
    (a b c d : ℕ) → bit_xor (bit_xor a b) (bit_xor c d) ≡ bit_xor (bit_xor a c) (bit_xor b d)
bit_xor_swap a b c d =
    bit_xor_assoc a b (bit_xor c d)
    ∙ ap (bit_xor a)
        (sym (bit_xor_assoc b c d) ∙ ap (λ t. bit_xor t d) (bit_xor_comm b c) ∙ bit_xor_assoc c b d)
    ∙ sym (bit_xor_assoc a c (bit_xor b d))

pub bit_xor-lt : (k a b : ℕ) → a < 2 ^ k → b < 2 ^ k → bit_xor a b < 2 ^ k
bit_xor-lt zero zero zero h l = omega arith
bit_xor-lt zero (suc a) b h l = absurd (omega arith)
bit_xor-lt zero zero (suc b) h l = absurd (omega arith)
bit_xor-lt (suc k) a b h l =
    let e = pow-suc 2 k in
    omega (
      arith,
      e,
      bit_xor_step a b,
      bit_xor-lt k (a / 2) (b / 2) (omega (arith, e)) (omega (arith, e)),
    )

pub bit_xor_self : (a : ℕ) → bit_xor a a ≡ 0
bit_xor_self a = go a a (le_refl a)
  where
    go : (n a : ℕ) → a ≤ n → bit_xor a a ≡ 0
    go n zero h = zero-bit_xor 0
    go zero (suc a) h = absurd (omega arith)
    go (suc n) (suc a) h =
        omega (arith, bit_xor_step (suc a) (suc a), go n (suc a / 2) (omega arith))

pub mul-pow-suc : (k q : ℕ) → q * 2 ^ suc k ≡ (q * 2 ^ k) * 2
mul-pow-suc k q = ap (◌*◌ q) (pow-suc 2 k) ∙ omega arith

-- Fields that do not overlap: `^` is their sum.
pub bit_xor_fields : (k q r : ℕ) → r < 2 ^ k → bit_xor (q * 2 ^ k) r ≡ q * 2 ^ k + r
bit_xor_fields zero q zero fits = bit_xor_comm (q * 1) 0 ∙ zero-bit_xor (q * 1) ∙ omega arith
bit_xor_fields zero q (suc r) fits = absurd (omega arith)
bit_xor_fields (suc k) q r fits = ground (
  arith,
  bit_xor_step (q * 2 ^ suc k) r,
  mul-pow-suc k q,
  pow-suc 2 k,
  bit_xor_fields k q (r / 2),
)

-- A low operand does not reach the bits above it.
pub bit_xor-shift : (k a b : ℕ) → b < 2 ^ k → bit_xor a b / 2 ^ k ≡ a / 2 ^ k
bit_xor-shift zero a zero fits = omega (arith, bit_xor_comm a 0, zero-bit_xor a)
bit_xor-shift zero a (suc b) fits = absurd (omega arith)
bit_xor-shift (suc k) a b fits =
    let e = pow-suc 2 k in
    let twice : 2 * 2 ^ k ≡ 2 ^ suc k = omega (arith, e) in
    let split = λ (x : ℕ). div-div-eq-div-mul x 2 (2 ^ k) ∙ ap (λ t. x / t) twice in
    sym (split (bit_xor a b))
    ∙ ap (λ t. t / 2 ^ k) (bit_xor-half a b)
    ∙ bit_xor-shift k (a / 2) (b / 2) (omega (arith, e))
    ∙ split a

below-bit_and-zero : (bound a : ℕ) → a < bound → bit_and a 0 ≡ 0
below-bit_and-zero zero a l = absurd (omega arith)
below-bit_and-zero (suc bound) zero l = bit_and-bitwise 0 0
below-bit_and-zero (suc bound) (suc a) l =
    let half : bit_and (suc a / 2) 0 ≡ 0 = below-bit_and-zero bound (suc a / 2) (omega arith) in
    omega (arith, half, bit_and_step (suc a) 0)

pub bit_and-zero : (a : ℕ) → bit_and a 0 ≡ 0
bit_and-zero a = below-bit_and-zero (suc a) a (omega arith)

and_odd : (a m : ℕ) → bit_and a (m * 2 + 1) ≡ bit_and (a / 2) m * 2 + a % 2
and_odd a m =
    let e : (m * 2 + 1) / 2 ≡ m = omega arith in
    omega (arith, bit_and_step a (m * 2 + 1), ap (λ (t : ℕ). bit_and (a / 2) t) e)

-- A mask of the low eight bits is the remainder by 256.
pub bit_and_byte : (a : ℕ) → bit_and a 255 ≡ a % 256
bit_and_byte a = omega (
  arith,
  and_odd a 127,
  and_odd (a / 2) 63,
  and_odd (a / 2 / 2) 31,
  and_odd (a / 2 / 2 / 2) 15,
  and_odd (a / 2 / 2 / 2 / 2) 7,
  and_odd (a / 2 / 2 / 2 / 2 / 2) 3,
  and_odd (a / 2 / 2 / 2 / 2 / 2 / 2) 1,
  and_odd (a / 2 / 2 / 2 / 2 / 2 / 2 / 2) 0,
  bit_and-zero (a / 2 / 2 / 2 / 2 / 2 / 2 / 2 / 2),
)
