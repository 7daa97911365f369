-- ===== src/Crc32/Detection.antt =====
-- What the checksum detects: a block with one byte changed has another checksum.
use sik_screen_worms.Prelude.{
  ℕ, zero, suc, ◌/◌, ◌%◌, ◌^◌, ◌<◌, ◌≡◌, ◌≢◌, refl, sym, ap, ◌∙◌, arith, inl, inr, ◌⊎◌, List, [],
  ◌∷◌, ◌++◌, bit_xor, All, All-append,
}
use sik_screen_worms.Prelude.Bits.{
  bit_xor-shift, bit_xor_comm, bit_xor_assoc, zero-bit_xor, bit_xor_self, bit_xor-lt,
}
use sik_screen_worms.Crc32.Bitwise.{
  shift_bit, shift_bits, polynomial, bitwise_crc, shift_bit-even, shift_bit-odd, parity,
  shift_bit-lt, shift_bits-lt, bitwise_crc-lt, crc32-bitwise_crc,
}
use sik_screen_worms.Crc32.{all_ones, crc32}

xor_back : (x p : ℕ) → bit_xor (bit_xor x p) p ≡ x
xor_back x p =
    bit_xor_assoc x p p ∙ ap (bit_xor x) (bit_xor_self p) ∙ bit_xor_comm x 0 ∙ zero-bit_xor x

bit_xor-cancel : (p x y : ℕ) → bit_xor x p ≡ bit_xor y p → x ≡ y
bit_xor-cancel p x y e = sym (xor_back x p) ∙ ap (λ t. bit_xor t p) e ∙ xor_back y p

-- The polynomial sets the top bit, which no even register has after its shift.
top_bit_ne : (x y : ℕ) → x < 2 ^ 32 → y < 2 ^ 32 → x / 2 ≢ bit_xor (y / 2) polynomial
top_bit_ne x y h k e =
    omega
      (arith, bit_xor_comm (y / 2) polynomial, bit_xor-shift 31 polynomial (y / 2) (omega arith), e)

shift_bit-injective : (x y : ℕ) → x < 2 ^ 32 → y < 2 ^ 32 → shift_bit x ≡ shift_bit y → x ≡ y
shift_bit-injective x y h k e = go (parity x) (parity y)
  where
    go : (x % 2 ≡ 0) ⊎ (x % 2 ≡ 1) → (y % 2 ≡ 0) ⊎ (y % 2 ≡ 1) → x ≡ y
    go (inl p) (inl q) = omega (arith, sym (shift_bit-even x p) ∙ e ∙ shift_bit-even y q)
    go (inl p) (inr q) =
        absurd (top_bit_ne x y h k (sym (shift_bit-even x p) ∙ e ∙ shift_bit-odd y q))
    go (inr p) (inl q) =
        absurd (top_bit_ne y x k h (sym (shift_bit-even y q) ∙ sym e ∙ shift_bit-odd x p))
    go (inr p) (inr q) =
        let half =
          bit_xor-cancel polynomial (x / 2) (y / 2)
            (sym (shift_bit-odd x p) ∙ e ∙ shift_bit-odd y q) in
        omega (arith, half)

shift_bits-injective :
    (k x y : ℕ) → x < 2 ^ 32 → y < 2 ^ 32 → shift_bits k x ≡ shift_bits k y → x ≡ y
unfolding shift_bits
shift_bits-injective zero x y h k e = e
shift_bits-injective (suc n) x y h k e =
    shift_bit-injective x y h k
      (shift_bits-injective n (shift_bit x) (shift_bit y) (shift_bit-lt x h) (shift_bit-lt y k) e)

bitwise_crc-append :
    (crc : ℕ) (xs ys : List ℕ) → bitwise_crc crc (xs ++ ys) ≡ bitwise_crc (bitwise_crc crc xs) ys
unfolding bitwise_crc
bitwise_crc-append crc [] ys = refl
bitwise_crc-append crc (x ∷ xs) ys = bitwise_crc-append (shift_bits 8 (bit_xor crc x)) xs ys

-- Two registers that differ stay different over the same bytes.
bitwise_crc-injective :
    (bytes : List ℕ) (x y : ℕ)
    → All (λ b. b < 256) bytes
    → x < 2 ^ 32
    → y < 2 ^ 32
    → bitwise_crc x bytes ≡ bitwise_crc y bytes
    → x ≡ y
unfolding bitwise_crc
bitwise_crc-injective [] x y hs h k e = e
bitwise_crc-injective (b ∷ bs) x y (hb, hs) h k e =
    let xb : bit_xor x b < 2 ^ 32 = bit_xor-lt 32 x b h (omega arith) in
    let yb : bit_xor y b < 2 ^ 32 = bit_xor-lt 32 y b k (omega arith) in
    bit_xor-cancel b x y (
      shift_bits-injective 8 (bit_xor x b) (bit_xor y b) xb yb
        (bitwise_crc-injective bs _ _ hs (shift_bits-lt 8 _ xb) (shift_bits-lt 8 _ yb) e))

bytes_eq :
    (start x y : ℕ) (back : List ℕ)
    → start < 2 ^ 32
    → x < 256
    → y < 256
    → All (λ b. b < 256) back
    → bitwise_crc start (x ∷ back) ≡ bitwise_crc start (y ∷ back)
    → x ≡ y
unfolding bitwise_crc
bytes_eq start x y back h hx hy hb e =
    let xs : bit_xor start x < 2 ^ 32 = bit_xor-lt 32 start x h (omega arith) in
    let ys : bit_xor start y < 2 ^ 32 = bit_xor-lt 32 start y h (omega arith) in
    let sums =
      shift_bits-injective 8 (bit_xor start x) (bit_xor start y) xs ys
        (bitwise_crc-injective back _ _ hb (shift_bits-lt 8 _ xs) (shift_bits-lt 8 _ ys) e) in
    bit_xor-cancel start x y (bit_xor_comm x start ∙ sums ∙ bit_xor_comm start y)

-- Changing one byte of a block, wherever it stands, changes the checksum.
pub crc32-one_byte :
    (front back : List ℕ) (x y : ℕ)
    → All (λ b. b < 256) front
    → All (λ b. b < 256) back
    → x < 256
    → y < 256
    → x ≢ y
    → crc32 (front ++ (x ∷ back)) ≢ crc32 (front ++ (y ∷ back))
crc32-one_byte front back x y hf hb hx hy ne e =
    let start : ℕ = bitwise_crc all_ones front in
    let fits : start < 2 ^ 32 = bitwise_crc-lt all_ones front (omega arith) hf in
    let register = λ (b : ℕ) (h : b < 256).
      crc32-bitwise_crc (front ++ (b ∷ back)) (All-append _ front (b ∷ back) hf (h, hb)) in
    let same : bitwise_crc all_ones (front ++ (x ∷ back))
        ≡ bitwise_crc all_ones (front ++ (y ∷ back)) =
      bit_xor-cancel all_ones _ _ (sym (register x hx) ∙ e ∙ register y hy) in
    let ends : bitwise_crc start (x ∷ back) ≡ bitwise_crc start (y ∷ back) =
      sym (bitwise_crc-append all_ones front (x ∷ back))
      ∙ same
      ∙ bitwise_crc-append all_ones front (y ∷ back) in
    ne (bytes_eq start x y back fits hx hy hb ends)
