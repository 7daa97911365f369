-- ===== src/Crc32/Bitwise.antt =====
-- The table-driven CRC-32 is the CRC of the polynomial 0xedb88320, computed bit by bit.
use sik_screen_worms.Prelude.{
  ℕ, zero, suc, ◌+◌, ◌*◌, ◌/◌, ◌%◌, ◌^◌, ◌<◌, ◌≡◌, refl, sym, ap, ◌∙◌, arith, ◌==◌, if◌then◌else◌,
  Bool, true, false, ◌⊎◌, inl, inr, List, [], ◌∷◌, bit_xor, get_or, All,
}
use mathlib.Core.Path.{ap₂, ◌≡⟨◌⟩◌, ◌∎}
use sik_screen_worms.Prelude.Bits.{
  mul-pow-suc, bit_xor-shift, bit_xor-half, bit_xor-parity, zero-bit_xor, bit_xor_comm,
  bit_xor_assoc, bit_xor_swap, bit_xor-lt, bit_xor_self, bit_xor_fields, bit_and_byte,
}
use sik_screen_worms.Crc32.Table.{crc32_tab}
use sik_screen_worms.Crc32.{all_ones, crc32_step, crc32_loop, crc32}

-- The polynomial, with its highest-order term in the lowest-order bit.
abbrev pub polynomial : ℕ
polynomial = 0xedb88320

-- One bit of the shift register.
unfoldable pub shift_bit : ℕ → ℕ
shift_bit x = if x % 2 == 1 then bit_xor (x / 2) polynomial else x / 2

unfoldable pub shift_bits : ℕ → ℕ → ℕ
shift_bits zero x = x
shift_bits (suc k) x = shift_bits k (shift_bit x)

-- The CRC with no table: each byte is added, and eight bits are shifted out.
unfoldable pub bitwise_crc : ℕ → List ℕ → ℕ
bitwise_crc crc [] = crc
bitwise_crc crc (b ∷ bs) = bitwise_crc (shift_bits 8 (bit_xor crc b)) bs

pub shift_bit-even : (x : ℕ) → x % 2 ≡ 0 → shift_bit x ≡ x / 2
unfolding shift_bit
shift_bit-even x e = ground arith

pub shift_bit-odd : (x : ℕ) → x % 2 ≡ 1 → shift_bit x ≡ bit_xor (x / 2) polynomial
unfolding shift_bit
shift_bit-odd x e = ground arith

pub parity : (x : ℕ) → (x % 2 ≡ 0) ⊎ (x % 2 ≡ 1)
parity x = omega arith

-- The register is linear over exclusive or.
shift_bit-xor : (x y : ℕ) → shift_bit (bit_xor x y) ≡ bit_xor (shift_bit x) (shift_bit y)
shift_bit-xor x y = go (parity x) (parity y)
  where
    half : bit_xor x y / 2 ≡ bit_xor (x / 2) (y / 2)
    half = bit_xor-half x y

    even : (x + y) % 2 ≡ 0 → shift_bit (bit_xor x y) ≡ bit_xor (x / 2) (y / 2)
    even e = shift_bit-even (bit_xor x y) (omega (arith, bit_xor-parity x y)) ∙ half

    odd : (x + y) % 2 ≡ 1 → shift_bit (bit_xor x y) ≡ bit_xor (bit_xor (x / 2) (y / 2)) polynomial
    odd e =
        shift_bit-odd (bit_xor x y) (omega (arith, bit_xor-parity x y))
        ∙ ap (λ t. bit_xor t polynomial) half

    go :
        (x % 2 ≡ 0) ⊎ (x % 2 ≡ 1)
        → (y % 2 ≡ 0) ⊎ (y % 2 ≡ 1)
        → shift_bit (bit_xor x y) ≡ bit_xor (shift_bit x) (shift_bit y)
    go (inl p) (inl q) = rw (shift_bit-even x p, shift_bit-even y q) (even (omega arith))
    go (inr p) (inl q) =
        rw (shift_bit-odd x p, shift_bit-even y q)
          (odd (omega arith)
            ∙ bit_xor_assoc (x / 2) (y / 2) polynomial
            ∙ ap (bit_xor (x / 2)) (bit_xor_comm (y / 2) polynomial)
            ∙ sym (bit_xor_assoc (x / 2) polynomial (y / 2)))
    go (inl p) (inr q) =
        rw (shift_bit-even x p, shift_bit-odd y q)
          (odd (omega arith) ∙ bit_xor_assoc (x / 2) (y / 2) polynomial)
    go (inr p) (inr q) =
        rw (shift_bit-odd x p, shift_bit-odd y q)
          (even (omega arith)
            ∙ sym (bit_xor_comm _ 0 ∙ zero-bit_xor _)
            ∙ ap (bit_xor (bit_xor (x / 2) (y / 2))) (sym (bit_xor_self polynomial))
            ∙ bit_xor_swap (x / 2) (y / 2) polynomial polynomial)

shift_bits-xor :
    (k x y : ℕ) → shift_bits k (bit_xor x y) ≡ bit_xor (shift_bits k x) (shift_bits k y)
unfolding shift_bits
shift_bits-xor zero x y = refl
shift_bits-xor (suc k) x y =
    ap (shift_bits k) (shift_bit-xor x y) ∙ shift_bits-xor k (shift_bit x) (shift_bit y)

-- The bits above the lowest byte are only moved.
shift_bits-high : (k h : ℕ) → shift_bits k (h * 2 ^ k) ≡ h
unfolding shift_bits
shift_bits-high zero h = omega arith
shift_bits-high (suc k) h =
    let e = mul-pow-suc k h in
    ap (shift_bits k) (shift_bit-even (h * 2 ^ suc k) (omega (arith, e)) ∙ omega (arith, e))
    ∙ shift_bits-high k h

table_entries : ℕ → Bool
table_entries zero = true
table_entries (suc n) = if get_or crc32_tab n 0 == shift_bits 8 n then table_entries n else false

table_entries_hold : table_entries 256 ≡ true
unfolding table_entries crc32_tab shift_bits shift_bit
table_entries_hold = refl

table_entry_below :
    (n i : ℕ) → table_entries n ≡ true → i < n → get_or crc32_tab i 0 ≡ shift_bits 8 i
unfolding table_entries
table_entry_below zero i e h = absurd (omega arith)
table_entry_below (suc n) i e h = ground (arith, table_entry_below n i)

-- Each entry of the table is eight rounds of the register on its index.
table_entry : (i : ℕ) → i < 256 → get_or crc32_tab i 0 ≡ shift_bits 8 i
table_entry i h = table_entry_below 256 i table_entries_hold h

-- A byte does not reach the bits that `crc >> 8` keeps.
high_bits : (crc b : ℕ) → b < 256 → bit_xor crc b / 256 ≡ crc / 256
high_bits crc b h = bit_xor-shift 8 crc b h

-- The split of the register into its lowest byte and the rest.
shift_bits-split : (x : ℕ) → shift_bits 8 x ≡ bit_xor (shift_bits 8 (x % 256)) (x / 256)
shift_bits-split x =
    shift_bits 8 x
    ≡⟨ ap (shift_bits 8) (sym (bit_xor_fields 8 (x / 256) (x % 256) (omega arith) ∙ omega arith)) ⟩
      shift_bits 8 (bit_xor (x / 256 * 2 ^ 8) (x % 256))
    ≡⟨ shift_bits-xor 8 (x / 256 * 2 ^ 8) (x % 256) ⟩
      bit_xor (shift_bits 8 (x / 256 * 2 ^ 8)) (shift_bits 8 (x % 256))
    ≡⟨ bit_xor_comm _ _ ⟩ bit_xor (shift_bits 8 (x % 256)) (shift_bits 8 (x / 256 * 2 ^ 8))
    ≡⟨ ap (bit_xor (shift_bits 8 (x % 256))) (shift_bits-high 8 (x / 256)) ⟩
      bit_xor (shift_bits 8 (x % 256)) (x / 256) ∎

crc32_step-shift_bits : (crc b : ℕ) → b < 256 → crc32_step crc b ≡ shift_bits 8 (bit_xor crc b)
unfolding crc32_step
crc32_step-shift_bits crc b h =
    let x = bit_xor crc b in
    ap₂ bit_xor
      (ap (λ t. get_or crc32_tab t 0) (bit_and_byte x) ∙ table_entry (x % 256) (omega arith))
      (sym (high_bits crc b h))
    ∙ sym (shift_bits-split x)

crc32_loop-bitwise_crc :
    (crc : ℕ) (bytes : List ℕ)
    → All (λ b. b < 256) bytes
    → crc32_loop crc bytes ≡ bitwise_crc crc bytes
unfolding crc32_loop bitwise_crc
crc32_loop-bitwise_crc crc [] h = refl
crc32_loop-bitwise_crc crc (b ∷ bs) (h, hs) =
    ap (λ t. crc32_loop t bs) (crc32_step-shift_bits crc b h)
    ∙ crc32_loop-bitwise_crc (shift_bits 8 (bit_xor crc b)) bs hs

-- On every list of bytes `crc32` is the bit-by-bit CRC of the polynomial, started at all ones and
-- complemented at the end.
pub crc32-bitwise_crc :
    (bytes : List ℕ)
    → All (λ b. b < 256) bytes
    → crc32 bytes ≡ bit_xor (bitwise_crc all_ones bytes) all_ones
unfolding crc32
crc32-bitwise_crc bytes h = ap (λ t. bit_xor t all_ones) (crc32_loop-bitwise_crc all_ones bytes h)

pub shift_bit-lt : (x : ℕ) → x < 2 ^ 32 → shift_bit x < 2 ^ 32
unfolding shift_bit
shift_bit-lt x h = ground (arith, bit_xor-lt 32 (x / 2) polynomial (omega arith) (omega arith))

pub shift_bits-lt : (k x : ℕ) → x < 2 ^ 32 → shift_bits k x < 2 ^ 32
unfolding shift_bits
shift_bits-lt zero x h = h
shift_bits-lt (suc k) x h = shift_bits-lt k (shift_bit x) (shift_bit-lt x h)

pub bitwise_crc-lt :
    (crc : ℕ) (bytes : List ℕ)
    → crc < 2 ^ 32
    → All (λ b. b < 256) bytes
    → bitwise_crc crc bytes < 2 ^ 32
unfolding bitwise_crc
bitwise_crc-lt crc [] h hs = h
bitwise_crc-lt crc (b ∷ bs) h (k, hs) =
    bitwise_crc-lt (shift_bits 8 (bit_xor crc b)) bs
      (shift_bits-lt 8 (bit_xor crc b) (bit_xor-lt 32 crc b h (omega arith))) hs

-- The checksum of a list of bytes fits a `uint32_t`.
pub crc32-lt : (bytes : List ℕ) → All (λ b. b < 256) bytes → crc32 bytes < 2 ^ 32
crc32-lt bytes h = rw (crc32-bitwise_crc bytes h) (
    bit_xor-lt 32 (bitwise_crc all_ones bytes) all_ones
      (bitwise_crc-lt all_ones bytes (omega arith) h) (omega arith))
