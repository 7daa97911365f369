-- ===== src/Crc32.antt =====
-- common/crc32.c: the table-driven CRC-32 over a block of bytes. A `uint32_t` is a number below
-- 2 ^ 32, and the block that `p` walks over is the list of its bytes.
mod Table
pub mod Bitwise
pub mod Detection
use sik_screen_worms.Prelude.{ℕ, ◌-◌, ◌/◌, ◌^◌, bit_and, bit_xor, List, [], ◌∷◌, get_or}
use Table.{crc32_tab}

-- `~0U`.
abbrev pub all_ones : ℕ
all_ones = 2 ^ 32 - 1

-- One round of the loop: `crc32_tab[(crc ^ *p++) & 0xFF] ^ (crc >> 8)`.
crc32_step : ℕ → ℕ → ℕ
unfolding crc32_tab
crc32_step crc b = bit_xor (get_or crc32_tab (bit_and (bit_xor crc b) 0xff) 0) (crc / 2 ^ 8)

-- `while (size--)`, over the bytes that are left.
crc32_loop : ℕ → List ℕ → ℕ
crc32_loop crc [] = crc
crc32_loop crc (b ∷ bs) = crc32_loop (crc32_step crc b) bs

unfoldable pub crc32 : List ℕ → ℕ
unfolding crc32_loop crc32_step
crc32 bytes = bit_xor (crc32_loop all_ones bytes) all_ones
