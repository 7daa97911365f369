-- ===== src/Examples/Checksums.antt =====
-- Checksums of short blocks, and the first state of the random number generator.
use sik_screen_worms.Prelude.{◌*◌, ◌%◌, ◌<◌, ◌≡◌, ◌↔◌, arith, [], ◌∷◌, bit_xor}
use sik_screen_worms.Crc32.{all_ones, crc32}
use sik_screen_worms.Crc32.Bitwise.{crc32-bitwise_crc, bitwise_crc}
use sik_screen_worms.Rand.{rand_get, rand_get-exact_iff}

crc32-bitwise_crc_example :
    crc32 (97 ∷ 98 ∷ []) ≡ bit_xor (bitwise_crc all_ones (97 ∷ 98 ∷ [])) all_ones
crc32-bitwise_crc_example = crc32-bitwise_crc (97 ∷ 98 ∷ []) (omega arith, (omega arith, tt))

-- 420042 is an arbitrary state that the generator may be seeded with.
rand_get-exact_iff_example : ((rand_get 420042).1 ≡ 420042 * 279410273 % 4294967291) ↔ (420042 < 16)
rand_get-exact_iff_example = rand_get-exact_iff 420042 (omega arith)
