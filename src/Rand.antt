-- ===== src/Rand.antt =====
-- server/rand.c: the random number generator. Its one static variable is passed on explicitly.
use sik_screen_worms.Prelude.{ℕ, ◌*◌, ◌%◌, ◌^◌, ◌<◌, ◌≡◌, ◌↔◌, arith}

-- `rand_set`: the argument is converted to a `uint32_t`.
pub rand_set : ℕ → ℕ
rand_set rand_0 = rand_0 % 2 ^ 32

-- `rand_get`: the number returned and the next state. The product of a `uint32_t` and an `int`
-- wraps before it is widened to `mul`.
unfoldable pub rand_get : ℕ → ℕ × ℕ
rand_get next_rand = let mul = next_rand * 279410273 % 2 ^ 32 in (next_rand, mul % 4294967291)

pub rand_get-lt : (r : ℕ) → (rand_get r).1 < 2 ^ 32
unfolding rand_get
rand_get-lt r = omega arith

-- The product that the variable `mul` of 64 bits has room for is reduced exactly when the state is
-- below 16: from every other state the generator goes on to a different number.
pub rand_get-exact_iff :
    (r : ℕ) → r < 2 ^ 32 → ((rand_get r).1 ≡ r * 279410273 % 4294967291) ↔ (r < 16)
unfolding rand_get
rand_get-exact_iff r h = (λ e. omega arith, λ l. omega arith)
