-- ===== src/Memory.antt =====
-- What the C code does to byte buffers: `memcpy` in and out of one, `strlen`, and the conversions
-- `htobe` and `be..toh`. A pointer is the list of the bytes from it to the end of the object that
-- it points into; an access that leaves the object is a fault, `none`.
pub mod Laws
pub mod Numbers
use sik_screen_worms.Prelude.{
  ℕ, zero, suc, ◌+◌, ◌*◌, ◌/◌, ◌%◌, ◌^◌, Option, none, some, List, [], ◌∷◌, ◌++◌, leb, ◌==◌,
  if◌then◌else◌, length, take, drop,
}

infixl 5 ◌>>=◌
abbrev pub ◌>>=◌ {ℓ κ} : {A : Type ℓ} {B : Type κ} → Option A → (A → Option B) → Option B
none >>= f = none
some a >>= f = f a

-- `memcpy(buf + offset, bytes, n)` for the `n` bytes given.
unfoldable pub write_at : List ℕ → ℕ → List ℕ → Option (List ℕ)
write_at buf offset bytes =
    if leb (offset + length bytes) (length buf)
    then some (take offset buf ++ (bytes ++ drop (offset + length bytes) buf))
    else none

-- `memcpy(to, buf + offset, n)`: the bytes copied.
unfoldable pub read_at : List ℕ → ℕ → ℕ → Option (List ℕ)
read_at buf offset n =
    if leb (offset + n) (length buf) then some (take n (drop offset buf)) else none

unfoldable pub strlen : List ℕ → Option ℕ
strlen [] = none
strlen (c ∷ cs) = if c == 0 then some 0 else strlen cs >>= λ n. some (suc n)

-- The `k` bytes of a number, most significant first, as `htobe16`, `htobe32` or `htobe64` leaves
-- them in memory.
unfoldable pub be_bytes : ℕ → ℕ → List ℕ
be_bytes zero v = []
be_bytes (suc k) v = (v / 256 ^ k % 256) ∷ be_bytes k v

-- The number that such bytes stand for.
be_fold : ℕ → List ℕ → ℕ
be_fold acc [] = acc
be_fold acc (b ∷ bs) = be_fold (acc * 256 + b) bs

unfoldable pub from_be : List ℕ → ℕ
unfolding be_fold
from_be bytes = be_fold 0 bytes
