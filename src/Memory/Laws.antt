-- ===== src/Memory/Laws.antt =====
-- Reads and writes of a buffer that is split where they fall.
use sik_screen_worms.Prelude.{
  ℕ, ◌+◌, ◌≤◌, ◌<◌, ◌≡◌, refl, sym, ap, ◌∙◌, arith, true, none, some, List, [], ◌∷◌, ◌++◌, leb,
  length, take, drop, All, length-append, take-append, drop-append, take-append-drop, length-take,
  length-drop, append_assoc,
}
use sik_screen_worms.Memory.{write_at, read_at, strlen}
use mathlib.Core.Path.{ap₂}

leb-true : (a b : ℕ) → a ≤ b → leb a b ≡ true
leb-true a b h = ground arith

-- A write over `mid`, which begins at the offset.
pub write_at_lem :
    (front mid back bytes : List ℕ) (offset : ℕ)
    → offset ≡ length front
    → length mid ≡ length bytes
    → write_at (front ++ (mid ++ back)) offset bytes ≡ some (front ++ (bytes ++ back))
unfolding write_at
write_at_lem front mid back bytes offset e f =
    rw
      (leb-true (offset + length bytes) (length (front ++ (mid ++ back)))
        (omega (arith, length-append front (mid ++ back), length-append mid back)))
      (ap₂ (λ xs ys. some (xs ++ (bytes ++ ys)))
        (ap (λ n. take n (front ++ (mid ++ back))) e ∙ take-append front (mid ++ back))
        (ap₂ drop (omega (arith, length-append front mid)) (sym (append_assoc front mid back))
          ∙ drop-append (front ++ mid) back))

-- A read of `mid`.
pub read_at_lem :
    (front mid back : List ℕ) (offset n : ℕ)
    → offset ≡ length front
    → n ≡ length mid
    → read_at (front ++ (mid ++ back)) offset n ≡ some mid
unfolding read_at
read_at_lem front mid back offset n e f =
    rw
      (leb-true (offset + n) (length (front ++ (mid ++ back)))
        (omega (arith, length-append front (mid ++ back), length-append mid back)))
      (ap some (
        ap₂ take f (ap (λ k. drop k (front ++ (mid ++ back))) e ∙ drop-append front (mid ++ back))
        ∙ take-append mid back))

-- A read outside the object faults.
pub read_at_fault :
    (buf : List ℕ) (offset n : ℕ) → length buf < offset + n → read_at buf offset n ≡ none
unfolding read_at
read_at_fault buf offset n h = ground arith

-- A buffer with room for `n` bytes splits behind them.
pub split_at :
    (n : ℕ) (buf : List ℕ)
    → n ≤ length buf
    → (front back : List ℕ) × (buf ≡ front ++ back) × (length front ≡ n) × (back ≡ drop n buf)
split_at n buf h =
    (take n buf, drop n buf, sym (take-append-drop n buf), omega (arith, length-take n buf), refl)

-- The text of a C string: the bytes before its NUL, which are not 0 themselves.
abbrev pub IsText : List ℕ → Type 0
IsText = All (λ c. (0 < c) × (c < 256))

pub strlen_lem :
    (text rest : List ℕ) → IsText text → strlen (text ++ (0 ∷ rest)) ≡ some (length text)
unfolding strlen
strlen_lem [] rest h = refl
strlen_lem (c ∷ text) rest (p, h) = ground (arith, p, strlen_lem text rest h)

-- A write behind two parts.
pub write_field :
    (a b mid back bytes : List ℕ) (offset : ℕ)
    → offset ≡ length a + length b
    → length mid ≡ length bytes
    → write_at (a ++ (b ++ (mid ++ back))) offset bytes ≡ some (a ++ (b ++ (bytes ++ back)))
write_field a b mid back bytes offset e f =
    ap (λ t. write_at t offset bytes) (sym (append_assoc a b (mid ++ back)))
    ∙ write_at_lem (a ++ b) mid back bytes offset (omega (arith, e, length-append a b)) f
    ∙ ap some (append_assoc a b (bytes ++ back))

-- A read inside the object succeeds.
pub read_at-some :
    (buf : List ℕ) (offset n : ℕ)
    → offset + n ≤ length buf
    → (bytes : List ℕ) × (read_at buf offset n ≡ some bytes) × (length bytes ≡ n)
unfolding read_at
read_at-some buf offset n h = (
  take n (drop offset buf),
  rw (leb-true (offset + n) (length buf) h),
  omega (arith, length-take n (drop offset buf), length-drop offset buf),
)

-- So does a write.
pub write_at-some :
    (buf : List ℕ) (offset : ℕ) (bytes : List ℕ)
    → offset + length bytes ≤ length buf
    → (after : List ℕ) × (write_at buf offset bytes ≡ some after)
unfolding write_at
write_at-some buf offset bytes h = (
  take offset buf ++ (bytes ++ drop (offset + length bytes) buf),
  rw (leb-true (offset + length bytes) (length buf) h),
)
