-- ===== src/Game/Names.antt =====
-- `strcasecmp` in the C locale, as `sort_players` uses it. An array that ends without a NUL is
-- read as if a NUL followed.
use sik_screen_worms.Prelude.{
  ℕ, ◌+◌, Bool, false, ◌&&◌, List, [], ◌∷◌, ltb, leb, ◌==◌, if◌then◌else◌,
}

unfoldable pub lower : ℕ → ℕ
lower c = if leb b'A' c && leb c b'Z' then c + 32 else c

-- `strcasecmp(a, b) < 0`.
unfoldable pub name_lt : List ℕ → List ℕ → Bool
name_lt a [] = false
name_lt [] (d ∷ b) = ltb 0 d
name_lt (c ∷ a) (d ∷ b) =
    if lower c == lower d then (if c == 0 then false else name_lt a b) else ltb (lower c) (lower d)
