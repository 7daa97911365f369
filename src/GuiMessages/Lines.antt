-- ===== src/GuiMessages/Lines.antt =====
-- How much of the buffer the parser of the key messages takes.
use sik_screen_worms.Prelude.{
  ℕ, zero, suc, ◌≤◌, ◌<◌, ◌≡◌, arith, some, List, [], ◌∷◌, inl, inr, Option-cases,
}
use sik_screen_worms.GuiMessages.{line_length, deserialize_gui_client_message}

line_length-le :
    (left : ℕ) (buffer : List ℕ) (n : ℕ) → line_length left buffer ≡ some n → (0 < n) × (n ≤ left)
unfolding line_length
line_length-le zero buffer n e = cc
line_length-le (suc left) [] n e = cc
line_length-le (suc left) (c ∷ cs) n e = elim (Option-cases (line_length left cs)) [
  | inl k ↦ ground (arith, e, k)
  | inr (m, k) ↦ let (_, h) = line_length-le left cs m k in ground (arith, e, k, h)
]

-- The parser takes no more than the bytes received, and at least one of them if there is any, so a
-- loop that parses on behind each message comes to an end.
pub deserialize_gui_client_message-consumes :
    (buffer : List ℕ) (buffer_len : ℕ)
    → 0 < buffer_len
    → (0 < (deserialize_gui_client_message buffer buffer_len).1)
      × ((deserialize_gui_client_message buffer buffer_len).1 ≤ buffer_len)
unfolding deserialize_gui_client_message
deserialize_gui_client_message-consumes buffer buffer_len h =
    elim (Option-cases (line_length buffer_len buffer)) [
      | inl e ↦ (ground (arith, e, h), ground (arith, e))
      | inr (n, e) ↦
          let (lo, hi) = line_length-le buffer_len buffer n e in
          (ground (arith, e, lo), ground (arith, e, hi))
    ]
