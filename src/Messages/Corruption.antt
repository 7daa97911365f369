-- ===== src/Messages/Corruption.antt =====
-- `deserialize_game_event` on a message that was corrupted on its way.
use sik_screen_worms.Prelude.{
  ℕ, ◌+◌, ◌-◌, ◌≤◌, ◌<◌, ◌≡◌, ◌≢◌, sym, ap, ◌∙◌, arith, some, List, [], ◌∷◌, ◌++◌, length, set,
  get_elem?, All, length-append, append_assoc, split_elem, set-middle, get_elem?-middle, All-append,
  All-append_inv, subst, ◌==◌, if◌then◌else◌, false,
}
use mathlib.Core.Path.{ap₂}
use sik_screen_worms.Memory.{be_bytes, from_be}
use sik_screen_worms.Memory.Laws.{split_at}
use sik_screen_worms.Memory.Numbers.{length-be_bytes, from_be-be_bytes_four}
use sik_screen_worms.Crc32.{crc32}
use sik_screen_worms.Crc32.Bitwise.{crc32-lt}
use sik_screen_worms.Crc32.Detection.{crc32-one_byte}
use sik_screen_worms.Messages.{GameEvent, event_type, refused}
use sik_screen_worms.Messages.Parse.{read_event, deserialize_game_event}
use sik_screen_worms.Messages.Encoding.{
  body_bytes, block_bytes, event_bytes, length-event_bytes, IsEvent, block_bytes-All,
}
use sik_screen_worms.Messages.RoundTrip.{deserialize_game_event-checks}

ne_test : (a b : ℕ) → a ≢ b → (a == b) ≡ false
ne_test a b h = ground arith

-- The same message with one byte between the length and the checksum changed.
module _ (e : GameEvent) (v : IsEvent e) (rest : List ℕ) where
  abbrev sum_field : List ℕ
  sum_field = be_bytes 4 (crc32 (block_bytes e))

  abbrev len_field : List ℕ
  len_field = be_bytes 4 (5 + length (body_bytes e.body))

  abbrev fields : List ℕ
  fields = be_bytes 4 e.event_no ++ ((event_type e.body ∷ []) ++ body_bytes e.body)

  length-fields : length fields ≡ 5 + length (body_bytes e.body)
  length-fields = omega (
    arith,
    length-be_bytes 4 e.event_no,
    length-append (be_bytes 4 e.event_no) ((event_type e.body ∷ []) ++ body_bytes e.body),
  )

  -- Fields of the same length with another checksum are refused.
  other_fields-refused :
      (other : List ℕ) (buffer_len : ℕ)
      → length other ≡ length fields
      → length (event_bytes e) ≤ buffer_len
      → crc32 (len_field ++ other) ≢ crc32 (block_bytes e)
      → deserialize_game_event ((len_field ++ other) ++ (sum_field ++ rest)) buffer_len ≡ refused
  other_fields-refused other buffer_len same h ne =
      let b : List ℕ = body_bytes e.body in
      let size = length-event_bytes e in
      let (n, r1, s1, k1, _) = split_at 4 other (omega (arith, same, length-fields)) in
      let l1 : length other ≡ 4 + length r1 = omega (arith, ap length s1, length-append n r1, k1) in
      let (t, b', s2, k2, _) = split_at 1 r1 (omega (arith, same, length-fields, l1)) in
      let l2 : length b' ≡ length b =
        omega (arith, same, length-fields, l1, ap length s2, length-append t b', k2) in
      let whole : other ≡ n ++ (t ++ b') = s1 ∙ ap (◌++◌ n) s2 in
      let checks =
        deserialize_game_event-checks n t b' sum_field rest buffer_len k1 k2
          (length-be_bytes 4 (crc32 (block_bytes e))) (omega (arith, v.short, size, l2))
          (omega (arith, h, size, l2)) in
      let same_length : be_bytes 4 (5 + length b') ≡ len_field = ap (λ k. be_bytes 4 (5 + k)) l2 in
      let named : (be_bytes 4 (5 + length b') ++ (n ++ (t ++ b'))) ≡ len_field ++ other =
        ap₂ ◌++◌ same_length (sym whole) in
      let value : from_be sum_field ≡ crc32 (block_bytes e) =
        from_be-be_bytes_four (crc32 (block_bytes e))
          (crc32-lt (block_bytes e) (block_bytes-All e v.body_fits)) in
      let differs : (crc32 (be_bytes 4 (5 + length b') ++ (n ++ (t ++ b'))) == from_be sum_field)
          ≡ false =
        ap₂ ◌==◌ (ap crc32 named) value ∙ ne_test _ _ ne in
      ap (λ m. deserialize_game_event (m ++ (sum_field ++ rest)) buffer_len) (sym named)
      ∙ checks
      ∙ ap
          (λ c.
            if c
            then read_event
                ((be_bytes 4 (5 + length b') ++ (n ++ (t ++ b'))) ++ (sum_field ++ rest))
                (5 + length b')
            else refused)
          differs

  len_field-All : All (λ b. b < 256) len_field × All (λ b. b < 256) fields
  len_field-All = All-append_inv _ len_field fields (block_bytes-All e v.body_fits)

  change_at :
      (i y : ℕ)
      → 4 ≤ i
      → i < 9 + length (body_bytes e.body)
      → (front : List ℕ) × (x : ℕ) × (back : List ℕ) × (fields ≡ front ++ (x ∷ back))
        × (set (event_bytes e ++ rest) i y
            ≡ (len_field ++ (front ++ (y ∷ back))) ++ (sum_field ++ rest))
        × (get_elem? (event_bytes e) i ≡ some x)
  unfolding event_bytes
  change_at i y lo hi =
      let (front, x, back, s, k) = split_elem fields (i - 4) (omega (arith, length-fields)) in
      let place : i ≡ length (len_field ++ front) = omega (
        arith,
        length-append len_field front,
        length-be_bytes 4 (5 + length (body_bytes e.body)),
        k,
      ) in
      let flat : event_bytes e ++ rest
          ≡ (len_field ++ front) ++ (x ∷ (back ++ (sum_field ++ rest))) =
        ap (λ f. ((len_field ++ f) ++ sum_field) ++ rest) s ∙ simp append_assoc in
      let flat' : event_bytes e ≡ (len_field ++ front) ++ (x ∷ (back ++ sum_field)) =
        ap (λ f. (len_field ++ f) ++ sum_field) s ∙ simp append_assoc in
      (
        front,
        x,
        back,
        s,
        ap (λ m. set m i y) flat
            ∙ set-middle (len_field ++ front) (back ++ (sum_field ++ rest)) x y i place
            ∙ simp append_assoc,
        ap (λ m. get_elem? m i) flat'
            ∙ get_elem?-middle (len_field ++ front) (back ++ sum_field) x i place,
      )

  -- In a serialized event, changing any one byte of the number, the type or the body makes the
  -- deserializer refuse the message.
  pub deserialize_game_event-one_byte :
      (i y buffer_len : ℕ)
      → 4 ≤ i
      → i < 9 + length (body_bytes e.body)
      → y < 256
      → get_elem? (event_bytes e) i ≢ some y
      → length (event_bytes e) ≤ buffer_len
      → deserialize_game_event (set (event_bytes e ++ rest) i y) buffer_len ≡ refused
  deserialize_game_event-one_byte i y buffer_len lo hi hy changed h =
      let (front, x, back, s, m, g) = change_at i y lo hi in
      let same_length : length (front ++ (y ∷ back)) ≡ length fields =
        omega
          (arith, ap length s, length-append front (x ∷ back), length-append front (y ∷ back)) in
      let (pre, bytes) = len_field-All in
      let (front_bytes, tail_bytes) =
        All-append_inv _ front (x ∷ back) (subst (All (λ b. b < 256)) s bytes) in
      let ne : y ≢ x = λ q. changed (g ∙ ap some (sym q)) in
      let sums : crc32 (len_field ++ (front ++ (y ∷ back))) ≢ crc32 (block_bytes e) = λ q.
        crc32-one_byte (len_field ++ front) back y x (All-append _ len_field front pre front_bytes)
          tail_bytes.1 hy tail_bytes.0 ne
          (ap crc32 (append_assoc len_field front (y ∷ back))
            ∙ q
            ∙ ap (λ f. crc32 (len_field ++ f)) s
            ∙ ap crc32 (sym (append_assoc len_field front (x ∷ back)))) in
      ap (λ b. deserialize_game_event b buffer_len) m
      ∙ other_fields-refused (front ++ (y ∷ back)) buffer_len same_length h sums
