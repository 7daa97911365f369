-- ===== src/Messages/RoundTrip.antt =====
-- `deserialize_game_event` reads back what `serialize_game_event` writes.
use sik_screen_worms.Prelude.{
  ℕ, ◌+◌, ◌-◌, ◌%◌, ◌^◌, ◌≤◌, ◌<◌, ◌≡◌, refl, sym, ap, ◌∙◌, arith, some, List, [], ◌∷◌, ◌++◌,
  length, drop, length-append, append_assoc, ltb, ◌==◌, if◌then◌else◌, true, false,
}
use sik_screen_worms.Memory.{read_at, be_bytes, from_be}
use sik_screen_worms.Memory.Laws.{read_at_lem}
use sik_screen_worms.Memory.Numbers.{length-be_bytes, from_be-be_bytes_four}
use sik_screen_worms.Crc32.{crc32}
use sik_screen_worms.Crc32.Bitwise.{crc32-lt}
use sik_screen_worms.Messages.{GameEvent, event_type, ok, refused}
use sik_screen_worms.Messages.Client.{from_option}
use sik_screen_worms.Messages.Parse.{
  read, deserialize_data, read_event, checked_event, deserialize_game_event,
}
use sik_screen_worms.Messages.Encoding.{
  body_bytes, block_bytes, event_bytes, length-event_bytes, received_body, received, IsEvent,
  block_bytes-All,
}
use sik_screen_worms.Messages.ReadBack.{read_field, deserialize_data_lem, from_be-one}
use sik_screen_worms.Messages.Event.{serialize_game_event}
use sik_screen_worms.Messages.Writing.{serialize_game_event_lem}

test_refl : (a : ℕ) → (a == a) ≡ true
test_refl a = ground arith

-- The fields of a message with a correct length, whatever they hold.
module _ (n t b sum rest : List ℕ) (buffer_len : ℕ) (ln : length n ≡ 4) (lt : length t ≡ 1)
    (ls : length sum ≡ 4) (short : length b < 2 ^ 31) (whole : 13 + length b ≤ buffer_len) where
  abbrev pub len_field : List ℕ
  len_field = be_bytes 4 (5 + length b)

  abbrev pub block : List ℕ
  block = len_field ++ (n ++ (t ++ b))

  abbrev pub message : List ℕ
  message = block ++ (sum ++ rest)

  length-block : length block ≡ 9 + length b
  length-block = omega (
    arith,
    length-be_bytes 4 (5 + length b),
    length-append len_field (n ++ (t ++ b)),
    length-append n (t ++ b),
    length-append t b,
    ln,
    lt,
  )

  fields : message ≡ len_field ++ (n ++ (t ++ (b ++ (sum ++ rest))))
  fields = simp append_assoc

  -- The length is read and accepted, and the checksum decides.
  pub deserialize_game_event-checks :
      deserialize_game_event message buffer_len
      ≡ (if crc32 block == from_be sum then read_event message (5 + length b) else refused)
  unfolding deserialize_game_event checked_event
  deserialize_game_event-checks =
      let l4 : length len_field ≡ 4 = length-be_bytes 4 (5 + length b) in
      let long : ltb buffer_len 13 ≡ false = ground (arith, whole) in
      let r0 : read message 0 4 ≡ ok len_field = ap from_option (
        ap (λ m. read_at m 0 4) fields
        ∙ read_at_lem [] len_field (n ++ (t ++ (b ++ (sum ++ rest)))) 0 4 refl (sym l4)) in
      let value : from_be len_field ≡ 5 + length b =
        from_be-be_bytes_four (5 + length b) (omega (arith, short)) in
      let fits : ltb buffer_len ((8 + (5 + length b)) % 2 ^ 32) ≡ false =
        ground (arith, whole, short) in
      let r1 : read message (4 + (5 + length b)) 4 ≡ ok sum = ap from_option (
        read_at_lem block sum rest (4 + (5 + length b)) 4 (omega (arith, length-block)) (sym ls)) in
      let r2 : read message 0 (4 + (5 + length b)) ≡ ok block = ap from_option (
        read_at_lem [] block (sum ++ rest) 0 (4 + (5 + length b)) refl
          (omega (arith, length-block))) in
      rw (long, r0, value, fits, r1, r2)

module _ (e : GameEvent) (v : IsEvent e) (rest : List ℕ) where
  abbrev sum_field : List ℕ
  sum_field = be_bytes 4 (crc32 (block_bytes e))

  shape : event_bytes e ++ rest ≡ block_bytes e ++ (sum_field ++ rest)
  unfolding event_bytes
  shape = append_assoc (block_bytes e) sum_field rest

  read_event-event_bytes :
      read_event (event_bytes e ++ rest) (5 + length (body_bytes e.body))
      ≡ ok (received e, 13 + length (body_bytes e.body))
  unfolding read_event
  read_event-event_bytes =
      let b : List ℕ = body_bytes e.body in
      let l : List ℕ = be_bytes 4 (5 + length b) in
      let n : List ℕ = be_bytes 4 e.event_no in
      let t : List ℕ = event_type e.body ∷ [] in
      let l4 : length l ≡ 4 = length-be_bytes 4 (5 + length b) in
      let n4 : length n ≡ 4 = length-be_bytes 4 e.event_no in
      let flat : event_bytes e ++ rest ≡ l ++ (n ++ (t ++ (b ++ (sum_field ++ rest)))) =
        shape ∙ simp append_assoc in
      let r1 : read (l ++ (n ++ (t ++ (b ++ (sum_field ++ rest))))) 4 4 ≡ ok n =
        ap from_option (read_at_lem l n (t ++ (b ++ (sum_field ++ rest))) 4 4 (sym l4) (sym n4)) in
      let r2 : read (l ++ (n ++ (t ++ (b ++ (sum_field ++ rest))))) 8 1 ≡ ok t =
        read_field l n t (b ++ (sum_field ++ rest)) 8 1 (omega (arith, l4, n4)) refl in
      let data_len : (5 + length b + 2 ^ 32 - 5) % 2 ^ 32 ≡ length b =
        omega (arith, v.short, length-event_bytes e) in
      let header : l ++ (n ++ (t ++ (b ++ (sum_field ++ rest))))
          ≡ (l ++ (n ++ t)) ++ (b ++ (sum_field ++ rest)) =
        simp append_assoc in
      let d : deserialize_data (l ++ (n ++ (t ++ (b ++ (sum_field ++ rest))))) (length b)
            (event_type e.body)
          ≡ ok (received_body e.body) =
        ap (λ m. deserialize_data m (length b) (event_type e.body)) header
        ∙ deserialize_data_lem e.body (l ++ (n ++ t)) (sum_field ++ rest)
            (omega (arith, l4, n4, length-append l (n ++ t), length-append n t)) v.room
            (omega (arith, v.short, length-event_bytes e)) v.body_fits in
      rw
        (
          flat,
          r1,
          r2,
          data_len,
          from_be-one (event_type e.body),
          d,
          from_be-be_bytes_four e.event_no v.numbered,
        )
        (ap (λ k. ok (received e, k)) (omega (arith, v.short, length-event_bytes e)))

  pub deserialize_game_event-event_bytes :
      (buffer_len : ℕ)
      → length (event_bytes e) ≤ buffer_len
      → deserialize_game_event (event_bytes e ++ rest) buffer_len
        ≡ ok (received e, length (event_bytes e))
  deserialize_game_event-event_bytes buffer_len h =
      let b : List ℕ = body_bytes e.body in
      let size = length-event_bytes e in
      let checks =
        deserialize_game_event-checks (be_bytes 4 e.event_no) (event_type e.body ∷ []) b sum_field
          rest buffer_len (length-be_bytes 4 e.event_no) refl
          (length-be_bytes 4 (crc32 (block_bytes e))) (omega (arith, v.short, size))
          (omega (arith, h, size)) in
      let same : (crc32 (block_bytes e) == from_be sum_field) ≡ true =
        ap (λ s. crc32 (block_bytes e) == s)
          (from_be-be_bytes_four (crc32 (block_bytes e))
            (crc32-lt (block_bytes e) (block_bytes-All e v.body_fits)))
        ∙ test_refl (crc32 (block_bytes e)) in
      ap (λ m. deserialize_game_event m buffer_len) shape
      ∙ checks
      ∙ ap
          (λ c.
            if c then read_event (block_bytes e ++ (sum_field ++ rest)) (5 + length b) else refused)
          same
      ∙ ap (λ m. read_event m (5 + length b)) (sym shape)
      ∙ read_event-event_bytes
      ∙ ap (λ k. ok (received e, k)) (sym size)

-- What `serialize_game_event` writes into a buffer with room, `deserialize_game_event` reads back
-- from a message of at least the length returned: the same number and type, the same fields, each
-- name up to its NUL, and the same length.
pub deserialize-serialize_game_event :
    (buffer : List ℕ) (e : GameEvent) (buffer_len : ℕ)
    → IsEvent e
    → length (event_bytes e) ≤ length buffer
    → length (event_bytes e) ≤ buffer_len
    → (written : List ℕ) × (len : ℕ) × (serialize_game_event buffer e ≡ some (written, len))
      × (len ≤ buffer_len)
      × (deserialize_game_event written buffer_len ≡ ok (received e, len))
deserialize-serialize_game_event buffer e buffer_len v room h = (
  event_bytes e ++ drop (length (event_bytes e)) buffer,
  length (event_bytes e),
  serialize_game_event_lem buffer e v.body_fits room v.short,
  h,
  deserialize_game_event-event_bytes e v (drop (length (event_bytes e)) buffer) buffer_len h,
)
