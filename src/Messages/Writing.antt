-- ===== src/Messages/Writing.antt =====
-- `serialize_game_event` writes the format of `Encoding`.
use sik_screen_worms.Prelude.{
  ℕ, ◌+◌, ◌-◌, ◌%◌, ◌^◌, ◌≤◌, ◌<◌, ◌≡◌, refl, sym, ap, ◌∙◌, arith, some, List, [], ◌∷◌, ◌++◌,
  length, drop, drop-append, length-append, append_assoc,
}
use sik_screen_worms.Memory.{write_at, read_at, be_bytes}
use sik_screen_worms.Memory.Laws.{write_at_lem, write_field, read_at_lem, split_at}
use sik_screen_worms.Memory.Numbers.{length-be_bytes}
use mathlib.Core.Path.{ap₂}
use sik_screen_worms.Crc32.{crc32}
use sik_screen_worms.Messages.{GameEvent, event_type}
use sik_screen_worms.Messages.Event.{serialize_data, serialize_header, serialize_game_event}
use sik_screen_worms.Messages.Encoding.{
  body_bytes, block_bytes, event_bytes, IsBody, length-event_bytes,
}
use sik_screen_worms.Messages.Bodies.{serialize_data_lem}

serialize_header_lem :
    (e : GameEvent) (h sum back : List ℕ)
    → length h ≡ 9
    → length sum ≡ 4
    → serialize_header
        (h ++ (body_bytes e.body ++ (sum ++ back)))
        (5 + length (body_bytes e.body))
        e
      ≡ some (event_bytes e ++ back, 13 + length (body_bytes e.body))
unfolding serialize_header event_bytes
serialize_header_lem e h sum back lh ls =
    let b : List ℕ = body_bytes e.body in
    let l : List ℕ = be_bytes 4 (5 + length b) in
    let n : List ℕ = be_bytes 4 e.event_no in
    let t : List ℕ = event_type e.body ∷ [] in
    let block : List ℕ = block_bytes e in
    let s : List ℕ = be_bytes 4 (crc32 block) in
    let ll : length l ≡ 4 = length-be_bytes 4 (5 + length b) in
    let ln : length n ≡ 4 = length-be_bytes 4 e.event_no in
    let lb : length block ≡ 9 + length b =
      omega (arith, ll, ln, length-append l (n ++ (t ++ b)), length-append n (t ++ b)) in
    let (h1, r1, s1, k1, _) = split_at 4 h (omega (arith, lh)) in
    let (h2, h3, s2, k2, _) =
      split_at 4 r1 (omega (arith, lh, ap length s1, length-append h1 r1)) in
    let k3 : length h3 ≡ 1 =
      omega (arith, lh, ap length s1, length-append h1 r1, ap length s2, length-append h2 h3) in
    let shape : h ++ (b ++ (sum ++ back)) ≡ h1 ++ (h2 ++ (h3 ++ (b ++ (sum ++ back)))) =
      ap (λ x. x ++ (b ++ (sum ++ back))) (s1 ∙ ap (◌++◌ h1) s2) ∙ simp append_assoc in
    let w1 : write_at (h ++ (b ++ (sum ++ back))) 0 l
        ≡ some (l ++ (h2 ++ (h3 ++ (b ++ (sum ++ back))))) =
      ap (λ x. write_at x 0 l) shape
      ∙ write_at_lem [] h1 (h2 ++ (h3 ++ (b ++ (sum ++ back)))) l 0 refl (omega (arith, k1, ll)) in
    let w2 : write_at (l ++ (h2 ++ (h3 ++ (b ++ (sum ++ back))))) 4 n
        ≡ some (l ++ (n ++ (h3 ++ (b ++ (sum ++ back))))) =
      write_at_lem l h2 (h3 ++ (b ++ (sum ++ back))) n 4 (omega (arith, ll))
        (omega (arith, k2, ln)) in
    let w3 : write_at (l ++ (n ++ (h3 ++ (b ++ (sum ++ back))))) 8 t
        ≡ some (block ++ (sum ++ back)) =
      write_field l n h3 (b ++ (sum ++ back)) t 8 (omega (arith, ll, ln)) k3 ∙ simp append_assoc in
    let rd : read_at (block ++ (sum ++ back)) 0 (5 + length b + 4) ≡ some block =
      read_at_lem [] block (sum ++ back) 0 (5 + length b + 4) refl (omega (arith, lb)) in
    let w4 : write_at (block ++ (sum ++ back)) (4 + (5 + length b)) s
        ≡ some (block ++ (s ++ back)) =
      write_at_lem block sum back s (4 + (5 + length b)) (omega (arith, lb))
        (omega (arith, ls, length-be_bytes 4 (crc32 block))) in
    rw (w1, w2, w3, rd, w4)
      (ap₂ (λ xs m. some (xs, m)) (sym (append_assoc block s back)) (omega arith))

-- Into a buffer with room for it, the serializer writes the encoding of the event, returns its
-- length, leaves the rest of the buffer alone and touches nothing else. The event is one of the
-- four types with fields in range, its names are C strings, and its length fits an `int`.
pub serialize_game_event_lem :
    (buffer : List ℕ) (e : GameEvent)
    → IsBody e.body
    → length (event_bytes e) ≤ length buffer
    → length (event_bytes e) < 2 ^ 31
    → serialize_game_event buffer e
      ≡ some (event_bytes e ++ drop (length (event_bytes e)) buffer, length (event_bytes e))
unfolding serialize_game_event
serialize_game_event_lem buffer e v room fits =
    let b : List ℕ = body_bytes e.body in
    let size = length-event_bytes e in
    let (h, r1, s1, k1, _) = split_at 9 buffer (omega (arith, room, size)) in
    let l1 : length buffer ≡ 9 + length r1 = omega (arith, ap length s1, length-append h r1, k1) in
    let (mid, r2, s2, k2, _) = split_at (length b) r1 (omega (arith, room, size, l1)) in
    let l2 : length r1 ≡ length b + length r2 =
      omega (arith, ap length s2, length-append mid r2, k2) in
    let (sum, back, s3, k3, _) = split_at 4 r2 (omega (arith, room, size, l1, l2)) in
    let shape : buffer ≡ h ++ (mid ++ (sum ++ back)) = s1 ∙ ap (◌++◌ h) (s2 ∙ ap (◌++◌ mid) s3) in
    let total : length (event_bytes e) ≡ length (h ++ (mid ++ sum)) =
      omega (arith, size, k1, k2, k3, length-append h (mid ++ sum), length-append mid sum) in
    let whole : buffer ≡ (h ++ (mid ++ sum)) ++ back = shape ∙ simp append_assoc in
    let rest : drop (length (event_bytes e)) buffer ≡ back =
      ap₂ drop total whole ∙ drop-append (h ++ (mid ++ sum)) back in
    let data_written : serialize_data buffer 9 e.body
        ≡ some (h ++ (b ++ (sum ++ back)), 9 + length b) =
      ap (λ x. serialize_data x 9 e.body) shape
      ∙ serialize_data_lem e.body h mid (sum ++ back) 9 (sym k1) k2 v in
    let event_len : (5 + (9 + length b - 9)) % 2 ^ 32 ≡ 5 + length b = omega (arith, fits, size) in
    rw data_written (
      ap (λ n. serialize_header (h ++ (b ++ (sum ++ back))) n e) event_len
      ∙ serialize_header_lem e h sum back k1 k3
      ∙ ap₂ (λ xs m. some (event_bytes e ++ xs, m)) (sym rest) (sym size))
