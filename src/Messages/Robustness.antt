-- ===== src/Messages/Robustness.antt =====
-- `deserialize_game_event` on input that no serializer wrote: corrupted messages, and lengths that
-- do not fit.
use sik_screen_worms.Prelude.{
  ℕ, ◌+◌, ◌-◌, ◌%◌, ◌^◌, ◌≤◌, ◌<◌, ◌≡◌, refl, sym, ap, ◌∙◌, arith, List, [], ◌++◌, length, ltb,
  ◌==◌, if◌then◌else◌, Bool, true, false,
}
use sik_screen_worms.Memory.{read_at, be_bytes, from_be}
use sik_screen_worms.Memory.Laws.{read_at_lem, read_at_fault}
use sik_screen_worms.Memory.Numbers.{length-be_bytes, from_be-be_bytes_four}
use sik_screen_worms.Crc32.{crc32}
use sik_screen_worms.Messages.{GameEvent, Outcome, ok, refused, fault}
use sik_screen_worms.Messages.Client.{from_option}
use sik_screen_worms.Messages.Parse.{◌>>=◌, read, read_event, checked_event, deserialize_game_event}

read-ok :
    (buffer : List ℕ) (offset n : ℕ) {bytes : List ℕ}
    → read buffer offset n ≡ ok bytes
    → offset + n ≤ length buffer
unfolding read_at
read-ok buffer offset n e = ground arith

>>=-eq-ok :
    (bytes : Outcome (List ℕ)) (next : List ℕ → Outcome (GameEvent × ℕ)) {end : GameEvent × ℕ}
    → (bytes >>= next) ≡ ok end
    → (got : List ℕ) × (bytes ≡ ok got) × (next got ≡ ok end)
>>=-eq-ok refused next e = cc
>>=-eq-ok fault next e = cc
>>=-eq-ok (ok got) next e = (got, refl, e)

read_event-ok :
    (buffer : List ℕ) (event_len : ℕ) (e : GameEvent) (len : ℕ)
    → read_event buffer event_len ≡ ok (e, len)
    → len ≡ (event_len + 8) % 2 ^ 32
unfolding read_event
read_event-ok buffer event_len e len h = ground arith

if-eq-ok :
    (test : Bool) (r : Outcome (GameEvent × ℕ)) {v : GameEvent × ℕ}
    → (if test then r else refused) ≡ ok v
    → r ≡ ok v
if-eq-ok true r h = h
if-eq-ok false r h = cc

else-eq-ok :
    (test : Bool) (r : Outcome (GameEvent × ℕ)) {v : GameEvent × ℕ}
    → (if test then refused else r) ≡ ok v
    → (test ≡ false) × (r ≡ ok v)
else-eq-ok true r h = cc
else-eq-ok false r h = (refl, h)

checked_event-ok :
    (buffer : List ℕ) (event_len : ℕ) (e : GameEvent) (len : ℕ)
    → checked_event buffer event_len ≡ ok (e, len)
    → (len ≡ (event_len + 8) % 2 ^ 32) × (event_len + 8 ≤ length buffer)
unfolding checked_event
checked_event-ok buffer event_len e len h =
    let (sum, e1, h1) = >>=-eq-ok (read buffer (4 + event_len) 4) _ h in
    let (block, e2, h2) = >>=-eq-ok (read buffer 0 (4 + event_len)) _ h1 in
    (
      read_event-ok buffer event_len e len (if-eq-ok (crc32 block == from_be sum) _ h2),
      omega (arith, read-ok buffer (4 + event_len) 4 e1),
    )

-- Where the first four bytes are read, the message is accepted only by `checked_event`.
deserialize_game_event-ok :
    (buffer : List ℕ) (buffer_len : ℕ) (e : GameEvent) (len : ℕ)
    → deserialize_game_event buffer buffer_len ≡ ok (e, len)
    → (event_len : ℕ) × ((8 + event_len) % 2 ^ 32 ≤ buffer_len)
      × (checked_event buffer event_len ≡ ok (e, len))
unfolding deserialize_game_event
deserialize_game_event-ok buffer buffer_len e len h =
    let (_, h1) = else-eq-ok (ltb buffer_len 13) _ h in
    let (bytes, e1, h2) = >>=-eq-ok (read buffer 0 4) _ h1 in
    let (fits, h3) = else-eq-ok (ltb buffer_len ((8 + from_be bytes) % 2 ^ 32)) _ h2 in
    (from_be bytes, ground (arith, fits), h3)

-- On any buffer shorter than 2 ^ 31 bytes, where the `int` returned is not negative, an accepted
-- event takes at least 8 bytes, and no more than the message or the buffer has.
pub deserialize_game_event-consumes :
    (buffer : List ℕ) (buffer_len : ℕ) (e : GameEvent) (len : ℕ)
    → length buffer < 2 ^ 31
    → deserialize_game_event buffer buffer_len ≡ ok (e, len)
    → (8 ≤ len) × (len ≤ buffer_len) × (len ≤ length buffer)
deserialize_game_event-consumes buffer buffer_len e len short h =
    let (event_len, fits, checked) = deserialize_game_event-ok buffer buffer_len e len h in
    let (size, inside) = checked_event-ok buffer event_len e len checked in omega arith

-- A length field of 2 ^ 32 - 8 or more passes the check of the length, since the sum with 8 wraps,
-- and the deserializer reads outside the buffer: no message of 13 bytes or more is refused for it.
pub deserialize_game_event-length_wraps :
    (buffer tail : List ℕ) (event_len buffer_len : ℕ)
    → buffer ≡ be_bytes 4 event_len ++ tail
    → 2 ^ 32 - 8 ≤ event_len
    → event_len < 2 ^ 32
    → length buffer < 2 ^ 32 - 8
    → 13 ≤ buffer_len
    → deserialize_game_event buffer buffer_len ≡ fault
unfolding deserialize_game_event
deserialize_game_event-length_wraps buffer tail event_len buffer_len e lo hi short long =
    let l : List ℕ = be_bytes 4 event_len in
    let r0 : read buffer 0 4 ≡ ok l = ap from_option (
      ap (λ m. read_at m 0 4) e
      ∙ read_at_lem [] l tail 0 4 refl (sym (length-be_bytes 4 event_len))) in
    let enough : ltb buffer_len 13 ≡ false = ground (arith, long) in
    let wraps : ltb buffer_len ((8 + event_len) % 2 ^ 32) ≡ false = ground (arith, lo, hi, long) in
    let outside : read buffer (4 + event_len) 4 ≡ fault =
      ap from_option (read_at_fault buffer (4 + event_len) 4 (omega arith)) in
    rw (enough, r0, from_be-be_bytes_four event_len hi, wraps) (unfold checked_event in rw outside)
