-- ===== src/Messages/ClientRoundTrip.antt =====
-- `deserialize_client_message`: what it reads back, and on which input.
use sik_screen_worms.Prelude.{
  ℕ, suc, ◌+◌, ◌-◌, ◌≤◌, ◌<◌, ◌≡◌, refl, sym, ap, ◌∙◌, arith, Option, some, List, [], ◌∷◌, ◌++◌,
  length, drop, replicate, length-append, append_assoc, append_assoc_three, append_assoc_four, ltb,
  ◌==◌, ◌||◌, if◌then◌else◌, false, ◌⊎◌, inl, inr, Bool-cases,
}
use sik_screen_worms.Memory.{◌>>=◌, write_at, read_at, be_bytes, from_be}
use sik_screen_worms.Memory.Laws.{read_at_lem, read_at-some, write_at-some}
use sik_screen_worms.Memory.Numbers.{length-be_bytes, from_be-be_bytes_four, from_be-be_bytes_eight}
use sik_screen_worms.Messages.{ClientMessage, ok, refused}
use sik_screen_worms.Messages.Client.{
  serialize_client_message, read_client_message, from_option, deserialize_client_message,
}
use sik_screen_worms.Messages.ClientLaws.{
  IsMessage, client_bytes, serialize_client_message_lem, name_stored,
}

-- The part that stores the name, on a name that is found in the buffer.
abbrev stored_name : List ℕ → ℕ → Option (List ℕ)
stored_name buffer name_len =
    if name_len == 0
    then some (replicate 21 0)
    else read_at buffer 13 name_len >>= λ name. write_at (replicate 21 0) 0 name

suc-ne-zero : (n : ℕ) → (suc n == 0) ≡ false
suc-ne-zero n = ground arith

stored_name_lem :
    (buffer name : List ℕ)
    → length name ≤ 20
    → read_at buffer 13 (length name) ≡ some name
    → stored_name buffer (length name) ≡ some (name ++ replicate (21 - length name) 0)
stored_name_lem buffer [] h e = refl
stored_name_lem buffer (c ∷ name) h e = rw (suc-ne-zero (length name), e) (name_stored (c ∷ name) h)

message_path :
    (m : ClientMessage) {s d n : ℕ} {name : List ℕ}
    → s ≡ m.session_id
    → d ≡ m.turn_direction
    → n ≡ m.next_expected_event_no
    → name ≡ m.player_name
    → record { session_id = s; turn_direction = d; next_expected_event_no = n; player_name = name }
      ≡ m
message_path m e f g h = λ i. record {
  session_id = e i;
  turn_direction = f i;
  next_expected_event_no = g i;
  player_name = h i;
}

from_be-one : (b : ℕ) → from_be (b ∷ []) ≡ b
unfolding from_be
from_be-one b = omega arith

module _ (m : ClientMessage) (name : List ℕ) (v : IsMessage m name) (rest : List ℕ) where
  abbrev session : List ℕ
  session = be_bytes 8 m.session_id

  abbrev direction : List ℕ
  direction = m.turn_direction ∷ []

  abbrev event_no : List ℕ
  event_no = be_bytes 4 m.next_expected_event_no

  read_client_message-client_bytes :
      read_client_message (client_bytes m name ++ rest) (13 + length name)
      ≡ some (m, 13 + length name)
  unfolding read_client_message
  read_client_message-client_bytes =
      let l8 : length session ≡ 8 = length-be_bytes 8 m.session_id in
      let l4 : length event_no ≡ 4 = length-be_bytes 4 m.next_expected_event_no in
      let shape : client_bytes m name ++ rest
          ≡ session ++ (direction ++ (event_no ++ (name ++ rest))) =
        append_assoc_four session direction event_no name rest in
      let shape3 : session ++ (direction ++ (event_no ++ (name ++ rest)))
          ≡ (session ++ (direction ++ event_no)) ++ (name ++ rest) =
        sym (append_assoc_three session direction event_no (name ++ rest)) in
      let r1 : read_at (client_bytes m name ++ rest) 0 8 ≡ some session =
        ap (λ t. read_at t 0 8) shape
        ∙ read_at_lem [] session (direction ++ (event_no ++ (name ++ rest))) 0 8 refl (sym l8) in
      let r2 : read_at (client_bytes m name ++ rest) 8 1 ≡ some direction =
        ap (λ t. read_at t 8 1) shape
        ∙ read_at_lem session direction (event_no ++ (name ++ rest)) 8 1 (sym l8) refl in
      let r3 : read_at (client_bytes m name ++ rest) 9 4 ≡ some event_no =
        ap (λ t. read_at t 9 4)
          (shape ∙ sym (append_assoc session direction (event_no ++ (name ++ rest))))
        ∙ read_at_lem (session ++ direction) event_no (name ++ rest) 9 4
            (omega (arith, l8, length-append session direction)) (sym l4) in
      let r4 : read_at (client_bytes m name ++ rest) 13 (length name) ≡ some name =
        ap (λ t. read_at t 13 (length name)) (shape ∙ shape3)
        ∙ read_at_lem (session ++ (direction ++ event_no)) name rest 13 (length name)
            (omega (arith, l8, l4, length-append session (direction ++ event_no))) refl in
      let size : 13 + length name - 13 ≡ length name = omega arith in
      let stored = stored_name_lem (client_bytes m name ++ rest) name v.short r4 in
      rw (r1, r2, r3, size, stored)
        (ap (λ (t : ClientMessage). some (t, 13 + length name))
          (message_path m (from_be-be_bytes_eight m.session_id v.session)
            (from_be-one m.turn_direction)
            (from_be-be_bytes_four m.next_expected_event_no v.event_no) (sym v.padded)))

-- The server reads back every field of the message that a client serialized into a buffer with
-- room: session, direction, event number and name.
pub deserialize-serialize_client_message :
    (m : ClientMessage) (name buffer : List ℕ)
    → IsMessage m name
    → 13 + length name ≤ length buffer
    → (written : List ℕ) × (serialize_client_message buffer m ≡ some (written, 13 + length name))
      × (deserialize_client_message written (13 + length name) ≡ ok (m, 13 + length name))
unfolding deserialize_client_message
deserialize-serialize_client_message m name buffer v room =
    let in_range : (ltb (13 + length name) 13 || ltb 33 (13 + length name)) ≡ false =
      ground (arith, v.short) in
    (
      client_bytes m name ++ drop (13 + length name) buffer,
      serialize_client_message_lem m name v buffer room,
      rw in_range (
          ap from_option
            (read_client_message-client_bytes m name v (drop (13 + length name) buffer))),
    )

stored_name-some :
    (buffer : List ℕ) (name_len : ℕ)
    → name_len ≤ 20
    → 13 + name_len ≤ length buffer
    → (name : List ℕ) × (stored_name buffer name_len ≡ some name)
stored_name-some buffer name_len h room = elim (Bool-cases (name_len == 0)) [
  | inl e ↦ (replicate 21 0, rw e)
  | inr e ↦
      let (name, r, k) = read_at-some buffer 13 name_len room in
      let (after, w) = write_at-some (replicate 21 0) 0 name (omega (arith, k)) in
      (after, rw (e, r) w)
]

-- On any message that lies in the buffer, `deserialize_client_message` reads nothing outside it:
-- it accepts the message exactly if it has 13 to 33 bytes, and otherwise refuses it.
pub deserialize_client_message_total :
    (buffer : List ℕ) (buffer_len : ℕ)
    → buffer_len ≤ length buffer
    → ((13 ≤ buffer_len)
        × (buffer_len ≤ 33)
        × ((m : ClientMessage) × (deserialize_client_message buffer buffer_len
              ≡ ok (m, buffer_len))))
      ⊎ (((buffer_len < 13) ⊎ (33 < buffer_len))
          × (deserialize_client_message buffer buffer_len ≡ refused))
unfolding deserialize_client_message read_client_message
deserialize_client_message_total buffer buffer_len h =
    elim (Bool-cases (ltb buffer_len 13 || ltb 33 buffer_len)) [
      | inl e ↦ inr (ground arith, rw e)
      | inr e ↦
          let lo : 13 ≤ buffer_len = ground arith in
          let hi : buffer_len ≤ 33 = ground arith in
          let (session, r1, _) = read_at-some buffer 0 8 (omega arith) in
          let (direction, r2, _) = read_at-some buffer 8 1 (omega arith) in
          let (event_no, r3, _) = read_at-some buffer 9 4 (omega arith) in
          let (name, r4) = stored_name-some buffer (buffer_len - 13) (omega arith) (omega arith) in
          inl (
            lo,
            hi,
            (
              record {
                session_id = from_be session;
                turn_direction = from_be direction;
                next_expected_event_no = from_be event_no;
                player_name = name;
              },
              rw (e, r1, r2, r3, r4),
            ),
          )
    ]
