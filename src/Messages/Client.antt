-- ===== src/Messages/Client.antt =====
-- `serialize_client_message` and `deserialize_client_message`.
use sik_screen_worms.Prelude.{
  ℕ, ◌+◌, ◌-◌, ◌||◌, Option, none, some, List, [], ◌∷◌, ltb, ◌==◌, if◌then◌else◌, replicate,
}
use sik_screen_worms.Memory.{◌>>=◌, write_at, read_at, strlen, be_bytes, from_be}
use sik_screen_worms.Messages.{ClientMessage, Outcome, ok, refused, fault}

-- The buffer after the call and the length returned; `none` is an access outside an object.
unfoldable pub serialize_client_message : List ℕ → ClientMessage → Option (List ℕ × ℕ)
serialize_client_message buffer m = do
  b1 ← write_at buffer 0 (be_bytes 8 m.session_id)
  b2 ← write_at b1 8 (m.turn_direction ∷ [])
  b3 ← write_at b2 9 (be_bytes 4 m.next_expected_event_no)
  name_len ← strlen m.player_name
  b4 ←
      if name_len == 0
      then some b3
      else read_at m.player_name 0 name_len >>= λ name. write_at b3 13 name
  some (b4, 13 + name_len)

-- The part of `deserialize_client_message` behind the check of the length.
unfoldable pub read_client_message : List ℕ → ℕ → Option (ClientMessage × ℕ)
read_client_message buffer buffer_len = do
  session ← read_at buffer 0 8
  direction ← read_at buffer 8 1
  event_no ← read_at buffer 9 4
  let name_len = buffer_len - 13
  name ←
      if name_len == 0
      then some (replicate 21 0)
      else read_at buffer 13 name_len >>= λ name. write_at (replicate 21 0) 0 name
  some (
    record {
      session_id = from_be session;
      turn_direction = from_be direction;
      next_expected_event_no = from_be event_no;
      player_name = name;
    },
    buffer_len,
  )

abbrev pub from_option {ℓ} : {A : Type ℓ} → Option A → Outcome A
from_option none = fault
from_option (some a) = ok a

-- The message read and the length returned.
unfoldable pub deserialize_client_message : List ℕ → ℕ → Outcome (ClientMessage × ℕ)
unfolding read_client_message
deserialize_client_message buffer buffer_len =
    if ltb buffer_len 13 || ltb 33 buffer_len
    then refused
    else from_option (read_client_message buffer buffer_len)
