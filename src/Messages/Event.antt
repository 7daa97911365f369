-- ===== src/Messages/Event.antt =====
-- `serialize_game_event` and the functions that it calls for the body of each event.
use sik_screen_worms.Prelude.{
  ℕ, zero, suc, ◌+◌, ◌-◌, ◌%◌, ◌^◌, Option, none, some, List, [], ◌∷◌, get_elem?,
}
use sik_screen_worms.Memory.{◌>>=◌, write_at, read_at, strlen, be_bytes}
use sik_screen_worms.Crc32.{crc32}
use sik_screen_worms.Messages.{
  NewGame, Pixel, EventData, new_game, pixel, player_eliminated, game_over, unknown, GameEvent,
  event_type,
}

-- The loop over the names, with `left` of them to go from index `i` on. Its result is the buffer
-- and the offset behind the last name.
unfoldable pub serialize_names : ℕ → ℕ → List (List ℕ) → List ℕ → ℕ → Option (List ℕ × ℕ)
serialize_names zero i names buffer offset = some (buffer, offset)
serialize_names (suc left) i names buffer offset = do
  name ← get_elem? names i
  len ← strlen name
  bytes ← read_at name 0 (len + 1)
  next ← write_at buffer offset bytes
  serialize_names left (i + 1) names next (offset + (len + 1))

-- The serializers of bodies: the buffer, and the offset behind the body, which begins at `offset`.
unfoldable pub serialize_game_event_new_game : List ℕ → ℕ → NewGame → Option (List ℕ × ℕ)
unfolding serialize_names
serialize_game_event_new_game buffer offset d = do
  b1 ← write_at buffer offset (be_bytes 4 d.max_x)
  b2 ← write_at b1 (offset + 4) (be_bytes 4 d.max_y)
  serialize_names d.players_num 0 d.players_names b2 (offset + 8)

unfoldable pub serialize_game_event_pixel : List ℕ → ℕ → Pixel → Option (List ℕ × ℕ)
serialize_game_event_pixel buffer offset d = do
  b1 ← write_at buffer offset (d.player_number ∷ [])
  b2 ← write_at b1 (offset + 1) (be_bytes 4 d.x)
  b3 ← write_at b2 (offset + 5) (be_bytes 4 d.y)
  some (b3, offset + 9)

unfoldable pub serialize_game_event_player_eliminated : List ℕ → ℕ → ℕ → Option (List ℕ × ℕ)
serialize_game_event_player_eliminated buffer offset player_number = do
  b1 ← write_at buffer offset (player_number ∷ [])
  some (b1, offset + 1)

-- The `switch` on the type. An unknown type leaves `event_data_len` unset: a fault.
unfoldable pub serialize_data : List ℕ → ℕ → EventData → Option (List ℕ × ℕ)
unfolding serialize_game_event_new_game serialize_game_event_pixel
    serialize_game_event_player_eliminated
serialize_data buffer offset (new_game d) = serialize_game_event_new_game buffer offset d
serialize_data buffer offset (pixel d) = serialize_game_event_pixel buffer offset d
serialize_data buffer offset (player_eliminated n) =
    serialize_game_event_player_eliminated buffer offset n
serialize_data buffer offset game_over = some (buffer, offset)
serialize_data buffer offset (unknown t) = none

-- What follows the body: the header before it, then the checksum of both behind it.
unfoldable pub serialize_header : List ℕ → ℕ → GameEvent → Option (List ℕ × ℕ)
serialize_header buffer event_len event = do
  b1 ← write_at buffer 0 (be_bytes 4 event_len)
  b2 ← write_at b1 4 (be_bytes 4 event.event_no)
  b3 ← write_at b2 8 (event_type event.body ∷ [])
  block ← read_at b3 0 (event_len + 4)
  b4 ← write_at b3 (4 + event_len) (be_bytes 4 (crc32 block))
  some (b4, event_len + 8)

-- The buffer after the call and the length returned. `event_len` is a `uint32_t`.
unfoldable pub serialize_game_event : List ℕ → GameEvent → Option (List ℕ × ℕ)
unfolding serialize_data serialize_header
serialize_game_event buffer event = do
  (b1, end) ← serialize_data buffer 9 event.body
  serialize_header b1 ((5 + (end - 9)) % 2 ^ 32) event
