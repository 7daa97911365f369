-- ===== src/Messages/Parse.antt =====
-- `deserialize_game_event` and the functions that it calls for the body of each event. The buffer
-- is the memory from the pointer to the end of the array that it points into, of which
-- `buffer_len` bytes are the message.
use sik_screen_worms.Prelude.{
  ℕ, zero, suc, ◌+◌, ◌-◌, ◌%◌, ◌^◌, List, [], ◌∷◌, ◌++◌, ltb, ◌==◌, if◌then◌else◌, length, drop,
}
use sik_screen_worms.Memory.{read_at, strlen, from_be}
use sik_screen_worms.Crc32.{crc32}
use sik_screen_worms.Messages.{
  NewGame, Pixel, EventData, new_game, pixel, player_eliminated, game_over, unknown, GameEvent,
  Outcome, ok, refused, fault,
}
use sik_screen_worms.Messages.Client.{from_option}

infixl 5 ◌>>=◌
abbrev pub ◌>>=◌ {ℓ κ} : {A : Type ℓ} {B : Type κ} → Outcome A → (A → Outcome B) → Outcome B
ok a >>= f = f a
refused >>= f = refused
fault >>= f = fault

abbrev pub read : List ℕ → ℕ → ℕ → Outcome (List ℕ)
read buffer offset n = from_option (read_at buffer offset n)

-- `while (names_len > 0)`, with the slots that are left of the 25 of the array `names`. Writing
-- a further name leaves that array. A last name that runs on past `names_len` ends the loop too:
-- there the source's `names_len` is negative, and the difference here is 0.
unfoldable pub deserialize_names : ℕ → List ℕ → ℕ → ℕ → List (List ℕ) → Outcome (List (List ℕ))
deserialize_names slots buffer offset zero names = ok names
deserialize_names zero buffer offset (suc names_len) names = fault
deserialize_names (suc slots) buffer offset (suc names_len) names = do
  len ← from_option (strlen (drop offset buffer))
  name ← read buffer offset (len + 1)
  deserialize_names slots buffer (offset + (len + 1)) (names_len - len) (names ++ (name ∷ []))

-- `data_len - 2 * sizeof(uint32_t)` as an `int32_t`; a negative length runs the loop as 0 does.
abbrev pub names_length : ℕ → ℕ
names_length data_len = let n = (data_len + 2 ^ 32 - 8) % 2 ^ 32 in if ltb n (2 ^ 31) then n else 0

unfoldable pub deserialize_game_event_new_game : List ℕ → ℕ → ℕ → Outcome NewGame
unfolding deserialize_names
deserialize_game_event_new_game buffer offset data_len = do
  x ← read buffer offset 4
  y ← read buffer (offset + 4) 4
  names ← deserialize_names 25 buffer (offset + 8) (names_length data_len) []
  ok (record {
    max_x = from_be x;
    max_y = from_be y;
    players_num = length names;
    players_names = names;
  })

unfoldable pub deserialize_game_event_pixel : List ℕ → ℕ → Outcome Pixel
deserialize_game_event_pixel buffer offset = do
  n ← read buffer offset 1
  x ← read buffer (offset + 1) 4
  y ← read buffer (offset + 5) 4
  ok (record { player_number = from_be n; x = from_be x; y = from_be y })

unfoldable pub deserialize_game_event_player_eliminated : List ℕ → ℕ → Outcome ℕ
deserialize_game_event_player_eliminated buffer offset = do n ← read buffer offset 1; ok (from_be n)

-- The `switch` on the type.
unfoldable pub deserialize_data : List ℕ → ℕ → ℕ → Outcome EventData
unfolding deserialize_game_event_new_game deserialize_game_event_pixel
    deserialize_game_event_player_eliminated
deserialize_data buffer data_len zero =
    deserialize_game_event_new_game buffer 9 data_len >>= λ d. ok (new_game d)
deserialize_data buffer data_len (suc zero) =
    deserialize_game_event_pixel buffer 9 >>= λ d. ok (pixel d)
deserialize_data buffer data_len (suc (suc zero)) =
    deserialize_game_event_player_eliminated buffer 9 >>= λ n. ok (player_eliminated n)
deserialize_data buffer data_len (suc (suc (suc zero))) = ok game_over
deserialize_data buffer data_len (suc (suc (suc (suc t)))) = ok (unknown (suc (suc (suc (suc t)))))

-- What follows the check of the checksum. The sum returned as an `int` is given by its bits, the
-- number modulo 2 ^ 32.
unfoldable pub read_event : List ℕ → ℕ → Outcome (GameEvent × ℕ)
read_event buffer event_len = do
  event_no ← read buffer 4 4
  type ← read buffer 8 1
  body ← deserialize_data buffer ((event_len + 2 ^ 32 - 5) % 2 ^ 32) (from_be type)
  ok (record { event_no = from_be event_no; body = body }, (event_len + 8) % 2 ^ 32)

-- What follows the check of the length: the checksum, then the event.
unfoldable pub checked_event : List ℕ → ℕ → Outcome (GameEvent × ℕ)
checked_event buffer event_len = do
  sum ← read buffer (4 + event_len) 4
  block ← read buffer 0 (4 + event_len)
  if crc32 block == from_be sum then read_event buffer event_len else refused

-- The event read and the length returned. The sum `8 + event_len` is a `uint32_t` and wraps.
unfoldable pub deserialize_game_event : List ℕ → ℕ → Outcome (GameEvent × ℕ)
deserialize_game_event buffer buffer_len =
    if ltb buffer_len 13
    then refused
    else (read buffer 0 4 >>= λ len.
        if ltb buffer_len ((8 + from_be len) % 2 ^ 32)
        then refused
        else checked_event buffer (from_be len))
