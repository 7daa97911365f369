-- ===== src/GuiMessages.antt =====
-- client/gui_messages.c: the lines of text that the client and the graphical interface exchange.
-- `sprintf` is written out for the formats that are used; an `uint32_t` printed as `%d` is read as
-- an `int`. `none` is an access outside an array.
pub mod Lines
pub mod Texts
use sik_screen_worms.Prelude.{
  ℕ, zero, suc, ◌+◌, ◌-◌, ◌/◌, ◌%◌, ◌^◌, Bool, true, false, ◌&&◌, Option, none, some, List, [], ◌∷◌,
  ◌++◌, ltb, ◌==◌, if◌then◌else◌, length, take, get_elem?,
}
use sik_screen_worms.Memory.{◌>>=◌, write_at, read_at, strlen}
use sik_screen_worms.Messages.{
  NewGame, Pixel, EventData, new_game, pixel, player_eliminated, game_over, unknown,
}

-- The decimal digits of a number, on fuel: a number below 2 ^ 32 has at most ten.
unfoldable pub digits : ℕ → ℕ → List ℕ
digits zero n = []
digits (suc fuel) n =
    let front = digits fuel (n / 10) in
    if ltb n 10 then (48 + n) ∷ [] else front ++ ((48 + n % 10) ∷ [])

-- `%d` of a `uint32_t`.
unfoldable pub print_int : ℕ → List ℕ
unfolding digits
print_int n = if ltb n (2 ^ 31) then digits 10 n else b'-' ∷ digits 10 (2 ^ 32 - n)

-- `%s`: the characters before the NUL.
unfoldable pub print_string : List ℕ → Option (List ℕ)
print_string s = strlen s >>= λ len. read_at s 0 len

-- The text of a name of the array, by its index.
unfoldable pub print_name : List (List ℕ) → ℕ → Option (List ℕ)
unfolding print_string
print_name names i = get_elem? names i >>= print_string

-- The loop over the names, with `left` of them to go from index `i` on.
unfoldable pub print_names : ℕ → ℕ → List (List ℕ) → Option (List ℕ)
unfolding print_name
print_names zero i names = some []
print_names (suc left) i names = do
  name ← print_name names i
  rest ← print_names left (i + 1) names
  some (b' ' ∷ (name ++ rest))

abbrev pub text_new_game : List ℕ
text_new_game = b'N' ∷ b'E' ∷ b'W' ∷ b'_' ∷ b'G' ∷ b'A' ∷ b'M' ∷ b'E' ∷ []

abbrev pub text_pixel : List ℕ
text_pixel = b'P' ∷ b'I' ∷ b'X' ∷ b'E' ∷ b'L' ∷ b' ' ∷ []

abbrev pub text_player_eliminated : List ℕ
text_player_eliminated =
    b'P' ∷ b'L' ∷ b'A' ∷ b'Y' ∷ b'E' ∷ b'R' ∷ b'_' ∷ b'E' ∷ b'L' ∷ b'I' ∷ b'M' ∷ b'I' ∷ b'N' ∷ b'A'
    ∷ b'T' ∷ b'E' ∷ b'D' ∷ b' ' ∷ []

-- The text of each message, which the calls of `sprintf` put together.
unfoldable pub serialize_client_gui_message_new_game : NewGame → List (List ℕ) → Option (List ℕ)
unfolding print_int print_names
serialize_client_gui_message_new_game d names = do
  list ← print_names d.players_num 0 names
  some (
      text_new_game
      ++ (b' ' ∷ (print_int d.max_x ++ (b' ' ∷ (print_int d.max_y ++ (list ++ (10 ∷ [])))))))

unfoldable pub serialize_client_gui_message_pixel : Pixel → List (List ℕ) → Option (List ℕ)
unfolding print_int print_name
serialize_client_gui_message_pixel d names = do
  name ← print_name names d.player_number
  some (text_pixel ++ (print_int d.x ++ (b' ' ∷ (print_int d.y ++ (b' ' ∷ (name ++ (10 ∷ [])))))))

unfoldable pub serialize_client_gui_message_player_eliminated : ℕ → List (List ℕ) → Option (List ℕ)
unfolding print_name
serialize_client_gui_message_player_eliminated player_number names = do
  name ← print_name names player_number
  some (text_player_eliminated ++ (name ++ (10 ∷ [])))

unfoldable pub gui_text : EventData → List (List ℕ) → Option (List ℕ)
unfolding serialize_client_gui_message_new_game serialize_client_gui_message_pixel
    serialize_client_gui_message_player_eliminated
gui_text (new_game d) names = serialize_client_gui_message_new_game d names
gui_text (pixel d) names = serialize_client_gui_message_pixel d names
gui_text (player_eliminated n) names = serialize_client_gui_message_player_eliminated n names
gui_text game_over names = some []
gui_text (unknown t) names = some []

-- The buffer after the call and the length returned; the text is written with a NUL behind it.
unfoldable pub serialize_client_gui_message :
    List ℕ → EventData → List (List ℕ) → Option (List ℕ × ℕ)
unfolding gui_text
serialize_client_gui_message buffer event names = gui_text event names >>= λ text.
    if length text == 0
    then some (buffer, 0)
    else (write_at buffer 0 (text ++ (0 ∷ [])) >>= λ after. some (after, length text))

-- GA_ERROR and the actions of the keys.
pub data GuiAction : Type 0 where
  error : GuiAction
  left_key_down : GuiAction
  left_key_up : GuiAction
  right_key_down : GuiAction
  right_key_up : GuiAction

abbrev pub text_left : List ℕ
text_left = b'L' ∷ b'E' ∷ b'F' ∷ b'T' ∷ []

abbrev pub text_right : List ℕ
text_right = b'R' ∷ b'I' ∷ b'G' ∷ b'H' ∷ b'T' ∷ []

abbrev pub text_key_down : List ℕ
text_key_down = b'_' ∷ b'K' ∷ b'E' ∷ b'Y' ∷ b'_' ∷ b'D' ∷ b'O' ∷ b'W' ∷ b'N' ∷ 10 ∷ []

abbrev pub text_key_up : List ℕ
text_key_up = b'_' ∷ b'K' ∷ b'E' ∷ b'Y' ∷ b'_' ∷ b'U' ∷ b'P' ∷ 10 ∷ []

abbrev pub same_text : List ℕ → List ℕ → Bool
same_text [] [] = true
same_text [] (d ∷ ds) = false
same_text (c ∷ cs) [] = false
same_text (c ∷ cs) (d ∷ ds) = c == d && same_text cs ds

-- `memchr(buffer, '\n', buffer_len)`: the length of the line with its end, if there is one.
unfoldable pub line_length : ℕ → List ℕ → Option ℕ
line_length zero buffer = none
line_length (suc left) [] = none
line_length (suc left) (c ∷ cs) =
    let rest = line_length left cs >>= λ n. some (n + 1) in if c == 10 then some 1 else rest

-- A line against the texts: its length and its characters.
unfoldable pub action_of : List ℕ → GuiAction
action_of line =
    if same_text line (text_left ++ text_key_down)
    then left_key_down
    else if same_text line (text_left ++ text_key_up)
    then left_key_up
    else if same_text line (text_right ++ text_key_down)
    then right_key_down
    else if same_text line (text_right ++ text_key_up)
    then right_key_up
    else error

-- The action and the length returned.
unfoldable pub deserialize_gui_client_message : List ℕ → ℕ → GuiAction × ℕ
unfolding line_length action_of
deserialize_gui_client_message buffer buffer_len = elim (line_length buffer_len buffer) [
  | none ↦ (error, buffer_len)
  | some n ↦ (action_of (take n buffer), n)
]
