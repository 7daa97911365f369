-- ===== src/Messages/Encoding.antt =====
-- The wire format of a game event, as an independent description of its bytes.
use sik_screen_worms.Prelude.{
  ℕ, zero, suc, ◌+◌, ◌^◌, ◌≤◌, ◌<◌, ◌≡◌, refl, sym, ap, ◌∙◌, arith, some, List, [], ◌∷◌, ◌++◌,
  length, map, All, All-append, length-append, append_assoc,
}
use sik_screen_worms.Memory.{read_at, strlen, be_bytes}
use sik_screen_worms.Memory.Laws.{read_at_lem, IsText, strlen_lem}
use sik_screen_worms.Memory.Numbers.{length-be_bytes, be_bytes-All}
use sik_screen_worms.Crc32.{crc32}
use sik_screen_worms.Messages.{
  EventData, new_game, pixel, player_eliminated, game_over, unknown, GameEvent, event_type,
}

-- The bytes of a C string, its NUL included.
abbrev pub c_string : List ℕ → List ℕ
c_string [] = []
c_string (zero ∷ cs) = zero ∷ []
c_string (suc c ∷ cs) = suc c ∷ c_string cs

abbrev pub c_strings : List (List ℕ) → List ℕ
c_strings [] = []
c_strings (name ∷ names) = c_string name ++ c_strings names

abbrev pub body_bytes : EventData → List ℕ
body_bytes (new_game d) = be_bytes 4 d.max_x ++ (be_bytes 4 d.max_y ++ c_strings d.players_names)
body_bytes (pixel d) = (d.player_number ∷ []) ++ (be_bytes 4 d.x ++ be_bytes 4 d.y)
body_bytes (player_eliminated n) = n ∷ []
body_bytes game_over = []
body_bytes (unknown t) = []

-- The fields that the checksum covers.
abbrev pub block_bytes : GameEvent → List ℕ
block_bytes e =
    be_bytes 4 (5 + length (body_bytes e.body))
    ++ (be_bytes 4 e.event_no ++ ((event_type e.body ∷ []) ++ body_bytes e.body))

unfoldable pub event_bytes : GameEvent → List ℕ
event_bytes e = block_bytes e ++ be_bytes 4 (crc32 (block_bytes e))

-- A name in memory is a C string: a text, its NUL, and whatever follows.
abbrev pub IsName : List ℕ → Type 0
IsName name = (text rest : List ℕ) × (name ≡ text ++ (0 ∷ rest)) × IsText text

abbrev pub IsBody : EventData → Type 0
IsBody (new_game d) =
    (d.max_x < 2 ^ 32)
    × (d.max_y < 2 ^ 32)
    × (d.players_num ≡ length d.players_names)
    × All IsName d.players_names
IsBody (pixel d) = (d.player_number < 256) × (d.x < 2 ^ 32) × (d.y < 2 ^ 32)
IsBody (player_eliminated n) = n < 256
IsBody game_over = Unit {0}
IsBody (unknown t) = ⊥

pub c_string_lem :
    (text rest : List ℕ) → IsText text → c_string (text ++ (0 ∷ rest)) ≡ text ++ (0 ∷ [])
c_string_lem [] rest h = refl
c_string_lem (zero ∷ text) rest (p, h) = absurd (omega arith)
c_string_lem (suc c ∷ text) rest (p, h) = ap (λ t. suc c ∷ t) (c_string_lem text rest h)

-- `strlen` and the copy of a name take its C string.
pub name_reads :
    (name : List ℕ)
    → IsName name
    → (len : ℕ) × (strlen name ≡ some len)
      × (read_at name 0 (len + 1) ≡ some (c_string name))
      × (length (c_string name) ≡ len + 1)
name_reads name (text, rest, e, h) =
    let c : c_string name ≡ text ++ (0 ∷ []) = ap c_string e ∙ c_string_lem text rest h in
    let n : length (text ++ (0 ∷ [])) ≡ length text + 1 =
      omega (arith, length-append text (0 ∷ [])) in
    (
      length text,
      ap strlen e ∙ strlen_lem text rest h,
      ap (λ t. read_at t 0 (length text + 1)) (e ∙ sym (append_assoc text (0 ∷ []) rest))
          ∙ read_at_lem [] (text ++ (0 ∷ [])) rest 0 (length text + 1) refl (sym n)
          ∙ ap some (sym c),
      ap length c ∙ n,
    )

pub length-event_bytes : (e : GameEvent) → length (event_bytes e) ≡ 13 + length (body_bytes e.body)
unfolding event_bytes
length-event_bytes e =
    let b : List ℕ = body_bytes e.body in
    let l : List ℕ = be_bytes 4 (5 + length b) in
    let n : List ℕ = be_bytes 4 e.event_no in
    let s : List ℕ = be_bytes 4 (crc32 (block_bytes e)) in
    omega (
      arith,
      length-append (l ++ (n ++ ((event_type e.body ∷ []) ++ b))) s,
      length-append l (n ++ ((event_type e.body ∷ []) ++ b)),
      length-append n ((event_type e.body ∷ []) ++ b),
      length-be_bytes 4 (5 + length b),
      length-be_bytes 4 e.event_no,
      length-be_bytes 4 (crc32 (block_bytes e)),
    )

-- What stays of the event on the other side: the copy of a name ends at its NUL.
abbrev pub received_body : EventData → EventData
received_body (new_game d) = new_game (record d { players_names = map c_string d.players_names })
received_body (pixel d) = pixel d
received_body (player_eliminated n) = player_eliminated n
received_body game_over = game_over
received_body (unknown t) = unknown t

abbrev pub received : GameEvent → GameEvent
received e = record e { body = received_body e.body }

-- The array of names of the deserializer has 25 places.
abbrev pub HasRoom : EventData → Type 0
HasRoom (new_game d) = length d.players_names ≤ 25
HasRoom (pixel d) = Unit {0}
HasRoom (player_eliminated n) = Unit {0}
HasRoom game_over = Unit {0}
HasRoom (unknown t) = Unit {0}

-- An event as the server makes it.
pub record IsEvent (e : GameEvent) : Type 0 where
  pub numbered : e.event_no < 2 ^ 32
  pub body_fits : IsBody e.body
  pub room : HasRoom e.body
  pub short : length (event_bytes e) < 2 ^ 31

text-All : (text : List ℕ) → IsText text → All (λ b. b < 256) text
text-All [] h = tt
text-All (c ∷ cs) (p, h) = (p.1, text-All cs h)

pub c_string-All : (name : List ℕ) → IsName name → All (λ b. b < 256) (c_string name)
c_string-All name (text, rest, e, h) =
    rw (ap c_string e ∙ c_string_lem text rest h)
      (All-append _ text (0 ∷ []) (text-All text h) (omega arith, tt))

c_strings-All : (names : List (List ℕ)) → All IsName names → All (λ b. b < 256) (c_strings names)
c_strings-All [] h = tt
c_strings-All (name ∷ names) (p, h) =
    All-append _ (c_string name) (c_strings names) (c_string-All name p) (c_strings-All names h)

body_bytes-All : (body : EventData) → IsBody body → All (λ b. b < 256) (body_bytes body)
body_bytes-All (new_game d) (hx, hy, hn, hs) =
    All-append _ (be_bytes 4 d.max_x) (be_bytes 4 d.max_y ++ c_strings d.players_names)
      (be_bytes-All 4 d.max_x)
      (All-append _ (be_bytes 4 d.max_y) (c_strings d.players_names) (be_bytes-All 4 d.max_y)
        (c_strings-All d.players_names hs))
body_bytes-All (pixel d) (hn, hx, hy) =
    (hn, All-append _ (be_bytes 4 d.x) (be_bytes 4 d.y) (be_bytes-All 4 d.x) (be_bytes-All 4 d.y))
body_bytes-All (player_eliminated n) h = (h, tt)
body_bytes-All game_over h = tt
body_bytes-All (unknown t) h = tt

event_type-lt : (body : EventData) → IsBody body → event_type body < 4
event_type-lt (new_game d) h = omega arith
event_type-lt (pixel d) h = omega arith
event_type-lt (player_eliminated n) h = omega arith
event_type-lt game_over h = omega arith
event_type-lt (unknown t) h = absurd h

-- The serialized fields are bytes.
pub block_bytes-All : (e : GameEvent) → IsBody e.body → All (λ b. b < 256) (block_bytes e)
block_bytes-All e h =
    All-append _ (be_bytes 4 (5 + length (body_bytes e.body))) _ (be_bytes-All 4 _) (
      All-append _ (be_bytes 4 e.event_no) _ (be_bytes-All 4 _)
        (omega (arith, event_type-lt e.body h), body_bytes-All e.body h))
