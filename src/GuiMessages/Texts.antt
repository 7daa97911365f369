-- ===== src/GuiMessages/Texts.antt =====
-- The texts for the interface: when there is one, and that it fits the array.
use sik_screen_worms.Prelude.{
  ℕ, zero, suc, ◌+◌, ◌-◌, ◌/◌, ◌%◌, ◌^◌, ◌≤◌, ◌<◌, ◌≡◌, refl, sym, ap, ◌∙◌, arith, some, List, [],
  ◌∷◌, ◌++◌, inl, inr, Bool-cases, ltb, length, length-append, get_elem?, get_elem?-some,
  get_elem?-middle, map, All, All-get_elem?, append_assoc,
}
use mathlib.Core.Path.{ap₂}
use sik_screen_worms.Memory.{read_at}
use sik_screen_worms.Memory.Laws.{strlen_lem, read_at_lem}
use sik_screen_worms.Messages.{NewGame, Pixel, EventData, new_game, pixel, player_eliminated}
use sik_screen_worms.Messages.Encoding.{c_string, c_strings, c_string_lem, IsName}
use sik_screen_worms.GuiMessages.{
  digits, print_int, print_string, print_name, print_names, gui_text,
  serialize_client_gui_message_new_game, serialize_client_gui_message_pixel,
  serialize_client_gui_message_player_eliminated, text_new_game, text_pixel, text_player_eliminated,
}

digits-le : (fuel n : ℕ) → length (digits fuel n) ≤ fuel
unfolding digits
digits-le zero n = omega arith
digits-le (suc fuel) n = elim (Bool-cases (ltb n 10)) [
  | inl e ↦ rw e (omega arith)
  | inr e ↦ rw e (
      omega
        (arith, digits-le fuel (n / 10), length-append (digits fuel (n / 10)) ((48 + n % 10) ∷ [])))
]

print_int-le : (n : ℕ) → length (print_int n) ≤ 11
unfolding print_int
print_int-le n = elim (Bool-cases (ltb n (2 ^ 31))) [
  | inl e ↦ rw e (omega (arith, digits-le 10 n))
  | inr e ↦ rw e (omega (arith, digits-le 10 (2 ^ 32 - n)))
]

-- A name that the client prints as a text of less than 530 characters.
abbrev pub Printable : List ℕ → Type 0
Printable name = (text : List ℕ) × (print_string name ≡ some text) × (length text < 530)

print_string-c_string :
    (name : List ℕ)
    → IsName name
    → (text : List ℕ) × (print_string (c_string name) ≡ some text)
      × (length (c_string name) ≡ length text + 1)
unfolding print_string
print_string-c_string name (text, rest, e, h) =
    let c : c_string name ≡ text ++ (0 ∷ []) = ap c_string e ∙ c_string_lem text rest h in
    let read : read_at (text ++ (0 ∷ [])) 0 (length text) ≡ some text =
      read_at_lem [] text (0 ∷ []) 0 (length text) refl refl in
    (
      text,
      ap print_string c ∙ rw (print_string, strlen_lem text [] h, read),
      ap length c ∙ length-append text (0 ∷ []),
    )

-- The names of the start of a game, as they were received.
pub names_Printable :
    (names : List (List ℕ))
    → All IsName names
    → length (c_strings names) ≤ 530
    → All Printable (map c_string names)
names_Printable [] h k = tt
names_Printable (name ∷ names) (p, h) k =
    let (text, e, n) = print_string-c_string name p in
    let size = length-append (c_string name) (c_strings names) in
    ((text, e, omega (arith, n, size, k)), names_Printable names h (omega (arith, size, k)))

print_names-c_strings :
    (front : List (List ℕ)) (names : List (List ℕ))
    → All IsName names
    → (list : List ℕ) × (print_names (length names) (length front) (front ++ map c_string names)
        ≡ some list)
      × (length list ≡ length (c_strings names))
unfolding print_names print_name
print_names-c_strings front [] h = ([], refl, refl)
print_names-c_strings front (name ∷ names) (p, h) =
    let (text, e, n) = print_string-c_string name p in
    let (list, f, m) = print_names-c_strings (front ++ (c_string name ∷ [])) names h in
    let found : get_elem? (front ++ (c_string name ∷ map c_string names)) (length front)
        ≡ some (c_string name) =
      get_elem?-middle front (map c_string names) (c_string name) (length front) refl in
    let rest : print_names (length names) (length front + 1)
          (front ++ (c_string name ∷ map c_string names))
        ≡ some list =
      ap₂ (print_names (length names)) (sym (length-append front (c_string name ∷ [])))
        (sym (append_assoc front (c_string name ∷ []) (map c_string names)))
      ∙ f in
    (
      b' ' ∷ (text ++ list),
      rw (found, e, rest),
      omega (arith, m, n, length-append text list, length-append (c_string name) (c_strings names)),
    )

print_name-Printable :
    (names : List (List ℕ)) (i : ℕ)
    → All Printable names
    → i < length names
    → (text : List ℕ) × (print_name names i ≡ some text) × (length text < 530)
unfolding print_name
print_name-Printable names i h k =
    let (name, e) = get_elem?-some names i k in
    let (text, f, n) = All-get_elem? Printable names i name h e in (text, rw (e, f), n)

-- A text that is no empty one and fits the array with its NUL.
abbrev pub FitsArray : List ℕ → Type 0
FitsArray text = (0 < length text) × (length text < 2048)

abbrev pub HasLine : EventData → List (List ℕ) → Type 0
HasLine body names = (text : List ℕ) × (gui_text body names ≡ some text) × FitsArray text

pub pixel-HasLine :
    (p : Pixel) (names : List (List ℕ))
    → All Printable names
    → p.player_number < length names
    → HasLine (pixel p) names
unfolding gui_text serialize_client_gui_message_pixel
pixel-HasLine p names h k =
    let (name, e, n) = print_name-Printable names p.player_number h k in
    let behind : List ℕ = print_int p.y ++ (b' ' ∷ (name ++ (10 ∷ []))) in
    (
      text_pixel ++ (print_int p.x ++ (b' ' ∷ behind)),
      rw e refl,
      (
        omega arith,
        omega (
          arith,
          n,
          print_int-le p.x,
          print_int-le p.y,
          length-append (print_int p.x) (b' ' ∷ behind),
          length-append (print_int p.y) (b' ' ∷ (name ++ (10 ∷ []))),
          length-append name (10 ∷ []),
        ),
      ),
    )

pub player_eliminated-HasLine :
    (i : ℕ) (names : List (List ℕ))
    → All Printable names
    → i < length names
    → HasLine (player_eliminated i) names
unfolding gui_text serialize_client_gui_message_player_eliminated
player_eliminated-HasLine i names h k =
    let (name, e, n) = print_name-Printable names i h k in
    (
      text_player_eliminated ++ (name ++ (10 ∷ [])),
      rw e refl,
      (omega arith, omega (arith, n, length-append name (10 ∷ []))),
    )

pub new_game-HasLine :
    (d : NewGame)
    → All IsName d.players_names
    → d.players_num ≡ length d.players_names
    → length (c_strings d.players_names) ≤ 530
    → HasLine
        (new_game (record d { players_names = map c_string d.players_names }))
        (map c_string d.players_names)
unfolding gui_text serialize_client_gui_message_new_game
new_game-HasLine d h n k =
    let (list, e, m) = print_names-c_strings [] d.players_names h in
    let all : print_names d.players_num 0 (map c_string d.players_names) ≡ some list =
      ap (λ t. print_names t 0 (map c_string d.players_names)) n ∙ e in
    let behind : List ℕ = print_int d.max_y ++ (list ++ (10 ∷ [])) in
    (
      text_new_game ++ (b' ' ∷ (print_int d.max_x ++ (b' ' ∷ behind))),
      rw all refl,
      (
        omega arith,
        omega (
          arith,
          m,
          k,
          print_int-le d.max_x,
          print_int-le d.max_y,
          length-append (print_int d.max_x) (b' ' ∷ behind),
          length-append (print_int d.max_y) (list ++ (10 ∷ [])),
          length-append list (10 ∷ []),
        ),
      ),
    )
