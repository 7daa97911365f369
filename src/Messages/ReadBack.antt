-- ===== src/Messages/ReadBack.antt =====
-- The deserializers of bodies read back the format of `Encoding`.
use sik_screen_worms.Prelude.{
  ℕ, zero, suc, ◌+◌, ◌-◌, ◌^◌, ◌≤◌, ◌<◌, ◌≡◌, refl, sym, ap, ◌∙◌, arith, some, List, [], ◌∷◌, ◌++◌,
  length, drop, map, All, length-append, append_assoc, append-nil, drop-append, length-map,
}
use sik_screen_worms.Memory.{read_at, strlen, be_bytes, from_be}
use sik_screen_worms.Memory.Laws.{read_at_lem, strlen_lem}
use sik_screen_worms.Memory.Numbers.{length-be_bytes, from_be-be_bytes_four}
use sik_screen_worms.Messages.{
  NewGame, Pixel, EventData, new_game, pixel, player_eliminated, game_over, unknown, event_type, ok,
}
use sik_screen_worms.Messages.Client.{from_option}
use sik_screen_worms.Messages.Parse.{
  read, deserialize_names, names_length, deserialize_game_event_new_game,
  deserialize_game_event_pixel, deserialize_game_event_player_eliminated, deserialize_data,
}
use sik_screen_worms.Messages.Encoding.{
  c_string, c_strings, body_bytes, IsName, IsBody, c_string_lem, received_body, HasRoom,
}

-- A read behind two parts.
pub read_field :
    (a b mid back : List ℕ) (offset n : ℕ)
    → offset ≡ length a + length b
    → n ≡ length mid
    → read (a ++ (b ++ (mid ++ back))) offset n ≡ ok mid
read_field a b mid back offset n e f = ap from_option (
    ap (λ t. read_at t offset n) (sym (append_assoc a b (mid ++ back)))
    ∙ read_at_lem (a ++ b) mid back offset n (omega (arith, e, length-append a b)) f)

name_found :
    (name more : List ℕ)
    → IsName name
    → (len : ℕ) × (strlen (c_string name ++ more) ≡ some len) × (length (c_string name) ≡ suc len)
name_found name more (text, rest, e, h) =
    let c : c_string name ≡ text ++ (0 ∷ []) = ap c_string e ∙ c_string_lem text rest h in
    (
      length text,
      ap (λ t. strlen (t ++ more)) c
          ∙ ap strlen (append_assoc text (0 ∷ []) more)
          ∙ strlen_lem text more h,
      omega (arith, ap length c, length-append text (0 ∷ [])),
    )

-- The loop takes the C strings apart again, while its array has places for them.
deserialize_names_lem :
    (todo : List (List ℕ)) (slots : ℕ) (front back : List ℕ) (acc : List (List ℕ)) (offset n : ℕ)
    → length todo ≤ slots
    → offset ≡ length front
    → n ≡ length (c_strings todo)
    → All IsName todo
    → deserialize_names slots (front ++ (c_strings todo ++ back)) offset n acc
      ≡ ok (acc ++ map c_string todo)
unfolding deserialize_names
deserialize_names_lem [] zero front back acc offset n hl eo en h =
    rw en (ap ok (sym (append-nil acc)))
deserialize_names_lem [] (suc slots) front back acc offset n hl eo en h =
    rw en (ap ok (sym (append-nil acc)))
deserialize_names_lem (name ∷ todo) zero front back acc offset n hl eo en h = absurd (omega arith)
deserialize_names_lem (name ∷ todo) (suc slots) front back acc offset n hl eo en (h, hs) =
    let c : List ℕ = c_string name in
    let more : List ℕ = c_strings todo ++ back in
    let (len, e1, e2) = name_found name more h in
    let size : n ≡ suc (len + length (c_strings todo)) =
      omega (arith, en, e2, length-append c (c_strings todo)) in
    let shape : front ++ ((c ++ c_strings todo) ++ back) ≡ front ++ (c ++ more) =
      ap (◌++◌ front) (append_assoc c (c_strings todo) back) in
    let here : strlen (drop offset (front ++ (c ++ more))) ≡ some len =
      ap strlen (ap (λ k. drop k (front ++ (c ++ more))) eo ∙ drop-append front (c ++ more)) ∙ e1 in
    let copied : read_at (front ++ (c ++ more)) offset (len + 1) ≡ some c =
      read_at_lem front c more offset (len + 1) eo (omega (arith, e2)) in
    let rest =
      deserialize_names_lem todo slots (front ++ c) back (acc ++ (c ∷ [])) (offset + (len + 1))
        (len + length (c_strings todo) - len) (omega arith)
        (omega (arith, eo, e2, length-append front c)) (omega arith) hs in
    rw (size, shape, here, copied)
      (ap
          (λ t.
            deserialize_names slots t (offset + (len + 1)) (len + length (c_strings todo) - len)
              (acc ++ (c ∷ [])))
          (sym (append_assoc front c more))
        ∙ rest
        ∙ ap ok (append_assoc acc (c ∷ []) (map c_string todo)))

new_game_path :
    (d : NewGame) (names : List (List ℕ)) {x y n : ℕ}
    → x ≡ d.max_x
    → y ≡ d.max_y
    → n ≡ d.players_num
    → record { max_x = x; max_y = y; players_num = n; players_names = names }
      ≡ record d { players_names = names }
new_game_path d names e f g =
    λ i. record { max_x = e i; max_y = f i; players_num = g i; players_names = names }

pixel_path :
    (d : Pixel) {n x y : ℕ}
    → n ≡ d.player_number
    → x ≡ d.x
    → y ≡ d.y
    → record { player_number = n; x = x; y = y } ≡ d
pixel_path d e f g = λ i. record { player_number = e i; x = f i; y = g i }

pub from_be-one : (b : ℕ) → from_be (b ∷ []) ≡ b
unfolding from_be
from_be-one b = omega arith

-- The body behind the nine bytes of the header.
new_game_lem :
    (d : NewGame) (front back : List ℕ)
    → length front ≡ 9
    → length d.players_names ≤ 25
    → length (body_bytes (new_game d)) < 2 ^ 31
    → IsBody (new_game d)
    → deserialize_game_event_new_game
        (front ++ (body_bytes (new_game d) ++ back))
        9
        (length (body_bytes (new_game d)))
      ≡ ok (record d { players_names = map c_string d.players_names })
unfolding deserialize_game_event_new_game
new_game_lem d front back lf room short (hx, hy, hn, hs) =
    let x : List ℕ = be_bytes 4 d.max_x in
    let y : List ℕ = be_bytes 4 d.max_y in
    let c : List ℕ = c_strings d.players_names in
    let lx : length x ≡ 4 = length-be_bytes 4 d.max_x in
    let ly : length y ≡ 4 = length-be_bytes 4 d.max_y in
    let total : length (x ++ (y ++ c)) ≡ 8 + length c =
      omega (arith, lx, ly, length-append x (y ++ c), length-append y c) in
    let shape : front ++ ((x ++ (y ++ c)) ++ back) ≡ front ++ (x ++ (y ++ (c ++ back))) =
      simp append_assoc in
    let rx : read (front ++ (x ++ (y ++ (c ++ back)))) 9 4 ≡ ok x =
      ap from_option (read_at_lem front x (y ++ (c ++ back)) 9 4 (sym lf) (sym lx)) in
    let ry : read (front ++ (x ++ (y ++ (c ++ back)))) (9 + 4) 4 ≡ ok y =
      read_field front x y (c ++ back) (9 + 4) 4 (omega (arith, lf, lx)) (sym ly) in
    let size : names_length (length (x ++ (y ++ c))) ≡ length c = ground (arith, total, short) in
    let regroup : front ++ (x ++ (y ++ (c ++ back))) ≡ (front ++ (x ++ y)) ++ (c ++ back) =
      simp append_assoc in
    let names : deserialize_names 25 (front ++ (x ++ (y ++ (c ++ back)))) (9 + 8)
          (names_length (length (x ++ (y ++ c)))) []
        ≡ ok (map c_string d.players_names) =
      ap (λ t. deserialize_names 25 t (9 + 8) (names_length (length (x ++ (y ++ c)))) []) regroup
      ∙ deserialize_names_lem d.players_names 25 (front ++ (x ++ y)) back [] (9 + 8) _ room
          (omega (arith, lf, lx, ly, length-append front (x ++ y), length-append x y)) size hs in
    rw (shape, rx, ry, names)
      (ap ok (
        new_game_path d (map c_string d.players_names) (from_be-be_bytes_four d.max_x hx)
          (from_be-be_bytes_four d.max_y hy) (length-map c_string d.players_names ∙ sym hn)))

pixel_lem :
    (d : Pixel) (front back : List ℕ)
    → length front ≡ 9
    → IsBody (pixel d)
    → deserialize_game_event_pixel (front ++ (body_bytes (pixel d) ++ back)) 9 ≡ ok d
unfolding deserialize_game_event_pixel
pixel_lem d front back lf (hn, hx, hy) =
    let n : List ℕ = d.player_number ∷ [] in
    let x : List ℕ = be_bytes 4 d.x in
    let y : List ℕ = be_bytes 4 d.y in
    let lx : length x ≡ 4 = length-be_bytes 4 d.x in
    let ly : length y ≡ 4 = length-be_bytes 4 d.y in
    let shape : front ++ ((n ++ (x ++ y)) ++ back) ≡ front ++ (n ++ (x ++ (y ++ back))) =
      simp append_assoc in
    let rn : read (front ++ (n ++ (x ++ (y ++ back)))) 9 1 ≡ ok n =
      ap from_option (read_at_lem front n (x ++ (y ++ back)) 9 1 (sym lf) refl) in
    let rx : read (front ++ (n ++ (x ++ (y ++ back)))) (9 + 1) 4 ≡ ok x =
      read_field front n x (y ++ back) (9 + 1) 4 (omega (arith, lf)) (sym lx) in
    let ry : read (front ++ (n ++ (x ++ (y ++ back)))) (9 + 5) 4 ≡ ok y =
      ap (λ t. read t (9 + 5) 4) (simp append_assoc)
      ∙ read_field front (n ++ x) y back (9 + 5) 4 (omega (arith, lf, lx, length-append n x))
          (sym ly) in
    rw (shape, rn, rx, ry)
      (ap ok (
        pixel_path d (from_be-one d.player_number) (from_be-be_bytes_four d.x hx)
          (from_be-be_bytes_four d.y hy)))

pub deserialize_data_lem :
    (body : EventData) (front back : List ℕ)
    → length front ≡ 9
    → HasRoom body
    → length (body_bytes body) < 2 ^ 31
    → IsBody body
    → deserialize_data
        (front ++ (body_bytes body ++ back))
        (length (body_bytes body))
        (event_type body)
      ≡ ok (received_body body)
unfolding deserialize_data
deserialize_data_lem (new_game d) front back lf room short h =
    rw (new_game_lem d front back lf room short h)
deserialize_data_lem (pixel d) front back lf room short h = rw (pixel_lem d front back lf h)
deserialize_data_lem (player_eliminated n) front back lf room short h = rw (
  ap from_option (read_at_lem front (n ∷ []) back 9 1 (sym lf) refl),
  deserialize_game_event_player_eliminated,
  from_be-one n,
)
deserialize_data_lem game_over front back lf room short h = refl
deserialize_data_lem (unknown t) front back lf room short h = absurd h
