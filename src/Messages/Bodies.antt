-- ===== src/Messages/Bodies.antt =====
-- The functions for the bodies of events write the format of `Encoding`.
use sik_screen_worms.Prelude.{
  ℕ, ◌+◌, ◌≤◌, ◌≡◌, refl, sym, ap, ◌∙◌, arith, some, List, [], ◌∷◌, ◌++◌, get_elem?, length, All,
  length-append, append_assoc,
}
use sik_screen_worms.Memory.{write_at, be_bytes}
use sik_screen_worms.Memory.Laws.{write_at_lem, write_field, split_at}
use sik_screen_worms.Memory.Numbers.{length-be_bytes}
use mathlib.Core.Path.{ap₂}
use sik_screen_worms.Messages.{
  NewGame, Pixel, EventData, new_game, pixel, player_eliminated, game_over, unknown,
}
use sik_screen_worms.Messages.Event.{
  serialize_names, serialize_game_event_new_game, serialize_game_event_pixel,
  serialize_game_event_player_eliminated, serialize_data,
}
use sik_screen_worms.Messages.Encoding.{c_string, c_strings, body_bytes, IsName, IsBody, name_reads}

get_elem?-append :
    (pre rest : List (List ℕ)) (x : List ℕ) → get_elem? (pre ++ (x ∷ rest)) (length pre) ≡ some x
get_elem?-append [] rest x = refl
get_elem?-append (y ∷ pre) rest x = get_elem?-append pre rest x

-- The loop over the names from index `i` on writes their C strings one behind the other.
serialize_names_lem :
    (todo pre : List (List ℕ)) (front mid back : List ℕ) (i offset : ℕ)
    → i ≡ length pre
    → offset ≡ length front
    → length mid ≡ length (c_strings todo)
    → All IsName todo
    → serialize_names (length todo) i (pre ++ todo) (front ++ (mid ++ back)) offset
      ≡ some (front ++ (c_strings todo ++ back), offset + length (c_strings todo))
unfolding serialize_names
serialize_names_lem [] pre front [] back i offset ei eo em h = ground arith
serialize_names_lem [] pre front (m ∷ mid) back i offset ei eo em h = absurd (omega (arith, em))
serialize_names_lem (name ∷ todo) pre front mid back i offset ei eo em (h, hs) =
    let c : List ℕ = c_string name in
    let (len, e1, e2, e3) = name_reads name h in
    let room : length c ≤ length mid = omega (arith, em, length-append c (c_strings todo)) in
    let (m1, m2, es, el, _) = split_at (length c) mid room in
    let written : write_at (front ++ (mid ++ back)) offset c ≡ some ((front ++ c) ++ (m2 ++ back)) =
      ap (λ m. write_at (front ++ m) offset c) (ap (λ m. m ++ back) es ∙ append_assoc m1 m2 back)
      ∙ write_at_lem front m1 (m2 ++ back) c offset eo el
      ∙ ap some (sym (append_assoc front c (m2 ++ back))) in
    let rest =
      serialize_names_lem todo (pre ++ (name ∷ [])) (front ++ c) m2 back (i + 1)
        (offset + (len + 1)) (omega (arith, ei, length-append pre (name ∷ [])))
        (omega (arith, eo, e3, length-append front c))
        (omega (arith, em, el, ap length es, length-append m1 m2, length-append c (c_strings todo)))
        hs in
    let found = ap (get_elem? (pre ++ (name ∷ todo))) ei ∙ get_elem?-append pre todo name in
    rw (found, e1, e2, written)
      (ap
          (λ ns.
            serialize_names (length todo) (i + 1) ns ((front ++ c) ++ (m2 ++ back))
              (offset + (len + 1)))
          (sym (append_assoc pre (name ∷ []) todo))
        ∙ rest
        ∙ ap₂ (λ xs n. some (xs, n))
            (append_assoc front c (c_strings todo ++ back)
              ∙ ap (◌++◌ front) (sym (append_assoc c (c_strings todo) back)))
            (omega (arith, e3, length-append c (c_strings todo))))

new_game_lem :
    (d : NewGame) (front mid back : List ℕ) (offset : ℕ)
    → offset ≡ length front
    → length mid ≡ length (body_bytes (new_game d))
    → IsBody (new_game d)
    → serialize_game_event_new_game (front ++ (mid ++ back)) offset d
      ≡ some (front ++ (body_bytes (new_game d) ++ back), offset + length (body_bytes (new_game d)))
unfolding serialize_game_event_new_game
new_game_lem d front mid back offset eo em (hx, hy, hn, hs) =
    let x : List ℕ = be_bytes 4 d.max_x in
    let y : List ℕ = be_bytes 4 d.max_y in
    let c : List ℕ = c_strings d.players_names in
    let lx : length x ≡ 4 = length-be_bytes 4 d.max_x in
    let ly : length y ≡ 4 = length-be_bytes 4 d.max_y in
    let size : length mid ≡ 8 + length c =
      omega (arith, em, lx, ly, length-append x (y ++ c), length-append y c) in
    let (m1, r1, s1, k1, _) = split_at 4 mid (omega (arith, size)) in
    let (m2, m3, s2, k2, _) =
      split_at 4 r1 (omega (arith, size, ap length s1, length-append m1 r1)) in
    let k3 : length m3 ≡ length c =
      omega (arith, size, ap length s1, length-append m1 r1, ap length s2, length-append m2 m3) in
    let shape : front ++ (mid ++ back) ≡ front ++ (m1 ++ (m2 ++ (m3 ++ back))) =
      ap (λ t. front ++ (t ++ back)) (s1 ∙ ap (◌++◌ m1) s2) ∙ simp append_assoc in
    let w1 : write_at (front ++ (mid ++ back)) offset x
        ≡ some (front ++ (x ++ (m2 ++ (m3 ++ back)))) =
      ap (λ t. write_at t offset x) shape
      ∙ write_at_lem front m1 (m2 ++ (m3 ++ back)) x offset eo (omega (arith, k1, lx)) in
    let w2 =
      write_field front x m2 (m3 ++ back) y (offset + 4) (omega (arith, eo, lx))
        (omega (arith, k2, ly)) in
    let names =
      serialize_names_lem d.players_names [] (front ++ (x ++ y)) m3 back 0 (offset + 8) refl
        (omega (arith, eo, lx, ly, length-append front (x ++ y), length-append x y)) k3 hs in
    rw (w1, w2)
      (ap₂ (λ n t. serialize_names n 0 d.players_names t (offset + 8)) hn (simp append_assoc)
        ∙ names
        ∙ ap₂ (λ xs n. some (xs, n)) (simp append_assoc)
            (omega (arith, lx, ly, length-append x (y ++ c), length-append y c)))

pixel_lem :
    (d : Pixel) (front mid back : List ℕ) (offset : ℕ)
    → offset ≡ length front
    → length mid ≡ length (body_bytes (pixel d))
    → serialize_game_event_pixel (front ++ (mid ++ back)) offset d
      ≡ some (front ++ (body_bytes (pixel d) ++ back), offset + length (body_bytes (pixel d)))
unfolding serialize_game_event_pixel
pixel_lem d front mid back offset eo em =
    let n : List ℕ = d.player_number ∷ [] in
    let x : List ℕ = be_bytes 4 d.x in
    let y : List ℕ = be_bytes 4 d.y in
    let lx : length x ≡ 4 = length-be_bytes 4 d.x in
    let ly : length y ≡ 4 = length-be_bytes 4 d.y in
    let size : length mid ≡ 9 = omega (arith, em, lx, ly, length-append x y) in
    let (m1, r1, s1, k1, _) = split_at 1 mid (omega (arith, size)) in
    let (m2, m3, s2, k2, _) =
      split_at 4 r1 (omega (arith, size, ap length s1, length-append m1 r1)) in
    let k3 : length m3 ≡ length y =
      omega
        (arith, size, ly, ap length s1, length-append m1 r1, ap length s2, length-append m2 m3) in
    let shape : front ++ (mid ++ back) ≡ front ++ (m1 ++ (m2 ++ (m3 ++ back))) =
      ap (λ t. front ++ (t ++ back)) (s1 ∙ ap (◌++◌ m1) s2) ∙ simp append_assoc in
    let w1 : write_at (front ++ (mid ++ back)) offset n
        ≡ some (front ++ (n ++ (m2 ++ (m3 ++ back)))) =
      ap (λ t. write_at t offset n) shape
      ∙ write_at_lem front m1 (m2 ++ (m3 ++ back)) n offset eo k1 in
    let w2 : write_at (front ++ (n ++ (m2 ++ (m3 ++ back)))) (offset + 1) x
        ≡ some (front ++ (n ++ (x ++ (m3 ++ back)))) =
      write_field front n m2 (m3 ++ back) x (offset + 1) (omega (arith, eo))
        (omega (arith, k2, lx)) in
    let w3 : write_at (front ++ (n ++ (x ++ (m3 ++ back)))) (offset + 5) y
        ≡ some (front ++ ((n ++ x) ++ (y ++ back))) =
      ap (λ t. write_at t (offset + 5) y) (simp append_assoc)
      ∙ write_field front (n ++ x) m3 back y (offset + 5) (omega (arith, eo, lx, length-append n x))
          k3 in
    rw (w1, w2, w3)
      (ap₂ (λ xs n. some (xs, n)) (simp append_assoc) (omega (arith, lx, ly, length-append x y)))

player_eliminated_lem :
    (n : ℕ) (front mid back : List ℕ) (offset : ℕ)
    → offset ≡ length front
    → length mid ≡ 1
    → serialize_game_event_player_eliminated (front ++ (mid ++ back)) offset n
      ≡ some (front ++ ((n ∷ []) ++ back), offset + 1)
unfolding serialize_game_event_player_eliminated
player_eliminated_lem n front mid back offset eo em =
    rw (write_at_lem front mid back (n ∷ []) offset eo em)

-- Each serializer of a body overwrites a gap of the body's size with the body.
pub serialize_data_lem :
    (body : EventData) (front mid back : List ℕ) (offset : ℕ)
    → offset ≡ length front
    → length mid ≡ length (body_bytes body)
    → IsBody body
    → serialize_data (front ++ (mid ++ back)) offset body
      ≡ some (front ++ (body_bytes body ++ back), offset + length (body_bytes body))
unfolding serialize_data
serialize_data_lem (new_game d) front mid back offset eo em h =
    new_game_lem d front mid back offset eo em h
serialize_data_lem (pixel d) front mid back offset eo em h = pixel_lem d front mid back offset eo em
serialize_data_lem (player_eliminated n) front mid back offset eo em h =
    player_eliminated_lem n front mid back offset eo em
serialize_data_lem game_over front [] back offset eo em h = ground arith
serialize_data_lem game_over front (m ∷ mid) back offset eo em h = absurd (omega (arith, em))
serialize_data_lem (unknown t) front mid back offset eo em h = absurd h
