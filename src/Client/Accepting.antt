-- ===== src/Client/Accepting.antt =====
-- The client accepts a game as the server plays it: no check of it ends the program, and each line
-- fits the array for the interface.
use sik_screen_worms.Prelude.{
  ℕ, suc, ◌+◌, ◌%◌, ◌^◌, ◌≤◌, ◌<◌, ◌≡◌, refl, sym, ap, ◌∙◌, subst, arith, true, false, some, List,
  [], ◌∷◌, inl, inr, ◌⊎◌, ==_iff, ltb, leb, length, map, All,
}
use mathlib.Core.Path.{ap₂}
use sik_screen_worms.Messages.{
  NewGame, EventData, GameEvent, new_game, pixel, player_eliminated, game_over, unknown,
}
use sik_screen_worms.Messages.Encoding.{c_string, c_strings, IsName, received, received_body}
use sik_screen_worms.Game.Emitting.{Numbered}
use sik_screen_worms.GuiMessages.Texts.{
  Printable, FitsArray, HasLine, names_Printable, pixel-HasLine, player_eliminated-HasLine,
  new_game-HasLine,
}
use sik_screen_worms.Client.{
  View, check_event, on_event_new_game, on_event_pixel, on_event_player_eliminated, is_shown,
  next_event,
}
use sik_screen_worms.Client.Playing.{Line, add_line, play, play_hidden, play_seen}

-- An event behind the start of a game: a pixel of a player on the board, a player of the game, or the
-- end of the game.
abbrev pub InGame : NewGame → EventData → Type 0
InGame d (new_game e) = ⊥
InGame d (pixel p) = (p.player_number < d.players_num) × (p.x < d.max_x) × (p.y < d.max_y)
InGame d (player_eliminated n) = n < d.players_num
InGame d game_over = Unit {0}
InGame d (unknown t) = ⊥

received_body-InGame : (d : NewGame) (body : EventData) → InGame d body → received_body body ≡ body
received_body-InGame d (new_game e) h = absurd h
received_body-InGame d (pixel p) h = refl
received_body-InGame d (player_eliminated n) h = refl
received_body-InGame d game_over h = refl
received_body-InGame d (unknown t) h = absurd h

-- The view of a game that was started with these data.
record Started (d : NewGame) (v : View) : Type 0 where
  pub players : v.players_num ≡ d.players_num
  pub names : All Printable v.players_names
  pub all_named : d.players_num ≡ length v.players_names
  pub wide : v.width ≡ d.max_x
  pub high : v.height ≡ d.max_y

length-map {ℓ κ} :
    {A : Type ℓ} {B : Type κ} (f : A → B) (xs : List A) → length (map f xs) ≡ length xs
length-map f [] = refl
length-map f (x ∷ xs) = ap suc (length-map f xs)

-- What an event does to such a view: its check passes, and its line, if it has one, fits.
record Passes (v : View) (e : GameEvent) : Type 0 where
  pub checked : check_event v e ≡ some v
  pub line : (is_shown e.body ≡ false) ⊎ ((is_shown e.body ≡ true) × HasLine e.body v.players_names)

body-Passes :
    (d : NewGame) (v : View) (n : ℕ) (body : EventData)
    → Started d v
    → InGame d body
    → Passes v (record { event_no = n; body = body })
unfolding check_event on_event_pixel on_event_player_eliminated
body-Passes d v n (new_game e) s h = absurd h
body-Passes d v n (pixel p) s (i, x, y) = record {
  checked =
      let a : leb v.players_num p.player_number ≡ false = ground (arith, i, s.players) in
      let b : leb v.width p.x ≡ false = ground (arith, x, s.wide) in
      let c : leb v.height p.y ≡ false = ground (arith, y, s.high) in rw (a, b, c);
  line = inr (refl, pixel-HasLine p v.players_names s.names (omega (arith, i, s.all_named)));
}
body-Passes d v n (player_eliminated i) s h = record {
  checked = let a : leb v.players_num i ≡ false = ground (arith, h, s.players) in rw a;
  line =
      inr
        (refl, player_eliminated-HasLine i v.players_names s.names (omega (arith, h, s.all_named)));
}
body-Passes d v n game_over s h = record { checked = refl; line = inl refl }
body-Passes d v n (unknown t) s h = absurd h

-- What is shown of a game, with the number expected behind it.
record Plays (v : View) (es : List GameEvent) (m : ℕ) : Type 0 where
  pub last : View
  pub lines : List Line
  pub played : play v es ≡ some (last, lines)
  pub counted : last.next_expected_event_no ≡ m
  pub fitting : All (λ (l : Line). FitsArray l.text) lines

play_one :
    (v u : View) (e : GameEvent) (es : List GameEvent) (m : ℕ)
    → e.event_no ≡ v.next_expected_event_no
    → check_event v e ≡ some u
    → (is_shown e.body ≡ false) ⊎ ((is_shown e.body ≡ true) × HasLine e.body u.players_names)
    → Plays (next_event u) es m
    → Plays v (e ∷ es) m
play_one v u e es m n checked (inl hidden) p = record {
  last = p.last;
  lines = p.lines;
  played =
      play_hidden v u e es ((==_iff e.event_no v.next_expected_event_no).1 n) checked hidden
      ∙ p.played;
  counted = p.counted;
  fitting = p.fitting;
}
play_one v u e es m n checked (inr (seen, (text, line, fits))) p = record {
  last = p.last;
  lines = record { event_no = e.event_no; text = text } ∷ p.lines;
  played =
      play_seen v u e es ((==_iff e.event_no v.next_expected_event_no).1 n) checked seen
      ∙ ap₂ (add_line e.event_no) line p.played;
  counted = p.counted;
  fitting = (fits, p.fitting);
}

play-Started :
    (d : NewGame) (v : View) (es : List GameEvent) (m : ℕ)
    → Started d v
    → Numbered v.next_expected_event_no es m
    → All (λ (e : GameEvent). InGame d e.body) es
    → Plays v (map received es) m
unfolding play
play-Started d v [] m s n h = record {
  last = v;
  lines = [];
  played = refl;
  counted = n;
  fitting = tt;
}
play-Started d v (e ∷ es) m s (n, ns) (i, h) =
    let p = body-Passes d v e.event_no e.body s i in
    let same : received e ≡ e =
      ap (λ b. record { event_no = e.event_no; body = b }) (received_body-InGame d e.body i) in
    let next : Started d (next_event v) = record {
      players = s.players;
      names = s.names;
      all_named = s.all_named;
      wide = s.wide;
      high = s.high;
    } in
    subst (λ (x : GameEvent). Plays v (x ∷ map received es) m) (sym same)
      (play_one v v e (map received es) m n p.checked p.line (
        play-Started d (next_event v) es m next
          (subst (λ k. Numbered ((k + 1) % 2 ^ 32) es m) refl ns) h))

-- A whole game: its start with at least two players, whose names are C strings of 530 bytes at most
-- together, and behind it events that are numbered one after another and concern its players and its
-- board. A client that expects event 0 plays all of it: no check ends it, the number that it
-- expects is the one behind the last event, and each line for the interface is no empty one and
-- fits the array.
pub play-game :
    (v : View) (d : NewGame) (es : List GameEvent) (m : ℕ)
    → v.next_expected_event_no ≡ 0
    → 2 ≤ d.players_num
    → d.players_num ≡ length d.players_names
    → All IsName d.players_names
    → length (c_strings d.players_names) ≤ 530
    → Numbered 1 es m
    → All (λ (e : GameEvent). InGame d e.body) es
    → (last : View) × (lines : List Line) × (play v
          (map received (record { event_no = 0; body = new_game d } ∷ es))
        ≡ some (last, lines))
      × (last.next_expected_event_no ≡ m)
      × All (λ (l : Line). FitsArray l.text) lines
unfolding check_event on_event_new_game
play-game v d es m first two n names short numbered h =
    let got : NewGame = record d { players_names = map c_string d.players_names } in
    let u : View = record v {
      players_num = d.players_num;
      players_names = map c_string d.players_names;
      width = d.max_x;
      height = d.max_y;
    } in
    let start : GameEvent = record { event_no = 0; body = new_game got } in
    let enough : ltb d.players_num 2 ≡ false = ground (arith, two) in
    let checked : check_event v start ≡ some u = rw enough refl in
    let rest : Started d (next_event u) = record {
      players = refl;
      names = names_Printable d.players_names names short;
      all_named = n ∙ sym (length-map c_string d.players_names);
      wide = refl;
      high = refl;
    } in
    let p =
      play_one v u start (map received es) m (sym first) checked
        (inr (refl, new_game-HasLine d names n short))
        (play-Started d (next_event u) es m rest
          (subst (λ k. Numbered ((k + 1) % 2 ^ 32) es m) (sym first) numbered) h) in
    (p.last, p.lines, p.played, p.counted, p.fitting)
