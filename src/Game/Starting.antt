-- ===== src/Game/Starting.antt =====
-- The start of a game: the loop that places the players runs to its end and leaves every player
-- standing or eliminated.
use sik_screen_worms.Prelude.{
  ℕ, suc, ◌%◌, ◌^◌, ◌<◌, ◌≡◌, refl, ap, ◌∙◌, arith, Bool, true, false, ◌&&◌, ◌||◌, some, List, [],
  ◌∷◌, All, length, ltb, ◌==◌, lt→ltb,
}
use sik_screen_worms.Rand.{rand_get}
use sik_screen_worms.GameBoard.{game_board_get}
use sik_screen_worms.GameBoard.Layout.{eaten, game_board_get-eaten}
use sik_screen_worms.Game.{Player, ps_waiting, ps_in_game, ps_dead, has_flag, set_flag}
use sik_screen_worms.Game.Reals.{Reals}
use sik_screen_worms.Game.Tick.{Round, next_player, place_player, place_players}
use sik_screen_worms.Game.Standing.{
  BoardOf, dead, alive, Stands, Comes, Comes-Acts, Acts, Plays, Plays-map, nobody, acts,
  dead-in_game_flag, in_game_flag,
}
use sik_screen_worms.Game.Moving.{Settled, visit-Comes}

module _ (R : Reals) where
  open R use {Pos, cell, centre, cell-centre}

  abbrev pub Waits : Player Pos → Type 0
  Waits p = p.status ≡ ps_waiting

  -- The player as it is put on the board: in the game and not dead, with its session and name.
  pub record Placed (p q : Player Pos) : Type 0 where
    pub in_game : q.status ≡ set_flag p.status ps_in_game
    pub same_session : q.session_id ≡ p.session_id
    pub same_name : q.player_name ≡ p.player_name
    pub turned : q.direction < 360

  abbrev pub AllPlaced : List (Player Pos) → List (Player Pos) → Type 0
  AllPlaced [] [] = Unit {0}
  AllPlaced (p ∷ ps) (q ∷ qs) = Placed p q × AllPlaced ps qs
  AllPlaced _ _ = ⊥

  -- A player that has been put on the board: it eats its pixel or dies on it.
  pub data Settles (q : Player Pos) (r : Round) (p' : Player Pos) (r' : Round) : Type 0 where
    settles : dead q ≡ false → Comes R false q r p' r' → Settles q r p' r'

  Settles-Acts :
      (q : Player Pos) (r : Round) (p' : Player Pos) (r' : Round)
      → Settles q r p' r'
      → Acts R q r p' r'
  Settles-Acts q r p' r' (settles lives new) = Comes-Acts R false q q r p' r' lives refl new

  pub Settles-Plays :
      (qs : List (Player Pos)) (r : Round) (ps' : List (Player Pos)) (r' : Round)
      → Plays R Settles qs r ps' r'
      → Plays R (Acts R) qs r ps' r'
  Settles-Plays qs r ps' r' m = Plays-map R Settles (Acts R) Settles-Acts qs r ps' r' m

  module _ (w h : ℕ) (sw : w < 2 ^ 32) (sh : h < 2 ^ 32) (pw : 0 < w) (ph : 0 < h) where
    pub place_player-Comes :
        (p : Player Pos) (r : Round) (rand : ℕ)
        → Waits p
        → BoardOf w h r.board
        → (q p' : Player Pos) × (r' : Round) × (rand' : ℕ) × (place_player R w h p r rand
            ≡ some (p', r', rand'))
          × Placed p q
          × (dead q ≡ false)
          × Comes R false q r p' r'
          × Settled R w h sw sh p' r'
    unfolding place_player
    place_player-Comes p r rand waits b =
        let rx : ℕ = (rand_get rand).0 in
        let rand1 : ℕ = (rand_get rand).1 in
        let ry : ℕ = (rand_get rand1).0 in
        let rand2 : ℕ = (rand_get rand1).1 in
        let q : Player Pos = record p {
          x_pos = centre (rx % w);
          y_pos = centre (ry % h);
          direction = (rand_get rand2).0 % 360;
          status = set_flag p.status ps_in_game;
        } in
        let in_w : cell q.x_pos < w =
          omega (arith, pw, cell-centre (rx % w) (omega (arith, sw, pw))) in
        let in_h : cell q.y_pos < h =
          omega (arith, ph, cell-centre (ry % h) (omega (arith, sh, ph))) in
        let small : p.status < 256 = omega (arith, waits) in
        let lives : dead q ≡ false =
          dead-in_game_flag p.status small ∙ ap (λ s. has_flag s ps_dead) waits in
        let taken : Bool = eaten r.board (cell q.x_pos) (cell q.y_pos) in
        let found : game_board_get r.board (cell q.x_pos) (cell q.y_pos) ≡ some taken =
          game_board_get-eaten r.board b.valid (cell q.x_pos) (cell q.y_pos)
            (omega (arith, b.width_of, in_w)) (omega (arith, b.height_of, in_h)) in
        let (p', r', done, new, settled) =
          visit-Comes R w h sw sh q r false (omega arith) b taken lives refl in_w in_h
            (in_game_flag p.status small) found in
        let sized : (w == 0 || h == 0) ≡ false = ground (arith, pw, ph) in
        let test : (ltb (cell q.x_pos) w && ltb (cell q.y_pos) h) ≡ true =
          rw (lt→ltb _ _ in_w, lt→ltb _ _ in_h) in
        (
          q,
          p',
          r',
          (rand_get rand2).1,
          rw (sized, test, found, done),
          record { in_game = refl; same_session = refl; same_name = refl; turned = omega arith },
          lives,
          new,
          settled,
        )

    -- Placing players that wait, on a board of at least one pixel.
    pub place_players-Plays :
        (ps : List (Player Pos)) (r : Round) (rand : ℕ)
        → All Waits ps
        → BoardOf w h r.board
        → (qs ps' : List (Player Pos)) × (r' : Round) × (rand' : ℕ) × (place_players R w h ps r rand
            ≡ some (ps', r', rand'))
          × AllPlaced ps qs
          × Plays R Settles qs r ps' r'
          × All (Stands R w h) ps'
          × BoardOf w h r'.board
    unfolding place_players next_player
    place_players-Plays [] r rand waits b = ([], [], r, rand, refl, tt, nobody, tt, b)
    place_players-Plays (p ∷ ps) r rand (wait, waits) b =
        let (q, p', r', rand', done, placed, lives, new, settled) =
          place_player-Comes p r rand wait b in
        let (qs, ps', r'', rand'', rest, placed_rest, plays, stand, b') =
          place_players-Plays ps (next_player r') rand' waits settled.board_of in
        (
          q ∷ qs,
          p' ∷ ps',
          r'',
          rand'',
          rw (done, rest),
          (placed, placed_rest),
          acts (settles lives new) plays,
          (settled.stands, stand),
          b',
        )

    -- All who are placed count as alive.
    pub AllPlaced-alive :
        (ps qs : List (Player Pos))
        → All Waits ps
        → AllPlaced ps qs
        → (alive qs ≡ length ps) × All (λ (q : Player Pos). q.status < 256) qs
    AllPlaced-alive [] [] waits placed = (refl, tt)
    AllPlaced-alive [] (q ∷ qs) waits placed = elim placed [ ]
    AllPlaced-alive (p ∷ ps) [] waits placed = elim placed [ ]
    AllPlaced-alive (p ∷ ps) (q ∷ qs) (wait, waits) (placed, rest) =
        let (count, bytes) = AllPlaced-alive ps qs waits rest in
        let lives : dead q ≡ false =
          ap (λ s. has_flag s ps_dead) placed.in_game
          ∙ dead-in_game_flag p.status (omega (arith, wait))
          ∙ ap (λ s. has_flag s ps_dead) wait in
        (rw lives (ap suc count), (omega (arith, placed.in_game), bytes))

    pub AllPlaced-length : (ps qs : List (Player Pos)) → AllPlaced ps qs → length qs ≡ length ps
    AllPlaced-length [] [] placed = refl
    AllPlaced-length [] (q ∷ qs) placed = elim placed [ ]
    AllPlaced-length (p ∷ ps) [] placed = elim placed [ ]
    AllPlaced-length (p ∷ ps) (q ∷ qs) (placed, rest) = ap suc (AllPlaced-length ps qs rest)
