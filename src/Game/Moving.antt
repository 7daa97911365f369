-- ===== src/Game/Moving.antt =====
-- One player: `move_player` fails no assert, does not leave the board, and does what `Moves` says.
use sik_screen_worms.Prelude.{
  ℕ, ◌^◌, ◌<◌, ◌≡◌, inl, inr, refl, ◌∙◌, arith, Bool, true, false, ◌&&◌, ◌||◌, some, ltb, ◌==◌,
  Bool-cases, lt→ltb,
}
use sik_screen_worms.Memory.{◌>>=◌}
use sik_screen_worms.GameBoard.{game_board_get}
use sik_screen_worms.GameBoard.Layout.{eaten, game_board_get-eaten}
use sik_screen_worms.GameBoard.Pixels.{game_board_set-Sets}
use sik_screen_worms.Messages.{pixel}
use sik_screen_worms.Game.{Player, ps_in_game, ps_dead, has_flag, set_flag}
use sik_screen_worms.Game.Reals.{Reals}
use sik_screen_worms.Game.Tick.{Round, add_event, eliminate, eat, visit, hits, move_player}
use sik_screen_worms.Game.Standing.{
  BoardOf, dead, Stands, Blocked, Comes, eats, dies, leaves_board, Moves, rests, stays, comes,
  moved, pixel_at, dead_flag,
}

module _ (R : Reals) (w h : ℕ) (small_w : w < 2 ^ 32) (small_h : h < 2 ^ 32) where
  open R use {Pos, cell, step_x, step_y, outside, cell-inside}

  -- What a step leaves behind: the board keeps its size, the player stands.
  pub record Settled (p' : Player Pos) (r' : Round) : Type 0 where
    pub board_of : BoardOf w h r'.board
    pub stands : Stands R w h p'

  module _ (q : Player Pos) (r : Round) (off : Bool) (byte : q.status < 256)
      (b : BoardOf w h r.board) where
    -- Coming to an eaten pixel, or to no pixel.
    visit-dies :
        (x y : ℕ)
        → Blocked R off r.board q
        → (q' : Player Pos) × (r' : Round) × (visit R q r true x y ≡ some (q', r'))
          × Comes R off q r q' r'
          × Settled q' r'
    unfolding visit eliminate add_event
    visit-dies x y blocked = (
      record q { status = set_flag q.status ps_dead },
      eliminate r,
      refl,
      dies blocked refl refl,
      record {
        board_of = b;
        stands = record { byte = omega arith; placed = inl (dead_flag q.status byte) };
      },
    )

    -- Coming to a free pixel of the board.
    visit-eats :
        dead q ≡ false
        → off ≡ false
        → cell q.x_pos < w
        → cell q.y_pos < h
        → has_flag q.status ps_in_game ≡ true
        → game_board_get r.board (cell q.x_pos) (cell q.y_pos) ≡ some false
        → (q' : Player Pos) × (r' : Round) × (visit R q r false (cell q.x_pos) (cell q.y_pos)
            ≡ some (q', r'))
          × Comes R off q r q' r'
          × Settled q' r'
    unfolding visit eat add_event
    visit-eats lives on in_w in_h playing free =
        let x : ℕ = cell q.x_pos in
        let y : ℕ = cell q.y_pos in
        let (board, done, sets) =
          game_board_set-Sets r.board b.valid x y (omega (arith, b.width_of, in_w))
            (omega (arith, b.height_of, in_h)) in
        (
          q,
          add_event (record r { board = board }) (pixel (pixel_at R r q)),
          rw done,
          eats board on free sets refl refl,
          record {
            board_of = record {
              valid = sets.valid;
              width_of = sets.same_width ∙ b.width_of;
              height_of = sets.same_height ∙ b.height_of;
            };
            stands = record { byte = byte; placed = inr (lives, playing, in_w, in_h) };
          },
        )

    pub visit-Comes :
        (taken : Bool)
        → dead q ≡ false
        → off ≡ false
        → cell q.x_pos < w
        → cell q.y_pos < h
        → has_flag q.status ps_in_game ≡ true
        → game_board_get r.board (cell q.x_pos) (cell q.y_pos) ≡ some taken
        → (q' : Player Pos) × (r' : Round) × (visit R q r taken (cell q.x_pos) (cell q.y_pos)
            ≡ some (q', r'))
          × Comes R off q r q' r'
          × Settled q' r'
    visit-Comes true lives on in_w in_h playing found =
        visit-dies (cell q.x_pos) (cell q.y_pos) (inr (on, found))
    visit-Comes false lives on in_w in_h playing found = visit-eats lives on in_w in_h playing found

    pub visit_off-Comes :
        off ≡ true
        → (q' : Player Pos) × (r' : Round) × (visit R q r true (cell q.x_pos) (cell q.y_pos)
            ≡ some (q', r'))
          × Comes R off q r q' r'
          × Settled q' r'
    visit_off-Comes out = visit-dies (cell q.x_pos) (cell q.y_pos) (inl out)

  -- The player comes to another pixel, on the board or not.
  arrives :
      (q : Player Pos) (r : Round)
      → q.status < 256
      → BoardOf w h r.board
      → dead q ≡ false
      → has_flag q.status ps_in_game ≡ true
      → (q' : Player Pos) × (r' : Round) × ((hits R r w h q (cell q.x_pos) (cell q.y_pos) >>= λ d.
            visit R q r d (cell q.x_pos) (cell q.y_pos))
          ≡ some (q', r'))
        × Comes R (leaves_board R w h q) q r q' r'
        × Settled q' r'
  unfolding hits
  arrives q r byte b lives playing = elim (Bool-cases (outside q.x_pos w || outside q.y_pos h)) [
    | inl out ↦
        let (q', r', done, new, settled) = visit_off-Comes q r (leaves_board R w h q) byte b out in
        (q', r', rw (out, done), new, settled)
    | inr on ↦
        let in_w : cell q.x_pos < w = cell-inside q.x_pos w small_w (ground arith) in
        let in_h : cell q.y_pos < h = cell-inside q.y_pos h small_h (ground arith) in
        let (taken, found) = found_pixel in_w in_h in
        let (q', r', done, new, settled) =
          visit-Comes q r (leaves_board R w h q) byte b taken lives on in_w in_h playing found in
        (q', r', rw (on, found, done), new, settled)
  ]
    where
      found_pixel :
          cell q.x_pos < w
          → cell q.y_pos < h
          → (taken : Bool) × (game_board_get r.board (cell q.x_pos) (cell q.y_pos) ≡ some taken)
      found_pixel in_w in_h = (
        eaten r.board (cell q.x_pos) (cell q.y_pos),
        game_board_get-eaten r.board b.valid (cell q.x_pos) (cell q.y_pos)
            (omega (arith, b.width_of, in_w)) (omega (arith, b.height_of, in_h)),
      )

  -- A player that stands does in one round what `Moves` says, and stands again.
  pub move_player-Moves :
      (turning_speed : ℕ) (p : Player Pos) (r : Round)
      → Stands R w h p
      → BoardOf w h r.board
      → (p' : Player Pos) × (r' : Round) × (move_player R w h turning_speed p r ≡ some (p', r'))
        × Moves R turning_speed w h p r p' r'
        × Settled p' r'
  unfolding move_player
  move_player-Moves turning_speed p r s b = elim s.placed [
    | inl d ↦ (p, r, rw d, rests d refl refl, record { board_of = b; stands = s })
    | inr (lives, playing, in_w, in_h) ↦
        let q : Player Pos = moved R turning_speed p in
        let test : (has_flag p.status ps_in_game && (ltb (cell p.x_pos) w && ltb (cell p.y_pos) h))
            ≡ true =
          rw (playing, lt→ltb _ _ in_w, lt→ltb _ _ in_h) in
        elim (Bool-cases (cell p.x_pos == cell q.x_pos && cell p.y_pos == cell q.y_pos)) [
          | inl same ↦ (
            q,
            r,
            rw (lives, test, same),
            stays lives same refl refl,
            record {
              board_of = b;
              stands = record {
                byte = s.byte;
                placed = inr (lives, playing, ground (arith, same), ground (arith, same));
              };
            },
          )
          | inr other ↦
              let (q', r', done, new, settled) = arrives q r s.byte b lives playing in
              (q', r', rw (lives, test, other) done, comes lives other new, settled)
        ]
  ]
