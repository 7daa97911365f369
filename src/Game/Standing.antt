-- ===== src/Game/Standing.antt =====
-- Where the players of a game stand, and what one player does in one round: it stays dead, keeps its
-- pixel, eats a free pixel, or dies.
use sik_screen_worms.Prelude.{
  ℕ, suc, ◌<◌, ◌≡◌, ◌∙◌, refl, sym, ap, subst, ◌⊎◌, Bool, true, false, ◌||◌, ◌&&◌, ◌==◌, some, List,
  [], ◌∷◌, if◌then◌else◌, arith,
}
use sik_screen_worms.GameBoard.{GameBoard, game_board_get}
use sik_screen_worms.GameBoard.Bytes.{bit_at-bit_or}
use sik_screen_worms.GameBoard.Layout.{IsBoard}
use sik_screen_worms.GameBoard.Pixels.{Sets}
use sik_screen_worms.Messages.{Pixel, pixel}
use sik_screen_worms.Game.{Player, ps_in_game, ps_dead, has_flag, set_flag}
use sik_screen_worms.Game.Reals.{Reals}
use sik_screen_worms.Game.Tick.{Round, add_event, next_player, eliminate, turn}

-- The board has the size of the game.
pub record BoardOf (w h : ℕ) (b : GameBoard) : Type 0 where
  pub valid : IsBoard b
  pub width_of : b.width ≡ w
  pub height_of : b.height ≡ h

module _ {Pos : Type 0} where
  abbrev pub dead : Player Pos → Bool
  dead p = has_flag p.status ps_dead

  -- The number of players that are alive.
  abbrev pub alive : List (Player Pos) → ℕ
  alive [] = 0
  alive (p ∷ ps) = if dead p then alive ps else suc (alive ps)

pub dead_flag : (s : ℕ) → s < 256 → has_flag (set_flag s ps_dead) ps_dead ≡ true
dead_flag s h = bit_at-bit_or 2 2 s (omega arith) (omega arith) h

pub in_game_flag : (s : ℕ) → s < 256 → has_flag (set_flag s ps_in_game) ps_in_game ≡ true
in_game_flag s h = bit_at-bit_or 1 1 s (omega arith) (omega arith) h

pub dead-in_game_flag :
    (s : ℕ) → s < 256 → has_flag (set_flag s ps_in_game) ps_dead ≡ has_flag s ps_dead
dead-in_game_flag s h = bit_at-bit_or 1 2 s (omega arith) (omega arith) h

module _ (R : Reals) where
  open R use {Pos, cell, step_x, step_y, outside}

  -- A player is dead, or in the game and on the board.
  pub record Stands (w h : ℕ) (p : Player Pos) : Type 0 where
    pub byte : p.status < 256
    pub placed :
        (dead p ≡ true)
        ⊎ ((dead p ≡ false)
            × (has_flag p.status ps_in_game ≡ true)
            × (cell p.x_pos < w)
            × (cell p.y_pos < h))

  abbrev pub pixel_at : Round → Player Pos → Pixel
  pixel_at r p = record { player_number = r.player_num; x = cell p.x_pos; y = cell p.y_pos }

  -- The way of a player is blocked: the place is off the board, or its pixel is eaten.
  abbrev pub Blocked : Bool → GameBoard → Player Pos → Type 0
  Blocked off b q =
      (off ≡ true) ⊎ ((off ≡ false) × (game_board_get b (cell q.x_pos) (cell q.y_pos) ≡ some true))

  -- A living player on a new place, `off` the board or on it, with the state of the loop before and
  -- after: it eats a free pixel, or it dies where its way is blocked.
  pub data Comes (off : Bool) (q : Player Pos) (r : Round) (p' : Player Pos) (r' : Round)
      : Type 0 where
    eats :
        (board : GameBoard)
        → off ≡ false
        → game_board_get r.board (cell q.x_pos) (cell q.y_pos) ≡ some false
        → Sets r.board (cell q.x_pos) (cell q.y_pos) board
        → p' ≡ q
        → r' ≡ add_event (record r { board = board }) (pixel (pixel_at r q))
        → Comes off q r p' r'
    dies :
        Blocked off r.board q
        → p' ≡ record q { status = set_flag q.status ps_dead }
        → r' ≡ eliminate r
        → Comes off q r p' r'

  abbrev pub leaves_board : ℕ → ℕ → Player Pos → Bool
  leaves_board w h q = outside q.x_pos w || outside q.y_pos h

  -- The player after the turn and the step.
  abbrev pub moved : ℕ → Player Pos → Player Pos
  moved turning_speed p =
      let direction = turn turning_speed p.turn_direction p.direction in
      record p {
        direction = direction;
        x_pos = step_x direction p.x_pos;
        y_pos = step_y direction p.y_pos;
      }

  abbrev pub same_pixel : Player Pos → Player Pos → Bool
  same_pixel p q = cell p.x_pos == cell q.x_pos && cell p.y_pos == cell q.y_pos

  -- One player in one round of a game.
  pub data Moves (speed w h : ℕ) (p : Player Pos) (r : Round) (p' : Player Pos) (r' : Round)
      : Type 0 where
    rests : dead p ≡ true → p' ≡ p → r' ≡ r → Moves speed w h p r p' r'
    stays :
        dead p ≡ false
        → same_pixel p (moved speed p) ≡ true
        → p' ≡ moved speed p
        → r' ≡ r
        → Moves speed w h p r p' r'
    comes :
        dead p ≡ false
        → same_pixel p (moved speed p) ≡ false
        → Comes (leaves_board w h (moved speed p)) (moved speed p) r p' r'
        → Moves speed w h p r p' r'

  -- A step of one player after the other, `player_num` going up by one for each of them.
  pub data Plays (Step : Player Pos → Round → Player Pos → Round → Type 0)
      : List (Player Pos) → Round → List (Player Pos) → Round → Type 0 where
    nobody : {r : Round} → Plays Step [] r [] r
    acts :
        {p p' : Player Pos} {ps ps' : List (Player Pos)} {r r' r'' : Round}
        → Step p r p' r'
        → Plays Step ps (next_player r') ps' r''
        → Plays Step (p ∷ ps) r (p' ∷ ps') r''

  -- What a step does to the flags of the player, the count of the living and the events.
  pub data Acts (p : Player Pos) (r : Round) (p' : Player Pos) (r' : Round) : Type 0 where
    idles : p'.status ≡ p.status → r' ≡ r → Acts p r p' r'
    gains :
        dead p ≡ false
        → p'.status ≡ p.status
        → (board : GameBoard) → game_board_get r.board (cell p'.x_pos) (cell p'.y_pos) ≡ some false
        → Sets r.board (cell p'.x_pos) (cell p'.y_pos) board
        → r' ≡ add_event (record r { board = board }) (pixel (pixel_at r p'))
        → Acts p r p' r'
    loses :
        dead p ≡ false → p'.status ≡ set_flag p.status ps_dead → r' ≡ eliminate r → Acts p r p' r'

  pub Comes-Acts :
      (off : Bool) (p q : Player Pos) (r : Round) (p' : Player Pos) (r' : Round)
      → dead p ≡ false
      → q.status ≡ p.status
      → Comes off q r p' r'
      → Acts p r p' r'
  Comes-Acts off p q r p' r' lives same (eats board on free sets e f) =
      gains lives (ap (λ (x : Player Pos). x.status) e ∙ same) board
        (ap (λ (x : Player Pos). game_board_get r.board (cell x.x_pos) (cell x.y_pos)) e ∙ free)
        (subst (λ (x : Player Pos). Sets r.board (cell x.x_pos) (cell x.y_pos) board) (sym e) sets)
        (f
          ∙ ap (λ (x : Player Pos). add_event (record r { board = board }) (pixel (pixel_at r x)))
              (sym e))
  Comes-Acts off p q r p' r' lives same (dies blocked e f) =
      loses lives (ap (λ (x : Player Pos). x.status) e ∙ ap (λ s. set_flag s ps_dead) same) f

  pub Moves-Acts :
      (speed w h : ℕ) (p : Player Pos) (r : Round) (p' : Player Pos) (r' : Round)
      → Moves speed w h p r p' r'
      → Acts p r p' r'
  Moves-Acts speed w h p r p' r' (rests d e f) = idles (ap (λ (x : Player Pos). x.status) e) f
  Moves-Acts speed w h p r p' r' (stays d s e f) = idles (ap (λ (x : Player Pos). x.status) e) f
  Moves-Acts speed w h p r p' r' (comes d s c) =
      Comes-Acts (leaves_board w h (moved speed p)) p (moved speed p) r p' r' d refl c

  pub Plays-map :
      (S T : Player Pos → Round → Player Pos → Round → Type 0)
      (view : (p : Player Pos) (r : Round) (p' : Player Pos) (r' : Round)
        → S p r p' r'
        → T p r p' r')
      (ps : List (Player Pos)) (r : Round) (ps' : List (Player Pos)) (r' : Round)
      → Plays S ps r ps' r'
      → Plays T ps r ps' r'
  Plays-map S T view _ r _ _ nobody = nobody
  Plays-map S T view _ r _ r'' (acts {p = p} {p' = p'} {r' = r'} a rest) =
      acts (view p r p' r' a) (Plays-map S T view _ (next_player r') _ r'' rest)
