-- ===== src/Game/Invariant.antt =====
-- The invariant of a game, and the operations of clients that keep it.
use sik_screen_worms.Prelude.{
  ℕ, suc, ◌%◌, ◌^◌, ◌<◌, ◌≡◌, inl, inr, refl, sym, ap, ◌∙◌, arith, Bool, true, false, List, [], ◌∷◌,
  All, All-append, ◌==◌, if◌then◌else◌, Bool-cases, Option-cases, subst, get_or, some,
}
use sik_screen_worms.GameBoard.{game_board_create}
use sik_screen_worms.GameBoard.Bytes.{bit_at-bit_or}
use sik_screen_worms.GameBoard.Pixels.{game_board_create-IsBoard}
use sik_screen_worms.Game.{Player, Game, ps_disconnected, set_flag}
use sik_screen_worms.Game.Reals.{Reals}
use sik_screen_worms.Game.Lobby.{
  change_player, remove_player, has_player, find_player, game_remove_player,
  game_set_turn_direction, initial_game, game_create, player_create, add_observer, add_player,
  game_add_player,
}
use sik_screen_worms.Game.Standing.{BoardOf, dead, alive, Stands}
use sik_screen_worms.Game.Starting.{Waits}

-- A board of at least one pixel whose sides fit a `uint32_t`.
pub record IsSize (w h : ℕ) : Type 0 where
  pub small_w : w < 2 ^ 32
  pub small_h : h < 2 ^ 32
  pub some_w : 0 < w
  pub some_h : 0 < h

pub create-BoardOf : (w h : ℕ) → IsSize w h → BoardOf w h (game_board_create w h)
unfolding game_board_create
create-BoardOf w h s = record {
  valid = game_board_create-IsBoard w h (grind (arith, s.small_w, s.small_h));
  width_of = refl;
  height_of = refl;
}

module _ (R : Reals) where
  open R use {Pos, cell}

  pub record IsGame (g : Game Pos) : Type 0 where
    pub sized : IsSize g.width g.height
    pub board_of : BoardOf g.width g.height g.board
    pub waits : All (Waits R) g.waiting
    pub stands : All (Stands R g.width g.height) g.players
    pub counted : g.in_progress ≡ true → g.players_alive ≡ alive g.players % 2 ^ 32
    pub emptied : g.in_progress ≡ false → g.players ≡ []

  abbrev set_direction : ℕ → Player Pos → Player Pos
  set_direction d p = record p { turn_direction = d }

  abbrev disconnect : Player Pos → Player Pos
  disconnect p = record p { status = set_flag p.status ps_disconnected }

  All-change :
      (P : Player Pos → Type 0) (f : Player Pos → Player Pos) (ps : List (Player Pos)) (id : ℕ)
      → ((p : Player Pos) → P p → P (f p))
      → All P ps
      → All P (change_player f ps id)
  unfolding change_player
  All-change P f [] id k h = tt
  All-change P f (p ∷ ps) id k (q, h) = elim (Bool-cases (p.session_id == id)) [
    | inl e ↦ rw e (k p q, h)
    | inr e ↦ rw e (q, All-change P f ps id k h)
  ]

  All-remove :
      (P : Player Pos → Type 0) (ps : List (Player Pos)) (id : ℕ)
      → All P ps
      → All P (remove_player ps id)
  unfolding remove_player
  All-remove P [] id h = tt
  All-remove P (p ∷ ps) id (q, h) = elim (Bool-cases (p.session_id == id)) [
    | inl e ↦ rw e h
    | inr e ↦ rw e (q, All-remove P ps id h)
  ]

  -- A change that leaves the flag PS_DEAD alone leaves the number of the living alone.
  alive-change :
      (f : Player Pos → Player Pos) (ps : List (Player Pos)) (id : ℕ)
      → All (λ (p : Player Pos). dead (f p) ≡ dead p) ps
      → alive (change_player f ps id) ≡ alive ps
  unfolding change_player
  alive-change f [] id k = refl
  alive-change f (p ∷ ps) id (k, ks) = elim (Bool-cases (p.session_id == id)) [
    | inl e ↦ rw e (ap (λ d. if d then alive ps else suc (alive ps)) k)
    | inr e ↦ rw (e, alive-change f ps id ks)
  ]

  All-direction :
      (d : ℕ) (ps : List (Player Pos))
      → All (λ (p : Player Pos). dead (set_direction d p) ≡ dead p) ps
  All-direction d [] = tt
  All-direction d (p ∷ ps) = (refl, All-direction d ps)

  direction-Stands :
      (w h d : ℕ) (p : Player Pos) → Stands R w h p → Stands R w h (set_direction d p)
  direction-Stands w h d p s = record { byte = s.byte; placed = s.placed }

  disconnect-dead : (p : Player Pos) → p.status < 256 → dead (disconnect p) ≡ dead p
  disconnect-dead p b = bit_at-bit_or 3 2 p.status (omega arith) (omega arith) b

  disconnect-Stands : (w h : ℕ) (p : Player Pos) → Stands R w h p → Stands R w h (disconnect p)
  disconnect-Stands w h p s = record {
    byte = omega arith;
    placed = elim s.placed [
      | inl d ↦ inl (disconnect-dead p s.byte ∙ d)
      | inr (lives, playing, x, y) ↦ inr (
        disconnect-dead p s.byte ∙ lives,
        bit_at-bit_or 3 1 p.status (omega arith) (omega arith) s.byte ∙ playing,
        x,
        y,
      )
    ];
  }

  All-disconnect :
      (w h : ℕ) (ps : List (Player Pos))
      → All (Stands R w h) ps
      → All (λ (p : Player Pos). dead (disconnect p) ≡ dead p) ps
  All-disconnect w h [] s = tt
  All-disconnect w h (p ∷ ps) (s, ss) = (disconnect-dead p s.byte, All-disconnect w h ps ss)

  pub initial_game-IsGame : (w h speed : ℕ) → IsSize w h → IsGame (initial_game R w h speed)
  unfolding initial_game
  initial_game-IsGame w h speed s = record {
    sized = s;
    board_of = create-BoardOf w h s;
    waits = tt;
    stands = tt;
    counted = λ e. cc;
    emptied = λ e. refl;
  }

  -- A game that is created, when memory is found.
  game_create-IsGame :
      (memory parts : Bool) (w h speed : ℕ) (g : Game Pos)
      → IsSize w h
      → game_create R memory parts w h speed ≡ some g
      → IsGame g
  unfolding game_create
  game_create-IsGame true true w h speed g s e =
      let same : initial_game R w h speed ≡ g = ground (arith, e) in
      subst IsGame same (initial_game-IsGame w h speed s)
  game_create-IsGame true false w h speed g s e = cc
  game_create-IsGame false parts w h speed g s e = cc

  unchanged : (g : Game Pos) (r : Game Pos × Bool) → r ≡ (g, false) → IsGame g → IsGame r.0
  unchanged g r e v = subst (λ t. IsGame t.0) (sym e) v

  pub game_set_turn_direction-IsGame :
      (g : Game Pos) (id d : ℕ) → IsGame g → IsGame (game_set_turn_direction g id d).0
  unfolding game_set_turn_direction
  game_set_turn_direction-IsGame g id d v = elim (Bool-cases g.in_progress) [
    | inl e ↦ elim (Bool-cases (has_player g.players id)) [
      | inl k ↦
          rw (e, k)
            (record {
              sized = v.sized;
              board_of = v.board_of;
              waits = v.waits;
              stands =
                  All-change (Stands R g.width g.height) (set_direction d) g.players id
                    (direction-Stands g.width g.height d) v.stands;
              counted = λ q.
                  v.counted e
                  ∙ ap (λ n. n % 2 ^ 32)
                      (sym
                        (alive-change (set_direction d) g.players id (All-direction d g.players)));
              emptied = λ q. cc q;
            })
      | inr k ↦ unchanged g (game_set_turn_direction g id d) (simp (e, k)) v
    ]
    | inr e ↦ elim (Option-cases (find_player g.waiting id)) [
      | inl k ↦ unchanged g (game_set_turn_direction g id d) (simp (e, k)) v
      | inr (player, k) ↦
          rw (e, k)
            (record {
              sized = v.sized;
              board_of = v.board_of;
              waits = All-change (Waits R) (set_direction d) g.waiting id (λ p h. h) v.waits;
              stands = v.stands;
              counted = λ q. cc q;
              emptied = λ q. v.emptied e;
            })
    ]
  ]

  pub game_remove_player-IsGame :
      (g : Game Pos) (id : ℕ) → IsGame g → IsGame (game_remove_player g id).0
  unfolding game_remove_player has_player
  game_remove_player-IsGame g id v = elim (Bool-cases (has_player g.observers id)) [
    | inl o ↦ rw o (record {
      sized = v.sized;
      board_of = v.board_of;
      waits = v.waits;
      stands = v.stands;
      counted = v.counted;
      emptied = v.emptied;
    })
    | inr o ↦ elim (Bool-cases (has_player g.waiting id)) [
      | inl w ↦
          rw (o, w)
            (record {
              sized = v.sized;
              board_of = v.board_of;
              waits = All-remove (Waits R) g.waiting id v.waits;
              stands = v.stands;
              counted = v.counted;
              emptied = v.emptied;
            })
      | inr w ↦ elim (Bool-cases (has_player g.players id)) [
        | inl k ↦
            rw (o, w, k)
              (record {
                sized = v.sized;
                board_of = v.board_of;
                waits = v.waits;
                stands =
                    All-change (Stands R g.width g.height) disconnect g.players id
                      (disconnect-Stands g.width g.height) v.stands;
                counted = λ q.
                    v.counted q
                    ∙ ap (λ n. n % 2 ^ 32)
                        (sym (
                          alive-change disconnect g.players id
                            (All-disconnect g.width g.height g.players v.stands)));
                emptied = λ q. ap (λ ps. change_player disconnect ps id) (v.emptied q);
              })
        | inr k ↦ rw (o, w, k) v
      ]
    ]
  ]

  pub game_add_player-IsGame :
      (g : Game Pos) (id : ℕ) (name : List ℕ) → IsGame g → IsGame (game_add_player R g id name)
  unfolding game_add_player add_observer add_player player_create has_player
  game_add_player-IsGame g id name v = elim (Bool-cases (get_or name 0 0 == 0)) [
    | inl z ↦ elim (Bool-cases (has_player g.observers id)) [
      | inl o ↦ rw (z, o) v
      | inr o ↦
          rw (z, o)
            (record {
              sized = v.sized;
              board_of = v.board_of;
              waits = v.waits;
              stands = v.stands;
              counted = v.counted;
              emptied = v.emptied;
            })
    ]
    | inr z ↦ elim (Bool-cases (has_player g.players id)) [
      | inl k ↦ rw (z, k) v
      | inr k ↦ elim (Bool-cases (has_player g.waiting id)) [
        | inl w ↦ rw (z, k, w) v
        | inr w ↦
            rw (z, k, w)
              (record {
                sized = v.sized;
                board_of = v.board_of;
                waits = All-append (Waits R) g.waiting _ v.waits (refl, tt);
                stands = v.stands;
                counted = v.counted;
                emptied = v.emptied;
              })
      ]
    ]
  ]
