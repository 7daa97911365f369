-- ===== src/Game/Progress.antt =====
-- A round of a game in progress, its events and its end, and the restart.
use sik_screen_worms.Prelude.{
  ◌+◌, ◌%◌, ◌^◌, ◌≤◌, ◌≡◌, inl, inr, refl, arith, true, false, some, List, [], ◌∷◌, ◌++◌, map, All,
  leb, Bool-cases,
}
use sik_screen_worms.Messages.{GameEvent, game_over}
use sik_screen_worms.Game.{Player, Game}
use sik_screen_worms.Game.Reals.{Reals}
use sik_screen_worms.Game.Lobby.{connected, rest_player, game_restart}
use sik_screen_worms.Game.Tick.{
  Round, add_event, start_round, end_round, finish_round, game_tick_in_progress,
}
use sik_screen_worms.Game.Standing.{BoardOf, alive, Stands, Moves, Plays}
use sik_screen_worms.Game.Emitting.{Emits}
use sik_screen_worms.Game.Rounds.{
  Moves-Plays, Plays-Emits, Plays-alive, Stands-bytes, move_players-Plays,
}
use sik_screen_worms.Game.Starting.{Waits}
use sik_screen_worms.Game.Invariant.{IsSize, IsGame, create-BoardOf}

module _ (R : Reals) where
  open R use {Pos}

  All-rest : (ps : List (Player Pos)) → All (Waits R) (map rest_player ps)
  unfolding rest_player
  All-rest [] = tt
  All-rest (p ∷ ps) = (refl, All-rest ps)

  game_restart-IsGame : (g : Game Pos) → IsSize g.width g.height → IsGame R (game_restart g)
  unfolding game_restart
  game_restart-IsGame g s = record {
    sized = s;
    board_of = create-BoardOf g.width g.height s;
    waits = All-rest (g.waiting ++ connected g.players);
    stands = tt;
    counted = λ e. cc;
    emptied = λ e. refl;
  }

  -- What a round of a game comes to, with its players `ps`: the game goes on with at least two
  -- of them alive (counted by a `uint32_t`), or fewer are and it has been restarted behind a last
  -- event GAME_OVER.
  pub data RoundEnd (ps : List (Player Pos)) (r : Round) (g' : Game Pos) (events : List GameEvent)
      : Type 0 where
    goes_on :
        g'.in_progress ≡ true
        → g'.board ≡ r.board
        → g'.next_event_no ≡ r.next_event_no
        → events ≡ r.events
        → g'.players ≡ ps
        → 2 ≤ alive ps % 2 ^ 32
        → RoundEnd ps r g' events
    over :
        alive ps % 2 ^ 32 ≤ 1
        → g'.in_progress ≡ false
        → g'.next_event_no ≡ 0
        → events ≡ r.events ++ (record { event_no = r.next_event_no; body = game_over } ∷ [])
        → RoundEnd ps r g' events

  finish_round-IsGame :
      (g : Game Pos) (ps' : List (Player Pos)) (r' : Round)
      → IsGame R g
      → g.in_progress ≡ true
      → All (Stands R g.width g.height) ps'
      → BoardOf g.width g.height r'.board
      → r'.players_alive ≡ alive ps' % 2 ^ 32
      → IsGame R (finish_round R g ps' r').0
        × RoundEnd ps' r' (finish_round R g ps' r').0 (finish_round R g ps' r').1
  unfolding finish_round add_event
  finish_round-IsGame g ps' r' v going s b count = elim (Bool-cases (leb r'.players_alive 1)) [
    | inl e ↦ rw e (
      game_restart-IsGame (end_round R g ps' (add_event r' game_over)) v.sized,
      ended (ground (arith, count, e)),
    )
    | inr e ↦ rw e (
      record {
        sized = v.sized;
        board_of = b;
        waits = v.waits;
        stands = s;
        counted = λ q. count;
        emptied = λ q. cc (q, going);
      },
      goes_on going refl refl refl refl (ground (arith, count, e)),
    )
  ]
    where
      ended :
          alive ps' % 2 ^ 32 ≤ 1
          → RoundEnd ps' r'
              (game_restart (end_round R g ps' (add_event r' game_over)))
              ((add_event r' game_over).events)
      ended few = unfold game_restart in over few refl refl refl

  pub game_tick_in_progress-IsGame :
      (g : Game Pos)
      → IsGame R g
      → g.in_progress ≡ true
      → (g' : Game Pos) × (ps' : List (Player Pos)) × (r' : Round) × (events : List GameEvent)
        × (game_tick_in_progress R g ≡ some (g', events))
        × IsGame R g'
        × Plays R (Moves R g.turning_speed g.width g.height) g.players (start_round R g) ps' r'
        × Emits (start_round R g) r'
        × RoundEnd ps' r' g' events
  unfolding game_tick_in_progress
  game_tick_in_progress-IsGame g v going =
      let (ps', r', done, plays, stand, board) =
        move_players-Plays R g.width g.height v.sized.small_w v.sized.small_h g.turning_speed
          g.players (start_round R g) v.stands v.board_of in
      let effects =
        Moves-Plays R g.turning_speed g.width g.height g.players (start_round R g) ps' r' plays in
      let count : r'.players_alive ≡ (alive ps' + 0) % 2 ^ 32 =
        Plays-alive R g.players (start_round R g) ps' r' 0 effects
          (Stands-bytes R g.width g.height g.players v.stands) (omega (arith, v.counted going)) in
      let (valid, end) = finish_round-IsGame g ps' r' v going stand board (omega (arith, count)) in
      (
        (finish_round R g ps' r').0,
        ps',
        r',
        (finish_round R g ps' r').1,
        rw done,
        valid,
        plays,
        Plays-Emits R g.players (start_round R g) ps' r' effects,
        end,
      )
