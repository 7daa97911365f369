-- ===== src/Game/Safety.antt =====
-- A game never fails an assert, whatever its clients do.
use sik_screen_worms.Prelude.{
  ℕ, ◌≡◌, inl, inr, refl, ap, ◌∙◌, Bool, Option, some, List, [], ◌∷◌, if◌then◌else◌, Bool-cases,
}
use sik_screen_worms.Memory.{◌>>=◌}
use sik_screen_worms.Game.{Game}
use sik_screen_worms.Game.Reals.{Reals}
use sik_screen_worms.Game.Lobby.{game_remove_player, game_set_turn_direction, game_add_player}
use sik_screen_worms.Game.Tick.{game_tick_in_progress, game_tick_waiting, game_tick}
use sik_screen_worms.Game.Invariant.{
  IsGame, game_set_turn_direction-IsGame, game_remove_player-IsGame, game_add_player-IsGame,
}
use sik_screen_worms.Game.Progress.{game_tick_in_progress-IsGame}
use sik_screen_worms.Game.Waiting.{game_tick_waiting-IsGame}

-- A call of one of the operations of a game; a tick takes the state of the generator along.
pub data Call : Type 0 where
  tick : Call
  joins : ℕ → List ℕ → Call
  leaves : ℕ → Call
  turns : ℕ → ℕ → Call

module _ (R : Reals) where
  open R use {Pos}

  unfoldable pub call : Call → Game Pos → ℕ → Option (Game Pos × ℕ)
  unfolding game_tick
  call tick g rand = game_tick R g rand >>= λ t. some (t.0, t.1)
  call (joins id name) g rand = some (game_add_player R g id name, rand)
  call (leaves id) g rand = some ((game_remove_player g id).0, rand)
  call (turns id d) g rand = some ((game_set_turn_direction g id d).0, rand)

  unfoldable pub run : List Call → Game Pos → ℕ → Option (Game Pos × ℕ)
  unfolding call
  run [] g rand = some (g, rand)
  run (c ∷ cs) g rand = call c g rand >>= λ t. run cs t.0 t.1

  call-IsGame :
      (c : Call) (g : Game Pos) (rand : ℕ)
      → IsGame R g
      → (g' : Game Pos) × (rand' : ℕ) × (call c g rand ≡ some (g', rand')) × IsGame R g'
  unfolding call
  call-IsGame tick g rand v = elim (Bool-cases g.in_progress) [
    | inl e ↦
        let (g', ps', r', events, done, valid, _, _, _) = game_tick_in_progress-IsGame R g v e in
        (g', rand, ap (λ t. tick_result t) e ∙ rw done, valid)
    | inr e ↦
        let (g', rand', events, done, valid, _) = game_tick_waiting-IsGame R g rand v e in
        (g', rand', ap (λ t. tick_result t) e ∙ rw done, valid)
  ]
    where
      tick_result : Bool → Option (Game Pos × ℕ)
      tick_result b =
          (if b
            then (game_tick_in_progress R g >>= λ t. some (t.0, rand, some t.1))
            else game_tick_waiting R g rand)
          >>= λ t. some (t.0, t.1)
  call-IsGame (joins id name) g rand v =
      (game_add_player R g id name, rand, refl, game_add_player-IsGame R g id name v)
  call-IsGame (leaves id) g rand v =
      ((game_remove_player g id).0, rand, refl, game_remove_player-IsGame R g id v)
  call-IsGame (turns id d) g rand v =
      ((game_set_turn_direction g id d).0, rand, refl, game_set_turn_direction-IsGame R g id d v)

  -- From a game with the invariant, any sequence of rounds, players that join, leave and turn runs
  -- to its end: no assert fails, no pixel outside the board is read or written, and the invariant
  -- holds again.
  pub run-IsGame :
      (cs : List Call) (g : Game Pos) (rand : ℕ)
      → IsGame R g
      → (g' : Game Pos) × (rand' : ℕ) × (run cs g rand ≡ some (g', rand')) × IsGame R g'
  unfolding run
  run-IsGame [] g rand v = (g, rand, refl, v)
  run-IsGame (c ∷ cs) g rand v =
      let (g', rand', done, valid) = call-IsGame c g rand v in
      let (g'', rand'', rest, valid') = run-IsGame cs g' rand' valid in
      (g'', rand'', rw (done, rest), valid')
