-- ===== src/Game/Waiting.antt =====
-- The start of a game, by `game_tick_waiting`.
use sik_screen_worms.Prelude.{
  ℕ, ◌+◌, ◌%◌, ◌^◌, ◌<◌, ◌≤◌, ◌≡◌, ◌≢◌, ◌⊎◌, inl, inr, refl, sym, ◌∙◌, arith, true, false, ◌&&◌,
  Option, none, some, List, [], ◌∷◌, All, length, ltb, ◌==◌, Bool-cases,
}
use sik_screen_worms.Rand.{rand_get}
use sik_screen_worms.Messages.{GameEvent}
use sik_screen_worms.GameBoard.{game_board_get}
use sik_screen_worms.Game.{Player, Game}
use sik_screen_worms.Game.Reals.{Reals}
use sik_screen_worms.Game.Sorting.{sort_players}
use sik_screen_worms.Game.Tick.{
  Round, add_event, start_round, end_round, new_game_event, begin_game, game_tick_waiting,
}
use sik_screen_worms.Game.Standing.{alive, Plays}
use sik_screen_worms.Game.Emitting.{Emits, Numbered, EatenBetween, Distinct, Tells}
use sik_screen_worms.Game.Rounds.{Plays-Emits, Plays-alive, Plays-length}
use sik_screen_worms.Game.Starting.{
  Waits, AllPlaced, Settles, Settles-Plays, place_players-Plays, AllPlaced-alive, AllPlaced-length,
}
use sik_screen_worms.Game.Ordering.{All-perm, length-perm, sort_players-Sorted}
use sik_screen_worms.Game.Invariant.{IsGame}

module _ (R : Reals) where
  open R use {Pos}

  abbrev first_round : Game Pos → ℕ → Round
  first_round g game_id =
      add_event (start_round R (begin_game R g game_id)) (new_game_event R (begin_game R g game_id))

  -- The start of a game: its players, and its events NEW_GAME and one for each player.
  pub record Starts (g g' : Game Pos) (events : List GameEvent) : Type 0 where
    pub game_id : ℕ
    pub playing : g'.in_progress ≡ true
    pub new : List GameEvent
    pub first :
        events
        ≡ record { event_no = g.next_event_no; body = new_game_event R (begin_game R g game_id) }
          ∷ new
    pub numbered : Numbered ((g.next_event_no + 1) % 2 ^ 32) new g'.next_event_no
    pub pixels : All (λ (e : GameEvent). EatenBetween g.board g'.board e.body) new
    pub distinct : Distinct new
    pub told :
        (x y : ℕ)
        → game_board_get g.board x y ≡ some false
        → game_board_get g'.board x y ≡ some true
        → Tells x y new
    -- The players as they are put on the board, and the state of the loop behind them.
    pub on_board : List (Player Pos)
    pub after : Round
    pub placed : AllPlaced R (sort_players g.waiting) on_board
    pub plays : Plays R (Settles R) on_board (first_round g game_id) g'.players after
    pub same_board : g'.board ≡ after.board
    pub all_events : events ≡ after.events
    pub everyone : length g'.players ≡ length g.waiting
    pub nobody_waits : g'.waiting ≡ []

  pub game_tick_waiting-IsGame :
      (g : Game Pos) (rand : ℕ)
      → IsGame R g
      → g.in_progress ≡ false
      → (g' : Game Pos) × (rand' : ℕ) × (events : Option (List GameEvent)) × (game_tick_waiting R g
            rand
          ≡ some (g', rand', events))
        × IsGame R g'
        × ((((g.players_ready < 2) ⊎ (length g.waiting ≢ g.players_ready))
              × (events ≡ none)
              × (g' ≡ g)
              × (rand' ≡ rand))
            ⊎ ((es : List GameEvent) × (events ≡ some es)
                × (2 ≤ g.players_ready)
                × (length g.waiting ≡ g.players_ready)
                × Starts g g' es))
  unfolding game_tick_waiting begin_game add_event
  game_tick_waiting-IsGame g rand v idle =
      elim (Bool-cases (ltb 1 g.players_ready && length g.waiting == g.players_ready)) [
        | inl e ↦
            let id : ℕ = (rand_get rand).0 in
            let sorted : List (Player Pos) = sort_players g.waiting in
            let perm = (sort_players-Sorted g.waiting).0 in
            let waits : All (Waits R) sorted = All-perm (Waits R) g.waiting sorted perm v.waits in
            let (qs, ps', r', rand', done, placed, plays, stand, board) =
              place_players-Plays R g.width g.height v.sized.small_w v.sized.small_h v.sized.some_w
                v.sized.some_h sorted (first_round g id) (rand_get rand).1 waits v.board_of in
            let (count, bytes) =
              AllPlaced-alive R g.width g.height v.sized.small_w v.sized.small_h v.sized.some_w
                v.sized.some_h sorted qs waits placed in
            let size : length g.waiting ≡ length sorted = length-perm g.waiting sorted perm in
            let effects = Settles-Plays R qs (first_round g id) ps' r' plays in
            let alive_now : r'.players_alive ≡ (alive ps' + 0) % 2 ^ 32 =
              Plays-alive R qs (first_round g id) ps' r' 0 effects bytes
                (omega (arith, count, size)) in
            let everyone : length ps' ≡ length g.waiting =
              Plays-length R qs (first_round g id) ps' r' effects
              ∙ AllPlaced-length R g.width g.height v.sized.small_w v.sized.small_h v.sized.some_w
                  v.sized.some_h sorted qs placed
              ∙ sym size in
            let m : Emits (first_round g id) r' =
              Plays-Emits R qs (first_round g id) ps' r' effects in
            (
              end_round R (begin_game R g id) ps' r',
              rand',
              some r'.events,
              rw (e, done),
              record {
                sized = v.sized;
                board_of = board;
                waits = rw (v.emptied idle) tt;
                stands = stand;
                counted = λ q. alive_now ∙ omega arith;
                emptied = λ q. cc q;
              },
              inr (
                r'.events,
                refl,
                ground (arith, e),
                ground (arith, e),
                record {
                  game_id = id;
                  playing = refl;
                  new = m.new;
                  first = m.appended;
                  numbered = m.numbered;
                  pixels = m.pixels;
                  distinct = m.distinct;
                  told = m.told;
                  on_board = qs;
                  after = r';
                  placed = placed;
                  plays = plays;
                  same_board = refl;
                  all_events = refl;
                  everyone = everyone;
                  nobody_waits = v.emptied idle;
                },
              ),
            )
        | inr e ↦ (g, rand, none, rw e, v, inl (starts_not e, refl, refl, refl))
      ]
    where
      starts_not :
          (ltb 1 g.players_ready && length g.waiting == g.players_ready) ≡ false
          → (g.players_ready < 2) ⊎ (length g.waiting ≢ g.players_ready)
      starts_not e = ground (arith, e)
