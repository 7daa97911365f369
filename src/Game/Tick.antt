-- ===== src/Game/Tick.antt =====
-- `game_tick`: the start of a game, and one round of a game in progress. The state of the random
-- number generator is passed on beside the game.
use sik_screen_worms.Prelude.{
  ℕ, ◌+◌, ◌-◌, ◌%◌, ◌^◌, Bool, true, ◌&&◌, ◌||◌, Option, none, some, List, [], ◌∷◌, ◌++◌, ltb, leb,
  ◌==◌, if◌then◌else◌, length, map,
}
use sik_screen_worms.Memory.{◌>>=◌}
use sik_screen_worms.Rand.{rand_get}
use sik_screen_worms.GameBoard.{GameBoard, game_board_get, game_board_set}
use sik_screen_worms.Messages.{EventData, new_game, pixel, player_eliminated, game_over, GameEvent}
use sik_screen_worms.Game.{Player, Game, ps_in_game, ps_dead, has_flag, set_flag}
use sik_screen_worms.Game.Reals.{Reals}
use sik_screen_worms.Game.Sorting.{sort_players}
use sik_screen_worms.Game.Lobby.{game_restart}

-- PD_RIGHT is 1 and PD_LEFT is 2; the direction is a `uint32_t`.
unfoldable pub turn : ℕ → ℕ → ℕ → ℕ
turn turning_speed turn_direction direction =
    if turn_direction == 1
    then (if leb 360 ((direction + turning_speed) % 2 ^ 32)
        then 0
        else (direction + turning_speed) % 2 ^ 32)
    else if turn_direction == 2
    then (if leb 360 ((direction + 2 ^ 32 - turning_speed) % 2 ^ 32)
        then 359
        else (direction + 2 ^ 32 - turning_speed) % 2 ^ 32)
    else direction

-- What the loops over the players change beside the players themselves.
pub record Round : Type 0 where
  pub board : GameBoard
  pub players_alive : ℕ
  pub next_event_no : ℕ
  pub player_num : ℕ
  pub events : List GameEvent

-- `event.event_no = game->next_event_no++` and `list_add(events, &event)`.
unfoldable pub add_event : Round → EventData → Round
add_event r body = record r {
  next_event_no = (r.next_event_no + 1) % 2 ^ 32;
  events = r.events ++ (record { event_no = r.next_event_no; body = body } ∷ []);
}

-- `player_num++` at the end of each round of a loop.
unfoldable pub next_player : Round → Round
next_player r = record r { player_num = (r.player_num + 1) % 256 }

-- A player dies: `status |= PS_DEAD`, one less is alive, and the event says so.
unfoldable pub eliminate : Round → Round
unfolding add_event
eliminate r =
    add_event (record r { players_alive = (r.players_alive + 2 ^ 32 - 1) % 2 ^ 32 })
      (player_eliminated r.player_num)

-- A player eats a pixel.
unfoldable pub eat : Round → ℕ → ℕ → Option Round
unfolding add_event
eat r x y = game_board_set r.board x y >>= λ board. some (
    add_event (record r { board = board })
      (pixel (record { player_number = r.player_num; x = x; y = y })))

module _ (R : Reals) where
  open R use {Pos, centre, cell, step_x, step_y, outside}

  -- The player comes to the pixel: it dies, or eats the pixel.
  unfoldable pub visit : Player Pos → Round → Bool → ℕ → ℕ → Option (Player Pos × Round)
  unfolding eliminate eat
  visit p r dead x y =
      if dead
      then some (record p { status = set_flag p.status ps_dead }, eliminate r)
      else (eat r x y >>= λ r'. some (p, r'))

  -- `dead`: off the board, or on a pixel already eaten, which is looked up on the board only.
  unfoldable pub hits : Round → ℕ → ℕ → Player Pos → ℕ → ℕ → Option Bool
  hits r width height p x y =
      if outside p.x_pos width || outside p.y_pos height
      then some true
      else game_board_get r.board x y

  -- One player in one round.
  unfoldable pub move_player : ℕ → ℕ → ℕ → Player Pos → Round → Option (Player Pos × Round)
  unfolding turn visit hits
  move_player width height turning_speed p r =
      if has_flag p.status ps_dead
      then some (p, r)
      else if has_flag p.status ps_in_game
          && (ltb (cell p.x_pos) width && ltb (cell p.y_pos) height)
      then (let direction = turn turning_speed p.turn_direction p.direction in
          let moved = record p {
            direction = direction;
            x_pos = step_x direction p.x_pos;
            y_pos = step_y direction p.y_pos;
          } in
          let x = cell moved.x_pos in
          let y = cell moved.y_pos in
          if cell p.x_pos == x && cell p.y_pos == y
          then some (moved, r)
          else (hits r width height moved x y >>= λ dead. visit moved r dead x y))
      else none

  unfoldable pub move_players :
      ℕ → ℕ → ℕ → List (Player Pos) → Round → Option (List (Player Pos) × Round)
  move_players width height turning_speed [] r = some ([], r)
  move_players width height turning_speed (p ∷ ps) r = do
    (p', r') ← move_player width height turning_speed p r
    (ps', r'') ← move_players width height turning_speed ps (next_player r')
    some (p' ∷ ps', r'')

  abbrev pub start_round : Game Pos → Round
  start_round g = record {
    board = g.board;
    players_alive = g.players_alive;
    next_event_no = g.next_event_no;
    player_num = 0;
    events = [];
  }

  abbrev pub end_round : Game Pos → List (Player Pos) → Round → Game Pos
  end_round g players r = record g {
    players = players;
    board = r.board;
    players_alive = r.players_alive;
    next_event_no = r.next_event_no;
  }

  -- The end of a round: with at most one player alive the game is over.
  unfoldable pub finish_round : Game Pos → List (Player Pos) → Round → Game Pos × List GameEvent
  unfolding game_restart add_event
  finish_round g players r =
      if leb r.players_alive 1
      then (
        game_restart (end_round g players (add_event r game_over)),
        (add_event r game_over).events,
      )
      else (end_round g players r, r.events)

  unfoldable pub game_tick_in_progress : Game Pos → Option (Game Pos × List GameEvent)
  unfolding finish_round
  game_tick_in_progress g =
      move_players g.width g.height g.turning_speed g.players (start_round g) >>= λ t.
      some (finish_round g t.0 t.1)

  -- The placing of one player at the start, with the state of the generator.
  unfoldable pub place_player : ℕ → ℕ → Player Pos → Round → ℕ → Option (Player Pos × Round × ℕ)
  unfolding rand_get visit
  place_player width height p r rand0 =
      if width == 0 || height == 0
      then none
      else (let (rx, rand1) = rand_get rand0 in
          let (ry, rand2) = rand_get rand1 in
          let (rd, rand3) = rand_get rand2 in
          let placed = record p {
            x_pos = centre (rx % width);
            y_pos = centre (ry % height);
            direction = rd % 360;
            status = set_flag p.status ps_in_game;
          } in
          let x = cell placed.x_pos in
          let y = cell placed.y_pos in
          if ltb x width && ltb y height
          then (game_board_get r.board x y >>= λ taken.
              visit placed r taken x y >>= λ v. some (v.0, v.1, rand3))
          else none)

  unfoldable pub place_players :
      ℕ → ℕ → List (Player Pos) → Round → ℕ → Option (List (Player Pos) × Round × ℕ)
  place_players width height [] r rand = some ([], r, rand)
  place_players width height (p ∷ ps) r rand = do
    (p', r', rand') ← place_player width height p r rand
    (ps', r'', rand'') ← place_players width height ps (next_player r') rand'
    some (p' ∷ ps', r'', rand'')

  -- The game with its players sorted, before they are placed, and the first event.
  unfoldable pub new_game_event : Game Pos → EventData
  new_game_event g = new_game (record {
    max_x = g.width % 2 ^ 32;
    max_y = g.height % 2 ^ 32;
    players_num = length g.players % 256;
    players_names = g.players_names;
  })

  unfoldable pub begin_game : Game Pos → ℕ → Game Pos
  unfolding sort_players
  begin_game g game_id = record g {
    in_progress = true;
    game_id = game_id;
    players = sort_players g.waiting;
    waiting = g.players;
    players_alive = length g.waiting % 2 ^ 32;
    players_names = map (λ p. p.player_name) (sort_players g.waiting);
  }

  -- NULL, for no start, is the inner `none`.
  unfoldable pub game_tick_waiting : Game Pos → ℕ → Option (Game Pos × ℕ × Option (List GameEvent))
  unfolding begin_game new_game_event rand_get add_event
  game_tick_waiting g rand =
      if ltb 1 g.players_ready && length g.waiting == g.players_ready
      then (do
        let (game_id, rand0) = rand_get rand
        let started = begin_game g game_id
        let first = add_event (start_round started) (new_game_event started)
        (players, r, rand') ← place_players g.width g.height started.players first rand0
        some (end_round started players r, rand', some r.events))
      else some (g, rand, none)

  unfoldable pub game_tick : Game Pos → ℕ → Option (Game Pos × ℕ × Option (List GameEvent))
  unfolding game_tick_in_progress game_tick_waiting
  game_tick g rand =
      if g.in_progress
      then (game_tick_in_progress g >>= λ t. some (t.0, rand, some t.1))
      else game_tick_waiting g rand
