-- ===== src/Server.antt =====
-- server/main.c: what the handlers of the event loop do to the state of the server, and the
-- datagrams that they hand to `send`. The arguments are what the system calls give: the bytes of
-- a datagram, the file descriptors of a new client, which datagrams are sent whole (for each call of
-- `send_events` a function of its own), and whether memory is found for the events stored. The timers
-- of the clients are not part of the state.
pub mod Publishing
pub mod Loop
use sik_screen_worms.Prelude.{
  ℕ, ◌+◌, Bool, true, ◌&&◌, not, Option, none, some, List, [], ◌∷◌, ◌++◌, ltb, if◌then◌else◌,
}
use sik_screen_worms.Memory.{◌>>=◌}
use sik_screen_worms.Messages.{ClientMessage, GameEvent, ok, refused, fault}
use sik_screen_worms.Messages.Client.{deserialize_client_message}
use sik_screen_worms.EventsStorage.{EventStorage, event_storage_create, event_storage_push}
use sik_screen_worms.SendEvents.{send_events}
use sik_screen_worms.Clients.{
  Client, Clients, named, clients_new_client, clients_delete_client, clients_find_by_name,
}
use sik_screen_worms.Game.{Game}
use sik_screen_worms.Game.Reals.{Reals}
use sik_screen_worms.Game.Lobby.{game_add_player, game_remove_player, game_set_turn_direction}
use sik_screen_worms.Game.Tick.{game_tick}

-- The global variables. `buffer` holds 1024 bytes.
pub record Server (Pos : Type 0) : Type 0 where
  pub game : Game Pos
  pub rand : ℕ
  pub clients : Clients
  pub event_storage : EventStorage
  pub is_game_in_progress : Bool
  pub buffer : List ℕ

-- The datagrams sent, each list to one socket.
abbrev pub Sent : Type 0
Sent = List (ℕ × List (List ℕ))

module _ (R : Reals) where
  open R use {Pos}

  -- `send_events` to one client.
  unfoldable pub handle_client_request : (ℕ → Bool) → Server Pos → Client → ℕ → Option Sent
  handle_client_request whole s client event_no =
      send_events s.event_storage whole s.buffer s.game.game_id event_no >>= λ datagrams.
      some ((client.sock_fd, datagrams) ∷ [])

  -- One client whose timer ran out.
  unfoldable pub handle_timeout : Server Pos → Client → Option (Server Pos)
  handle_timeout s client = clients_delete_client s.clients client.session_id >>= λ clients.
      some (record s { game = (game_remove_player s.game client.session_id).0; clients = clients })

  -- A datagram on the socket of the server. The file descriptors are those of the new client.
  unfoldable pub handle_new_client :
      (ℕ → Bool) → Server Pos → List ℕ → ℕ → ℕ → ℕ → Option (Server Pos × Sent)
  unfolding handle_client_request
  handle_new_client whole s bytes num_bytes sock_fd timer_fd =
      elim (deserialize_client_message bytes num_bytes) [
        | fault ↦ none
        | refused ↦ some (s, [])
        | ok message ↦ known message.0 (clients_find_by_name s.clients message.0.player_name)
      ]
    where
      -- Behind `clients_new_client`.
      join : ClientMessage → Clients × Option Client → Option (Server Pos × Sent)
      join m (clients, none) = some (record s { clients = clients }, [])
      join m (clients, some client) =
          let joined : Server Pos = record s {
            clients = clients;
            game = game_add_player R s.game client.session_id client.player_name;
          } in
          handle_client_request whole joined client m.next_expected_event_no >>= λ sent.
          some (joined, sent)

      -- A name that a client has already is ignored.
      create : ClientMessage → Option (Server Pos × Sent)
      create m = clients_new_client s.clients m.session_id sock_fd timer_fd m.player_name >>= join m

      known : ClientMessage → Option Client → Option (Server Pos × Sent)
      known m none = create m
      known m (some client) =
          let created = create m in if named m.player_name then some (s, []) else created

  -- The last datagram on the socket of a client. The branch that would reconnect the client stands
  -- behind the same condition and is never taken.
  unfoldable pub handle_client_message :
      (ℕ → Bool) → Server Pos → Client → List ℕ → ℕ → Option (Server Pos × Sent)
  unfolding handle_client_request
  handle_client_message whole s client bytes num_bytes =
      elim (deserialize_client_message bytes num_bytes) [
        | fault ↦ none
        | refused ↦ some (s, [])
        | ok message ↦
            if ltb message.0.session_id client.session_id then some (s, []) else turned message.0
      ]
    where
      turned : ClientMessage → Option (Server Pos × Sent)
      turned m =
          let after : Server Pos = record s {
            game = (game_set_turn_direction s.game client.session_id m.turn_direction).0;
          } in
          handle_client_request whole after client m.next_expected_event_no >>= λ sent.
          some (after, sent)

  -- `event_storage_push` of each event, from event `n` of the list on. `memory n` says whether memory
  -- is found for its index and for its bytes, if the storage has to grow for it. The result of the
  -- push is not looked at.
  unfoldable pub push_events :
      (ℕ → Bool × Bool) → EventStorage → List GameEvent → ℕ → Option EventStorage
  push_events memory storage [] n = some storage
  push_events memory storage (e ∷ es) n =
      event_storage_push (memory n).0 (memory n).1 storage e >>= λ pushed.
      push_events memory pushed.0 es (n + 1)

  -- `send_events` to each client, from client `k` of the list on; `sends k` says which datagrams to
  -- it are sent whole.
  unfoldable pub send_to_all : (ℕ → ℕ → Bool) → Server Pos → List Client → ℕ → ℕ → Option Sent
  unfolding handle_client_request
  send_to_all sends s [] k event_no = some []
  send_to_all sends s (c ∷ cs) k event_no = do
    first ← handle_client_request (sends k) s c event_no
    rest ← send_to_all sends s cs (k + 1) event_no
    some (first ++ rest)

  -- The storage at the start of a game is a new one.
  unfoldable pub storage_for : Bool → Bool → EventStorage → EventStorage
  storage_for was now storage = if not was && now then event_storage_create else storage

  -- Behind `game_tick`, with its events.
  unfoldable pub publish :
      (ℕ → Bool × Bool)
      → (ℕ → ℕ → Bool)
      → Server Pos
      → Game Pos
      → ℕ
      → List GameEvent
      → Option (Server Pos × Sent)
  unfolding push_events send_to_all storage_for
  publish memory sends s game rand events = do
    storage ←
        push_events memory (storage_for s.is_game_in_progress game.in_progress s.event_storage)
          events 0
    let after = record s {
      game = game;
      rand = rand;
      event_storage = storage;
      is_game_in_progress = game.in_progress;
    }
    sent ← elim events [
      | [] ↦ some []
      | e ∷ es ↦ send_to_all sends after after.clients.clients_list 0 e.event_no
    ]
    some (after, sent)

  unfoldable pub handle_round :
      (ℕ → Bool × Bool) → (ℕ → ℕ → Bool) → Server Pos → Option (Server Pos × Sent)
  unfolding publish
  handle_round memory sends s = game_tick R s.game s.rand >>= λ t. ticked t.0 t.1 t.2
    where
      ticked : Game Pos → ℕ → Option (List GameEvent) → Option (Server Pos × Sent)
      ticked game rand none = some (record s { game = game; rand = rand }, [])
      ticked game rand (some events) = publish memory sends s game rand events
