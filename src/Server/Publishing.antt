-- ===== src/Server/Publishing.antt =====
-- The events of a round are stored behind those of the game so far, and every client is sent them.
use sik_screen_worms.Prelude.{
  ℕ, ◌+◌, ◌≤◌, ◌≡◌, refl, sym, ap, ◌∙◌, subst, arith, Bool, true, false, if◌then◌else◌, some, List,
  [], ◌∷◌, ◌++◌, length, All, append-nil, append_assoc,
}
use sik_screen_worms.Memory.{be_bytes}
use sik_screen_worms.Messages.{GameEvent}
use sik_screen_worms.Messages.Encoding.{event_bytes, IsEvent}
use sik_screen_worms.EventsStorage.{EventStorage, event_storage_create}
use sik_screen_worms.EventsStorage.Stored.{Stores, event_storage_create-Stores}
use sik_screen_worms.EventsStorage.Push.{event_storage_push-Stores}
use sik_screen_worms.SendEvents.Packing.{pack}
use sik_screen_worms.SendEvents.Datagrams.{handed, datagrams, send_events-handed}
use sik_screen_worms.Clients.{Client}
use sik_screen_worms.Game.{Game}
use sik_screen_worms.Game.Reals.{Reals}
use sik_screen_worms.Server.{
  Server, Sent, handle_client_request, push_events, send_to_all, storage_for, publish,
}

-- An event that a datagram holds and that the storage has room for.
abbrev pub Fits : ℕ → GameEvent → Type 0
Fits capacity e = (4 + length (event_bytes e) ≤ 550) × (length (event_bytes e) ≤ capacity)

module _ (R : Reals) where
  open R use {Pos}

  pub push_events-Stores :
      (memory : ℕ → Bool × Bool) (storage : EventStorage) (before events : List GameEvent)
      (capacity n : ℕ)
      → ((i : ℕ) → memory i ≡ (true, true))
      → Stores storage before
      → capacity ≤ storage.block_capacity
      → All IsEvent events
      → All (Fits capacity) events
      → (after : EventStorage) × (push_events R memory storage events n ≡ some after)
        × Stores after (before ++ events)
  unfolding push_events
  push_events-Stores memory storage before [] capacity n found h c v f =
      (storage, refl, subst (Stores storage) (sym (append-nil before)) h)
  push_events-Stores memory storage before (e ∷ es) capacity n found h c (v, vs)
        ((small, short), f) =
      let (pushed, done, stores, more) =
        event_storage_push-Stores storage before e h v (omega (arith, small))
          (omega (arith, h.below, short, c)) in
      let (after, rest, all) =
        push_events-Stores memory pushed (before ++ (e ∷ [])) es capacity (n + 1) found stores
          (omega (arith, c, more)) vs f in
      (after, rw (found n, done, rest), subst (Stores after) (append_assoc before (e ∷ []) es) all)

  -- What each client is sent, by its socket, from client `k` on: the datagrams up to the first that
  -- is not sent whole to it.
  abbrev pub to_each : (ℕ → ℕ → Bool) → List Client → ℕ → List (List ℕ) → Sent
  to_each sends [] k grams = []
  to_each sends (c ∷ cs) k grams =
      (c.sock_fd, handed (sends k) 0 grams) ∷ to_each sends cs (k + 1) grams

  send_to_all-handed :
      (sends : ℕ → ℕ → Bool) (s : Server Pos) (clients : List Client) (k : ℕ)
      (front back : List GameEvent) (e : GameEvent)
      → Stores s.event_storage (front ++ (e ∷ back))
      → All (λ x. 4 + length (event_bytes x) ≤ 550) (e ∷ back)
      → length s.buffer ≡ 1024
      → send_to_all R sends s clients k (length front)
        ≡ some
            (to_each sends clients k (datagrams (be_bytes 4 s.game.game_id) (pack (e ∷ []) back)))
  unfolding send_to_all handle_client_request
  send_to_all-handed sends s [] k front back e h small size = refl
  send_to_all-handed sends s (c ∷ cs) k front back e h small size =
      let one =
        send_events-handed s.event_storage front back e (sends k) s.buffer s.game.game_id h small
          size in
      rw (one, send_to_all-handed sends s cs (k + 1) front back e h small size)

  Fits-small :
      (capacity : ℕ) (es : List GameEvent)
      → All (Fits capacity) es
      → All (λ x. 4 + length (event_bytes x) ≤ 550) es
  Fits-small capacity [] h = tt
  Fits-small capacity (e ∷ es) ((small, _), h) = (small, Fits-small capacity es h)

  abbrev pub with_storage : Server Pos → Game Pos → ℕ → EventStorage → Server Pos
  with_storage s game rand storage = record s {
    game = game;
    rand = rand;
    event_storage = storage;
    is_game_in_progress = game.in_progress;
  }

  publish_lem :
      (memory : ℕ → Bool × Bool) (sends : ℕ → ℕ → Bool) (s : Server Pos) (game : Game Pos)
      (rand : ℕ) (e : GameEvent) (es : List GameEvent) (storage : EventStorage) (sent : Sent)
      → push_events R memory
          (storage_for R s.is_game_in_progress game.in_progress s.event_storage)
          (e ∷ es)
          0
        ≡ some storage
      → send_to_all R sends (with_storage s game rand storage) s.clients.clients_list 0 e.event_no
        ≡ some sent
      → publish R memory sends s game rand (e ∷ es) ≡ some (with_storage s game rand storage, sent)
  unfolding publish
  publish_lem memory sends s game rand e es storage sent pushed run = rw (publish, pushed, run)

  -- The events before: none at the start of a game, otherwise those that the storage holds.
  pub data Follows (s : Server Pos) (game : Game Pos) : List GameEvent → Type 0 where
    starts : s.is_game_in_progress ≡ false → game.in_progress ≡ true → Follows s game []
    goes_on :
        (before : List GameEvent)
        → s.is_game_in_progress ≡ true
        → Stores s.event_storage before
        → Follows s game before

  -- The capacity of the storage: a new one has 128 bytes.
  abbrev pub room_of : Server Pos → ℕ
  room_of s = if s.is_game_in_progress then s.event_storage.block_capacity else 128

  storage_for-Stores :
      (s : Server Pos) (game : Game Pos) (before : List GameEvent)
      → Follows s game before
      → Stores (storage_for R s.is_game_in_progress game.in_progress s.event_storage) before
        × (room_of s
            ≤ (storage_for R s.is_game_in_progress game.in_progress s.event_storage).block_capacity)
  unfolding storage_for event_storage_create
  storage_for-Stores s game none_yet (starts was now) =
      rw (was, now) (event_storage_create-Stores, omega arith)
  storage_for-Stores s game before (goes_on held was h) = rw was (h, omega arith)

  -- The events of a round are published, memory being found for them: the storage, a new one at the
  -- start of a game, then holds the events before and the new ones, and each client, in the order of
  -- the list, is handed the datagrams of the new events and of no other, one after the other, until
  -- one is not sent whole to this client. The first new event carries the number of events before,
  -- each event can be encoded and fits a datagram, and none is longer than the capacity of the
  -- storage.
  pub publish-handed :
      (memory : ℕ → Bool × Bool) (sends : ℕ → ℕ → Bool) (s : Server Pos) (game : Game Pos)
      (rand : ℕ) (before : List GameEvent) (e : GameEvent) (es : List GameEvent)
      → ((i : ℕ) → memory i ≡ (true, true))
      → Follows s game before
      → e.event_no ≡ length before
      → length s.buffer ≡ 1024
      → All IsEvent (e ∷ es)
      → All (Fits (room_of s)) (e ∷ es)
      → (after : Server Pos) × (publish R memory sends s game rand (e ∷ es)
          ≡ some (
            after,
            to_each sends s.clients.clients_list 0
                (datagrams (be_bytes 4 game.game_id) (pack (e ∷ []) es)),
          ))
        × Stores after.event_storage (before ++ (e ∷ es))
        × (after.is_game_in_progress ≡ game.in_progress)
  publish-handed memory sends s game rand before e es found follows n size v f =
      let old : EventStorage =
        storage_for R s.is_game_in_progress game.in_progress s.event_storage in
      let (h, room) = storage_for-Stores s game before follows in
      let (storage, pushed, stores) =
        push_events-Stores memory old before (e ∷ es) (room_of s) 0 found h room v f in
      let after : Server Pos = with_storage s game rand storage in
      let sent =
        send_to_all-handed sends after s.clients.clients_list 0 before es e stores
          (Fits-small (room_of s) (e ∷ es) f) size in
      (
        after,
        publish_lem memory sends s game rand e es storage _ pushed
            (ap (send_to_all R sends after s.clients.clients_list 0) n ∙ sent),
        stores,
        refl,
      )
