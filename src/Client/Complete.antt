-- ===== src/Client/Complete.antt =====
-- A client that gets the datagrams of the server, in order, shows all of their events: how the
-- server cut them into datagrams does not matter.
use sik_screen_worms.Prelude.{
  ℕ, ◌+◌, ◌≤◌, ◌<◌, ◌^◌, ◌≡◌, refl, sym, ap, ◌∙◌, subst, arith, true, Option, some, List, [], ◌∷◌,
  ◌++◌, length, map, All,
}
use mathlib.Core.List.{flatten, map-append}
use sik_screen_worms.Memory.{be_bytes}
use sik_screen_worms.Messages.{GameEvent, ok}
use sik_screen_worms.Messages.Encoding.{event_bytes, received, IsEvent}
use sik_screen_worms.EventsStorage.{EventStorage}
use sik_screen_worms.EventsStorage.Stored.{Stores, encodings}
use sik_screen_worms.SendEvents.{send_events}
use sik_screen_worms.SendEvents.Datagrams.{datagrams, send_events-delivers}
use sik_screen_worms.SendEvents.Packing.{FitsDatagram}
use sik_screen_worms.GameClient.{game_client_recv}
use sik_screen_worms.GameClient.Delivered.{game_client_recv-datagram}
use sik_screen_worms.Client.{
  View, ClientState, Ran, on_game_restart, returns, exits, faults, deliver, view_for,
  handle_server_message,
}
use sik_screen_worms.Client.Playing.{
  Line, texts, play, IsTaken, deliver-play, play-append, All-parts, texts-append,
}

-- The messages of the server one after another, and all that goes to the interface.
unfoldable pub receive_all :
    (ℕ → ℕ → Option ℕ) → List (List ℕ) → ClientState → Ran (ClientState × List ℕ)
receive_all send [] s = returns (s, [])
receive_all send (d ∷ ds) s = elim (handle_server_message s (some d) send) [
  | returns (t, text) ↦ elim (receive_all send ds t) [
    | returns (u, rest) ↦ returns (u, text ++ rest)
    | exits ↦ exits
    | faults ↦ faults
  ]
  | exits ↦ exits
  | faults ↦ faults
]

handle_server_message_lem :
    (send : ℕ → ℕ → Option ℕ) (s : ClientState) (datagram : List ℕ) (game_id : ℕ) (e : GameEvent)
    (es : List GameEvent) (w : View) (buffer after text : List ℕ)
    → game_client_recv s.game_buffer (some datagram) ≡ some (buffer, ok (game_id, e ∷ es))
    → deliver send (e ∷ es) (view_for s.view game_id) s.gui_buffer ≡ returns (w, after, text)
    → handle_server_message s (some datagram) send
      ≡ returns (record s { game_buffer = buffer; view = w; gui_buffer = after }, text)
unfolding handle_server_message
handle_server_message_lem send s datagram game_id e es w buffer after text read run =
    rw (handle_server_message, read, run)

-- One datagram with a group of events of the game that is shown.
group_received :
    (send : ℕ → ℕ → Option ℕ) (s : ClientState) (game_id : ℕ) (group : List GameEvent) (w : View)
    (lines : List Line)
    → length s.game_buffer ≡ 1024
    → length s.gui_buffer ≡ 2048
    → game_id < 2 ^ 32
    → All IsEvent group
    → FitsDatagram group
    → play (view_for s.view game_id) (map received group) ≡ some (w, lines)
    → All (IsTaken send) lines
    → (t : ClientState) × (handle_server_message s
          (some (be_bytes 4 game_id ++ encodings group))
          send
        ≡ returns (t, texts lines))
      × (t.view ≡ w)
      × (length t.game_buffer ≡ 1024)
      × (length t.gui_buffer ≡ 2048)
      × (w.current_game_id ≡ (view_for s.view game_id).current_game_id)
group_received send s game_id [] w lines game gui small v (fits, some_event) h taken =
    absurd (omega (arith, some_event))
group_received send s game_id (e ∷ es) w lines game gui small v (fits, some_event) h taken =
    let (buffer, read, n) =
      game_client_recv-datagram s.game_buffer game_id (e ∷ es) game small v (omega (arith, fits)) in
    let (after, run, m, g) =
      deliver-play send (map received (e ∷ es)) (view_for s.view game_id) w lines s.gui_buffer gui h
        taken in
    (
      record s { game_buffer = buffer; view = w; gui_buffer = after },
      handle_server_message_lem send s (be_bytes 4 game_id ++ encodings (e ∷ es)) game_id
          (received e) (map received es) w buffer after (texts lines) read run,
      refl,
      n,
      m,
      g,
    )

received_more :
    (send : ℕ → ℕ → Option ℕ) (d : List ℕ) (ds : List (List ℕ)) (s t r : ClientState)
    (text rest : List ℕ)
    → handle_server_message s (some d) send ≡ returns (t, text)
    → receive_all send ds t ≡ returns (r, rest)
    → receive_all send (d ∷ ds) s ≡ returns (r, text ++ rest)
unfolding receive_all
received_more send d ds s t r text rest run later = rw (receive_all, run, later)

view_kept : (v : View) (game_id : ℕ) → v.current_game_id ≡ game_id → view_for v game_id ≡ v
view_kept v game_id e = ground (arith, e)

view_for-game : (v : View) (game_id : ℕ) → (view_for v game_id).current_game_id ≡ game_id
unfolding on_game_restart
view_for-game v game_id = ground arith

-- The first datagram, with what is left to do behind it.
record Begun (send : ℕ → ℕ → Option ℕ) (s : ClientState) (game_id : ℕ) (group rest : List GameEvent)
    (w : View) (lines : List Line) : Type 0 where
  pub state : ClientState
  pub before : List Line
  pub after : List Line
  pub run :
      handle_server_message s (some (be_bytes 4 game_id ++ encodings group)) send
      ≡ returns (state, texts before)
  pub game : length state.game_buffer ≡ 1024
  pub gui : length state.gui_buffer ≡ 2048
  pub same : state.view.current_game_id ≡ game_id
  pub left : play state.view (map received rest) ≡ some (w, after)
  pub split : lines ≡ before ++ after
  pub taken : All (IsTaken send) after

first_received :
    (send : ℕ → ℕ → Option ℕ) (group rest : List GameEvent) (s : ClientState) (game_id : ℕ)
    (w : View) (lines : List Line)
    → length s.game_buffer ≡ 1024
    → length s.gui_buffer ≡ 2048
    → game_id < 2 ^ 32
    → All IsEvent group
    → FitsDatagram group
    → play (view_for s.view game_id) (map received (group ++ rest)) ≡ some (w, lines)
    → All (IsTaken send) lines
    → Begun send s game_id group rest w lines
first_received send group rest s game_id w lines game gui small v f h taken =
    let start : View = view_for s.view game_id in
    let (u, before, after, p, q, l) =
      play-append (map received group) (map received rest) start w lines
        (ap (play start) (sym (map-append received group rest)) ∙ h) in
    let (k0, k1) = All-parts (IsTaken send) before after (subst (All (IsTaken send)) l taken) in
    let (t, run, e, n, m, g) =
      group_received send s game_id group u before game gui small v f p k0 in
    record {
      state = t;
      before = before;
      after = after;
      run = run;
      game = n;
      gui = m;
      same = ap (λ (x : View). x.current_game_id) e ∙ g ∙ view_for-game s.view game_id;
      left = ap (λ x. play x (map received rest)) e ∙ q;
      split = l;
      taken = k1;
    }

received_first :
    (send : ℕ → ℕ → Option ℕ) (groups : List (List GameEvent)) (s r : ClientState) (game_id : ℕ)
    (group rest : List GameEvent) (w : View) (lines : List Line)
    (first : Begun send s game_id group rest w lines)
    → receive_all send (datagrams (be_bytes 4 game_id) groups) first.state
      ≡ returns (r, texts first.after)
    → receive_all send (datagrams (be_bytes 4 game_id) (group ∷ groups)) s
      ≡ returns (r, texts lines)
received_first send groups s r game_id group rest w lines first later =
    received_more send (be_bytes 4 game_id ++ encodings group)
      (datagrams (be_bytes 4 game_id) groups) s first.state r (texts first.before)
      (texts first.after) first.run later
    ∙ ap (λ x. returns (r, x)) (sym (ap texts first.split ∙ texts-append first.before first.after))

-- The datagrams of all groups of the game that is shown.
groups_received :
    (send : ℕ → ℕ → Option ℕ) (groups : List (List GameEvent)) (s : ClientState) (game_id : ℕ)
    (w : View) (lines : List Line)
    → length s.game_buffer ≡ 1024
    → length s.gui_buffer ≡ 2048
    → game_id < 2 ^ 32
    → s.view.current_game_id ≡ game_id
    → All IsEvent (flatten groups)
    → All FitsDatagram groups
    → play s.view (map received (flatten groups)) ≡ some (w, lines)
    → All (IsTaken send) lines
    → (t : ClientState) × (receive_all send (datagrams (be_bytes 4 game_id) groups) s
        ≡ returns (t, texts lines))
      × (t.view ≡ w)
unfolding receive_all flatten play
groups_received send [] s game_id w lines game gui small same v fits h taken =
    (s, ground (arith, h), ground (arith, h))
groups_received send (group ∷ groups) s game_id w lines game gui small same v (f, fits) h taken =
    let (v0, v1) = All-parts IsEvent group (flatten groups) v in
    let first =
      first_received send group (flatten groups) s game_id w lines game gui small v0 f
        (ap (λ x. play x (map received (group ++ flatten groups))) (view_kept s.view game_id same)
          ∙ h)
        taken in
    let (r, later, e) =
      groups_received send groups first.state game_id w first.after first.game first.gui small
        first.same v1 fits first.left first.taken in
    (r, received_first send groups s r game_id group (flatten groups) w lines first later, e)

-- The first of them may start a new game.
game_received :
    (send : ℕ → ℕ → Option ℕ) (groups : List (List GameEvent)) (e : GameEvent) (es : List GameEvent)
    (s : ClientState) (game_id : ℕ) (w : View) (lines : List Line)
    → length s.game_buffer ≡ 1024
    → length s.gui_buffer ≡ 2048
    → game_id < 2 ^ 32
    → flatten groups ≡ e ∷ es
    → All IsEvent (flatten groups)
    → All FitsDatagram groups
    → play (view_for s.view game_id) (map received (flatten groups)) ≡ some (w, lines)
    → All (IsTaken send) lines
    → (t : ClientState) × (receive_all send (datagrams (be_bytes 4 game_id) groups) s
        ≡ returns (t, texts lines))
      × (t.view ≡ w)
unfolding flatten
game_received send [] e es s game_id w lines game gui small whole v fits h taken = cc
game_received send (group ∷ groups) e es s game_id w lines game gui small whole v (f, fits) h
      taken =
    let (v0, v1) = All-parts IsEvent group (flatten groups) v in
    let first =
      first_received send group (flatten groups) s game_id w lines game gui small v0 f h taken in
    let (r, later, k) =
      groups_received send groups first.state game_id w first.after first.game first.gui small
        first.same v1 fits first.left first.taken in
    (r, received_first send groups s r game_id group (flatten groups) w lines first later, k)

-- The server sends the events from number `length front` on, and the client receives the datagrams
-- in order. The client then shows what the events come to when they are played in one go, on its
-- view of the game or on that of a new game: it ends in the same view, and all the lines of text go
-- to the interface, in order. Each event fits a datagram and can be encoded, the events can be
-- played, and the interface takes each line, in as many pieces as it likes.
pub receive_all-send_events :
    (storage : EventStorage) (front back : List GameEvent) (e : GameEvent) (buffer : List ℕ)
    (game_id : ℕ) (send : ℕ → ℕ → Option ℕ) (s : ClientState) (w : View) (lines : List Line)
    → Stores storage (front ++ (e ∷ back))
    → All (λ x. 4 + length (event_bytes x) ≤ 550) (e ∷ back)
    → All IsEvent (e ∷ back)
    → length buffer ≡ 1024
    → game_id < 2 ^ 32
    → length s.game_buffer ≡ 1024
    → length s.gui_buffer ≡ 2048
    → play (view_for s.view game_id) (map received (e ∷ back)) ≡ some (w, lines)
    → All (IsTaken send) lines
    → (sent : List (List ℕ)) × (t : ClientState) × (send_events storage
          (λ _. true)
          buffer
          game_id
          (length front)
        ≡ some sent)
      × (receive_all send sent s ≡ returns (t, texts lines))
      × (t.view ≡ w)
receive_all-send_events storage front back e buffer game_id send s w lines stored small v size id
      game gui h taken =
    let (groups, sent, whole, fits) =
      send_events-delivers storage front back e buffer game_id stored small size in
    let (t, run, k) =
      game_received send groups e back s game_id w lines game gui id whole
        (subst (All IsEvent) (sym whole) v) fits
        (ap (λ x. play (view_for s.view game_id) (map received x)) whole ∙ h) taken in
    (datagrams (be_bytes 4 game_id) groups, t, sent, run, k)
