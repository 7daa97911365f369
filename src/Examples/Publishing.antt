-- ===== src/Examples/Publishing.antt =====
-- The first round of a game on a server with a player and an observer, and a turn of its loop.
use sik_screen_worms.Prelude.{
  ℕ, zero, suc, Bool, ◌≡◌, refl, arith, true, false, some, [], ◌∷◌, replicate,
}
use sik_screen_worms.Memory.{be_bytes}
use sik_screen_worms.EventsStorage.{event_storage_create}
use sik_screen_worms.EventsStorage.Stored.{Stores}
use sik_screen_worms.SendEvents.Packing.{pack}
use sik_screen_worms.SendEvents.Datagrams.{datagrams}
use sik_screen_worms.Server.{Server, publish}
use sik_screen_worms.Server.Publishing.{starts, to_each, publish-handed}
use sik_screen_worms.Server.Loop.{
  server_sock, timeout_epoll, data_epoll, round_timer, Inputs, loop_turn,
}
use sik_screen_worms.Server.Loop.Turns.{handle_in_order, loop_turn-handled}
use sik_screen_worms.Examples.Packets.{
  opening, length-opening, opening-IsEvent, step, length-step, step-IsEvent,
}
use sik_screen_worms.Examples.Games.{grid, playing}

-- Before the game.
abbrev idle : Server ℕ
idle = record {
  game = playing;
  rand = 5;
  clients = record {
    clients_list =
        record { sock_fd = 4; timer_fd = 5; session_id = 7; player_name = 97 ∷ 0 ∷ [] }
        ∷ record { sock_fd = 8; timer_fd = 9; session_id = 6; player_name = 0 ∷ [] }
        ∷ [];
    players_number = 1;
  };
  event_storage = event_storage_create;
  is_game_in_progress = false;
  buffer = replicate 1024 0;
}

-- Every datagram to the first client is sent whole, and none to the others.
abbrev one_fails : ℕ → ℕ → Bool
one_fails zero n = true
one_fails (suc k) n = false

abbrev enough : ℕ → Bool × Bool
enough n = (true, true)

publish-handed_example :
    (after : Server ℕ) × (publish grid enough one_fails idle playing 6 (opening ∷ step ∷ [])
      ≡ some (
        after,
        to_each grid one_fails idle.clients.clients_list 0
            (datagrams (be_bytes 4 playing.game_id) (pack (opening ∷ []) (step ∷ []))),
      ))
    × Stores after.event_storage (opening ∷ step ∷ [])
    × (after.is_game_in_progress ≡ true)
publish-handed_example =
    publish-handed grid enough one_fails idle playing 6 [] opening (step ∷ []) (λ i. refl)
      (starts refl refl) refl refl (opening-IsEvent, (step-IsEvent, tt))
      (
        (omega (arith, length-opening), omega (arith, length-opening)),
        ((omega (arith, length-step), omega (arith, length-step)), tt),
      )

abbrev nothing_new : Inputs
nothing_new = record {
  timed_out = [];
  bytes = [];
  num_bytes = 0;
  sock_fd = 6;
  timer_fd = 7;
  messages = [];
  memory = enough;
  round_sends = one_fails;
  request_sends = λ n. true;
  data_sends = one_fails;
}

-- The round is reported twice, and the messages of the clients before it.
loop_turn-handled_example :
    loop_turn grid idle (data_epoll ∷ round_timer ∷ round_timer ∷ []) nothing_new
    ≡ handle_in_order grid nothing_new
        (data_epoll ∷ round_timer ∷ round_timer ∷ [])
        (round_timer ∷ timeout_epoll ∷ server_sock ∷ data_epoll ∷ [])
        idle
        []
loop_turn-handled_example =
    loop_turn-handled grid idle (data_epoll ∷ round_timer ∷ round_timer ∷ []) nothing_new
