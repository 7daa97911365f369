-- ===== src/Examples/Packets.antt =====
-- Messages of a client and of the server.
use sik_screen_worms.Prelude.{
  ℕ, ◌^◌, ◌≤◌, ◌<◌, ◌≡◌, ◌⊎◌, ◌∙◌, ◌-◌, ap, get_elem?, length-append, refl, arith, some, List, [],
  ◌∷◌, ◌++◌, length, replicate, set, drop,
}
use sik_screen_worms.Memory.{be_bytes}
use sik_screen_worms.Memory.Numbers.{length-be_bytes}
use sik_screen_worms.Messages.{ClientMessage, new_game, pixel, GameEvent, ok, refused, fault}
use sik_screen_worms.Messages.Client.{serialize_client_message, deserialize_client_message}
use sik_screen_worms.Messages.ClientLaws.{IsMessage}
use sik_screen_worms.Messages.ClientRoundTrip.{
  deserialize-serialize_client_message, deserialize_client_message_total,
}
use sik_screen_worms.Messages.Event.{serialize_game_event}
use sik_screen_worms.Messages.Parse.{deserialize_game_event}
use sik_screen_worms.Messages.Encoding.{event_bytes, received, IsEvent}
use sik_screen_worms.Messages.Writing.{serialize_game_event_lem}
use sik_screen_worms.Messages.RoundTrip.{
  deserialize-serialize_game_event, deserialize_game_event-event_bytes,
}
use sik_screen_worms.Messages.Robustness.{
  deserialize_game_event-consumes, deserialize_game_event-length_wraps,
}
use sik_screen_worms.Messages.Corruption.{deserialize_game_event-one_byte}

abbrev bob : List ℕ
bob = 98 ∷ 111 ∷ 98 ∷ []

abbrev hello : ClientMessage
hello = record {
  session_id = 1234567;
  turn_direction = 2;
  next_expected_event_no = 17;
  player_name = bob ++ replicate 18 0;
}

hello-IsMessage : IsMessage hello bob
hello-IsMessage = record {
  session = omega arith;
  direction = omega arith;
  event_no = omega arith;
  text =
      ((omega arith, omega arith), ((omega arith, omega arith), ((omega arith, omega arith), tt)));
  short = omega arith;
  padded = refl;
}

deserialize-serialize_client_message_example :
    (written : List ℕ) × (serialize_client_message (replicate 100 0) hello ≡ some (written, 16))
    × (deserialize_client_message written 16 ≡ ok (hello, 16))
deserialize-serialize_client_message_example =
    deserialize-serialize_client_message hello bob (replicate 100 0) hello-IsMessage (omega arith)

deserialize_client_message_total_example :
    ((13 ≤ 40)
      × (40 ≤ 33)
      × ((m : ClientMessage) × (deserialize_client_message (replicate 100 7) 40 ≡ ok (m, 40))))
    ⊎ (((40 < 13) ⊎ (33 < 40)) × (deserialize_client_message (replicate 100 7) 40 ≡ refused))
deserialize_client_message_total_example =
    deserialize_client_message_total (replicate 100 7) 40 (omega arith)

-- The start of a game of two players.
abbrev pub opening : GameEvent
opening = record {
  event_no = 0;
  body = new_game (record {
    max_x = 640;
    max_y = 480;
    players_num = 2;
    players_names = (97 ∷ 0 ∷ []) ∷ (98 ∷ 0 ∷ []) ∷ [];
  });
}

pub length-opening : length (event_bytes opening) ≡ 25
unfolding event_bytes be_bytes
length-opening = refl

pub opening-IsEvent : IsEvent opening
opening-IsEvent = record {
  numbered = omega arith;
  body_fits = (
    omega arith,
    omega arith,
    refl,
    (
      (97 ∷ [], [], refl, ((omega arith, omega arith), tt)),
      ((98 ∷ [], [], refl, ((omega arith, omega arith), tt)), tt),
    ),
  );
  room = omega arith;
  short = omega (arith, length-opening);
}

abbrev pub step : GameEvent
step = record { event_no = 1; body = pixel (record { player_number = 1; x = 2; y = 3 }) }

pub length-step : length (event_bytes step) ≡ 22
unfolding event_bytes be_bytes
length-step = refl

pub step-IsEvent : IsEvent step
step-IsEvent = record {
  numbered = omega arith;
  body_fits = (omega arith, omega arith, omega arith);
  room = tt;
  short = omega (arith, length-step);
}

serialize_game_event_lem_example :
    serialize_game_event (replicate 550 0) opening
    ≡ some (
      event_bytes opening ++ drop (length (event_bytes opening)) (replicate 550 0),
      length (event_bytes opening),
    )
serialize_game_event_lem_example =
    serialize_game_event_lem (replicate 550 0) opening opening-IsEvent.body_fits
      (omega (arith, length-opening)) opening-IsEvent.short

deserialize-serialize_game_event_example :
    (written : List ℕ) × (len : ℕ) × (serialize_game_event (replicate 550 0) opening
      ≡ some (written, len))
    × (len ≤ 100)
    × (deserialize_game_event written 100 ≡ ok (received opening, len))
deserialize-serialize_game_event_example =
    deserialize-serialize_game_event (replicate 550 0) opening 100 opening-IsEvent
      (omega (arith, length-opening)) (omega (arith, length-opening))

-- The bytes of one event, with nothing behind them.
abbrev packet : List ℕ
packet = event_bytes step ++ []

packet_read : deserialize_game_event packet 22 ≡ ok (received step, 22)
packet_read =
    deserialize_game_event-event_bytes step step-IsEvent [] 22 (omega (arith, length-step))
    ∙ ap (λ n. ok (received step, n)) (omega (arith, length-step))

deserialize_game_event-consumes_example : (8 ≤ 22) × (22 ≤ 22) × (22 ≤ length packet)
deserialize_game_event-consumes_example =
    deserialize_game_event-consumes packet 22 (received step) 22
      (omega (arith, length-append (event_bytes step) [], length-step)) packet_read

deserialize_game_event-length_wraps_example :
    deserialize_game_event (be_bytes 4 (2 ^ 32 - 3) ++ replicate 46 0) 20 ≡ fault
deserialize_game_event-length_wraps_example =
    deserialize_game_event-length_wraps (be_bytes 4 (2 ^ 32 - 3) ++ replicate 46 0) (replicate 46 0)
      (2 ^ 32 - 3) 20 refl (omega arith) (omega arith)
      (omega (
        arith,
        length-append (be_bytes 4 (2 ^ 32 - 3)) (replicate 46 0),
        length-be_bytes 4 (2 ^ 32 - 3),
      ))
      (omega arith)

-- The last byte of the number is 1.
byte_seven : get_elem? (event_bytes step) 7 ≡ some 1
unfolding event_bytes be_bytes
byte_seven = refl

deserialize_game_event-one_byte_example :
    deserialize_game_event (set (event_bytes step ++ []) 7 5) 22 ≡ refused
deserialize_game_event-one_byte_example =
    deserialize_game_event-one_byte step step-IsEvent [] 7 5 22 (omega arith) (omega arith)
      (omega arith) (λ e. absurd (ground (arith, byte_seven, e))) (omega (arith, length-step))
