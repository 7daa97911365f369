-- ===== src/GameClient.antt =====
-- client/game_client.c: the exchange with the server. What `recv` and `send` answer is an
-- argument: `none` is -1, otherwise the bytes of the datagram or the number of bytes sent. `buffer`
-- is the array of 1024 bytes. Connecting to the server is left out.
pub mod Receiving
pub mod Delivered
use sik_screen_worms.Prelude.{
  ℕ, zero, suc, ◌+◌, ◌-◌, Option, none, some, List, [], ◌∷◌, ◌++◌, ltb, ◌==◌, if◌then◌else◌, length,
  take, drop,
}
use sik_screen_worms.Memory.{◌>>=◌, read_at, from_be}
use sik_screen_worms.Messages.{ClientMessage, GameEvent, Outcome, ok, refused, fault}
use sik_screen_worms.Messages.Client.{serialize_client_message, from_option}
use sik_screen_worms.Messages.Parse.{deserialize_game_event}

-- The buffer after the call, the bytes handed to `send` and the number returned; -1 is `none`.
unfoldable pub game_client_send :
    List ℕ → ClientMessage → Option ℕ → Option (List ℕ × List ℕ × Option ℕ)
game_client_send buffer m answer = serialize_client_message buffer m >>= λ r.
    read_at r.0 0 r.1 >>= λ bytes.
    some (r.0, bytes, elim answer [ none ↦ none | some n ↦ if n == r.1 then some r.1 else none ])

-- `while (total_serialized < num_bytes)`, with the events added so far. The outer `none` is the end
-- of the fuel.
unfoldable pub recv_loop : ℕ → List ℕ → ℕ → ℕ → List GameEvent → Option (Outcome (List GameEvent))
recv_loop zero buffer num_bytes total events = none
recv_loop (suc fuel) buffer num_bytes total events =
    let next : Option (Outcome (List GameEvent)) =
      elim (deserialize_game_event (drop total buffer) (num_bytes - total)) [
        | fault ↦ some fault
        | refused ↦ some refused
        | ok r ↦ recv_loop fuel buffer num_bytes (total + r.1) (events ++ (r.0 ∷ []))
      ] in
    if ltb total num_bytes then next else some (ok events)

abbrev pub with_id : ℕ → Outcome (List GameEvent) → Outcome (ℕ × List GameEvent)
with_id game_id fault = fault
with_id game_id refused = refused
with_id game_id (ok events) = ok (game_id, events)

-- Behind `recv`: the id of the game and the events. Each round of the loop takes at least one byte,
-- so their number is enough fuel.
unfoldable pub recv_message : List ℕ → ℕ → Option (Outcome (ℕ × List GameEvent))
unfolding recv_loop
recv_message buffer num_bytes =
    if ltb num_bytes 4 then some refused else elim (read_at buffer 0 4) [
      | none ↦ some fault
      | some id ↦
          recv_loop num_bytes buffer num_bytes 4 [] >>= λ events. some (with_id (from_be id) events)
    ]

-- The datagram in the buffer: `recv` keeps 1024 bytes of it and leaves the rest of the buffer.
abbrev pub received_into : List ℕ → List ℕ → List ℕ
received_into buffer datagram = take 1024 datagram ++ drop (length (take 1024 datagram)) buffer

-- The buffer after the call, and what it comes to; `refused` is -1.
unfoldable pub game_client_recv :
    List ℕ → Option (List ℕ) → Option (List ℕ × Outcome (ℕ × List GameEvent))
unfolding recv_message
game_client_recv buffer none = some (buffer, refused)
game_client_recv buffer (some datagram) =
    recv_message (received_into buffer datagram) (length (take 1024 datagram)) >>= λ r.
    some (received_into buffer datagram, r)
