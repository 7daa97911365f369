-- ===== src/GameClient/Delivered.antt =====
-- The client reads back the datagrams of the server: the id of the game, and the events of the
-- group, as the wire format carries them.
use sik_screen_worms.Prelude.{
  ℕ, zero, suc, ◌+◌, ◌-◌, ◌≤◌, ◌<◌, ◌≡◌, ◌^◌, refl, sym, ap, ◌∙◌, arith, true, false, some, List,
  [], ◌∷◌, ◌++◌, ltb, length, take, take_all, length-drop, drop, map, All, length-append,
  drop-append, append_assoc, append-nil,
}
use mathlib.Core.Path.{ap₂}
use sik_screen_worms.Memory.{read_at, be_bytes}
use sik_screen_worms.Memory.Laws.{read_at_lem}
use sik_screen_worms.Memory.Numbers.{length-be_bytes, from_be-be_bytes_four}
use sik_screen_worms.Messages.{GameEvent, ok}
use sik_screen_worms.Messages.Parse.{deserialize_game_event}
use sik_screen_worms.Messages.Encoding.{event_bytes, received, IsEvent, length-event_bytes}
use sik_screen_worms.Messages.RoundTrip.{deserialize_game_event-event_bytes}
use sik_screen_worms.EventsStorage.Stored.{encodings}
use sik_screen_worms.GameClient.{recv_loop, recv_message, received_into, game_client_recv}

-- The loop over the events of a group that stand behind `front`.
recv_loop-encodings :
    (fuel : ℕ) (front rest : List ℕ) (group : List GameEvent) (events : List GameEvent)
    (total num_bytes : ℕ)
    → All IsEvent group
    → total ≡ length front
    → num_bytes ≡ total + length (encodings group)
    → length (encodings group) < fuel
    → recv_loop fuel (front ++ (encodings group ++ rest)) num_bytes total events
      ≡ some (ok (events ++ map received group))
unfolding recv_loop
recv_loop-encodings zero front rest group events total num_bytes v e n k = elim k [ ]
recv_loop-encodings (suc fuel) front rest [] events total num_bytes v e n k =
    let done : ltb total num_bytes ≡ false = ground (arith, n) in rw (done, append-nil)
recv_loop-encodings (suc fuel) front rest (x ∷ group) events total num_bytes (v, vs) e n k =
    let size : length (encodings (x ∷ group)) ≡ length (event_bytes x) + length (encodings group) =
      length-append (event_bytes x) (encodings group) in
    let more : ltb total num_bytes ≡ true = ground (arith, n, size, length-event_bytes x) in
    let shape : front ++ ((event_bytes x ++ encodings group) ++ rest)
        ≡ (front ++ event_bytes x) ++ (encodings group ++ rest) =
      simp append_assoc in
    let place : drop total (front ++ ((event_bytes x ++ encodings group) ++ rest))
        ≡ event_bytes x ++ (encodings group ++ rest) =
      ap₂ drop e (ap (λ t. front ++ t) (append_assoc (event_bytes x) (encodings group) rest))
      ∙ drop-append front (event_bytes x ++ (encodings group ++ rest)) in
    let read : deserialize_game_event
          (drop total (front ++ ((event_bytes x ++ encodings group) ++ rest))) (num_bytes - total)
        ≡ ok (received x, length (event_bytes x)) =
      ap (λ t. deserialize_game_event t (num_bytes - total)) place
      ∙ deserialize_game_event-event_bytes x v (encodings group ++ rest) (num_bytes - total)
          (omega (arith, n, size)) in
    rw (more, read)
      (ap
          (λ b.
            recv_loop fuel b num_bytes (total + length (event_bytes x))
              (events ++ (received x ∷ [])))
          shape
        ∙ recv_loop-encodings fuel (front ++ event_bytes x) rest group (events ++ (received x ∷ []))
            (total + length (event_bytes x)) num_bytes vs
            (omega (arith, e, length-append front (event_bytes x))) (omega (arith, n, size))
            (omega (arith, k, size, length-event_bytes x))
        ∙ ap (λ t. some (ok t)) (append_assoc events (received x ∷ []) (map received group)))

-- A datagram of the server that the client receives whole: the call returns the id of the game and
-- every event of the group, in order, with each name up to its NUL. The datagram has at most 1024
-- bytes, which the 550 of the server are.
pub game_client_recv-datagram :
    (buffer : List ℕ) (game_id : ℕ) (group : List GameEvent)
    → length buffer ≡ 1024
    → game_id < 2 ^ 32
    → All IsEvent group
    → 4 + length (encodings group) ≤ 1024
    → (after : List ℕ) × (game_client_recv buffer (some (be_bytes 4 game_id ++ encodings group))
        ≡ some (after, ok (game_id, map received group)))
      × (length after ≡ 1024)
unfolding game_client_recv recv_message
game_client_recv-datagram buffer game_id group size small v fits =
    let id : List ℕ = be_bytes 4 game_id in
    let whole : List ℕ = id ++ encodings group in
    let li : length id ≡ 4 = length-be_bytes 4 game_id in
    let n : length whole ≡ 4 + length (encodings group) =
      omega (arith, length-append id (encodings group), li) in
    let kept : take 1024 whole ≡ whole = take_all 1024 whole (omega (arith, n, fits)) in
    let rest : List ℕ = drop (length whole) buffer in
    let stored : received_into buffer whole ≡ whole ++ rest =
      ap (λ t. t ++ drop (length t) buffer) kept in
    let shape : whole ++ rest ≡ id ++ (encodings group ++ rest) =
      append_assoc id (encodings group) rest in
    let first : read_at (id ++ (encodings group ++ rest)) 0 4 ≡ some id =
      read_at_lem [] id (encodings group ++ rest) 0 4 refl (sym li) in
    let enough : ltb (4 + length (encodings group)) 4 ≡ false = ground arith in
    let message : recv_message (id ++ (encodings group ++ rest)) (4 + length (encodings group))
        ≡ some (ok (game_id, map received group)) =
      rw (
        enough,
        first,
        recv_loop-encodings (4 + length (encodings group)) id rest group [] 4
            (4 + length (encodings group)) v (sym li) refl (omega arith),
        from_be-be_bytes_four game_id small,
      ) in
    (
      whole ++ rest,
      rw (ap₂ recv_message (stored ∙ shape) (ap length kept ∙ n) ∙ message)
          (ap (λ b. some (b, ok (game_id, map received group))) stored),
      omega (arith, length-append whole rest, length-drop (length whole) buffer, size, n, fits),
    )
