-- ===== src/GameClient/Receiving.antt =====
-- Receiving a datagram comes to an end, whatever it holds.
use sik_screen_worms.Prelude.{
  ℕ, zero, suc, ◌+◌, ◌-◌, ◌<◌, ◌≡◌, ◌^◌, refl, arith, Option, none, some, List, [], ◌∷◌, ◌++◌, ◌⊎◌,
  inl, inr, ltb, length, take, drop, Bool-cases, Option-cases, length-append, length-take,
  length-drop,
}
use sik_screen_worms.Memory.{read_at, from_be}
use sik_screen_worms.Messages.{GameEvent, Outcome, ok, refused, fault}
use sik_screen_worms.Messages.Parse.{deserialize_game_event}
use sik_screen_worms.Messages.Robustness.{deserialize_game_event-consumes}
use sik_screen_worms.GameClient.{recv_loop, with_id, recv_message, received_into, game_client_recv}

Outcome-cases {ℓ} :
    {A : Type ℓ} (o : Outcome A) → (o ≡ fault) ⊎ ((o ≡ refused) ⊎ ((a : A) × (o ≡ ok a)))
Outcome-cases fault = inl refl
Outcome-cases refused = inr (inl refl)
Outcome-cases (ok a) = inr (inr (a, refl))

recv_loop_total :
    (fuel : ℕ) (buffer : List ℕ) (num_bytes total : ℕ) (events : List GameEvent)
    → length buffer < 2 ^ 31
    → num_bytes - total < fuel
    → (r : Outcome (List GameEvent)) × (recv_loop fuel buffer num_bytes total events ≡ some r)
unfolding recv_loop
recv_loop_total zero buffer num_bytes total events h k = elim k [ ]
recv_loop_total (suc fuel) buffer num_bytes total events h k =
    elim (Bool-cases (ltb total num_bytes)) [
      | inr done ↦ (ok events, rw done)
      | inl more ↦
          elim (Outcome-cases (deserialize_game_event (drop total buffer) (num_bytes - total))) [
            | inl e ↦ (fault, rw (more, e))
            | inr (inl e) ↦ (refused, rw (more, e))
            | inr (inr ((event, len), e)) ↦
                let taken =
                  deserialize_game_event-consumes (drop total buffer) (num_bytes - total) event len
                    (omega (arith, h, length-drop total buffer)) e in
                let (r, rest) =
                  recv_loop_total fuel buffer num_bytes (total + len) (events ++ (event ∷ [])) h
                    (ground (arith, taken, k, more)) in
                (r, rw (more, e, rest))
          ]
    ]

recv_message_total :
    (buffer : List ℕ) (num_bytes : ℕ)
    → length buffer < 2 ^ 31
    → (r : Outcome (ℕ × List GameEvent)) × (recv_message buffer num_bytes ≡ some r)
unfolding recv_message
recv_message_total buffer num_bytes h = elim (Bool-cases (ltb num_bytes 4)) [
  | inl e ↦ (refused, rw e)
  | inr e ↦ elim (Option-cases (read_at buffer 0 4)) [
    | inl k ↦ (fault, rw (e, k))
    | inr (id, k) ↦
        let (events, loop) =
          recv_loop_total num_bytes buffer num_bytes 4 [] h (ground (arith, e)) in
        (with_id (from_be id) events, rw (e, k, loop))
  ]
]

-- Whatever `recv` gives, garbage included, the loop over the events of a datagram comes to an end,
-- and the buffer keeps its 1024 bytes.
pub game_client_recv_total :
    (buffer : List ℕ) (datagram : Option (List ℕ))
    → length buffer ≡ 1024
    → (after : List ℕ) × (r : Outcome (ℕ × List GameEvent)) × (game_client_recv buffer datagram
        ≡ some (after, r))
      × (length after ≡ 1024)
unfolding game_client_recv
game_client_recv_total buffer none h = (buffer, refused, refl, h)
game_client_recv_total buffer (some datagram) h =
    let size : length (received_into buffer datagram) ≡ 1024 = omega (
      arith,
      h,
      length-append (take 1024 datagram) (drop (length (take 1024 datagram)) buffer),
      length-take 1024 datagram,
      length-drop (length (take 1024 datagram)) buffer,
    ) in
    let (r, done) =
      recv_message_total (received_into buffer datagram) (length (take 1024 datagram))
        (omega (arith, size)) in
    (received_into buffer datagram, r, rw done, size)
