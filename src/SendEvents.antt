-- ===== src/SendEvents.antt =====
-- server/main.c: `send_events` packs stored events into datagrams. The global `buffer` of 1024
-- bytes is passed on explicitly; the calls of `send` are the list of the datagrams handed to it,
-- in order, and which of them is sent whole is an argument.
pub mod Packing
pub mod Datagrams
use sik_screen_worms.Prelude.{
  ℕ, zero, suc, ◌+◌, ◌-◌, Bool, Option, none, some, List, [], ◌∷◌, ◌++◌, ltb, if◌then◌else◌, length,
}
use sik_screen_worms.Memory.{◌>>=◌, write_at, read_at, be_bytes}
use sik_screen_worms.EventsStorage.{
  EventStorage, event_storage_last, event_storage_get, event_storage_get_data,
}

-- The copy of the data into the buffer, behind the game's id, and the bytes given to `send`.
unfoldable pub fill : EventStorage → List ℕ → ℕ → ℕ → Option (List ℕ × List ℕ)
fill storage buffer data_start data_size = do
  bytes ← read_at (event_storage_get_data storage data_start) 0 (data_size - 4)
  filled ← write_at buffer 4 bytes
  datagram ← read_at filled 0 data_size
  some (filled, datagram)

-- MAX_UDP_SIZE is 550. The loop at index `i`, with `left` events to go; `sent` are the datagrams
-- of the earlier rounds. `send` succeeds on the `n`-th datagram if `whole n` holds.
module _ (storage : EventStorage) (whole : ℕ → Bool) where
  -- Behind the loop.
  unfoldable pub send_rest : List ℕ → ℕ → ℕ → List (List ℕ) → Option (List (List ℕ))
  send_rest buffer data_start data_size sent =
      if ltb 4 data_size
      then (fill storage buffer data_start data_size >>= λ r. some (sent ++ (r.1 ∷ [])))
      else some sent

  unfoldable pub send_loop : ℕ → ℕ → List ℕ → ℕ → ℕ → List (List ℕ) → Option (List (List ℕ))
  send_loop zero i buffer data_start data_size sent = send_rest buffer data_start data_size sent
  send_loop (suc left) i buffer data_start data_size sent = do
    event ← event_storage_get storage i
    let added = send_loop left (i + 1) buffer data_start (data_size + event.len) sent
    let flushed = fill storage buffer data_start data_size >>= λ r.
        (let next = send_loop left (i + 1) r.0 event.offset (4 + event.len) (sent ++ (r.1 ∷ [])) in
          if whole (length sent) then next else some (sent ++ (r.1 ∷ [])))
    if ltb 550 (data_size + event.len) then flushed else added

  -- The datagrams for the events from `event_no` on.
  unfoldable pub send_events : List ℕ → ℕ → ℕ → Option (List (List ℕ))
  send_events buffer game_id event_no = elim (event_storage_last storage) [
    | none ↦ some []
    | some last ↦
        if ltb last event_no
        then some []
        else (write_at buffer 0 (be_bytes 4 game_id) >>= λ started.
            event_storage_get storage event_no >>= λ event.
            send_loop (last - event_no) (event_no + 1) started event.offset (4 + event.len) [])
  ]
