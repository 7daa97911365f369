-- ===== src/Examples/Storing.antt =====
-- A storage with the events of the start of a game, and the datagrams that it is sent in.
use sik_screen_worms.Prelude.{
  ◌+◌, ◌*◌, ◌≤◌, ◌≡◌, ◌↔◌, refl, arith, true, false, none, some, List, [], ◌∷◌, length, replicate,
  take, All,
}
use sik_screen_worms.Memory.{be_bytes}
use sik_screen_worms.Messages.{GameEvent}
use sik_screen_worms.Messages.Encoding.{event_bytes}
use sik_screen_worms.EventsStorage.{
  SerializedEvent, EventStorage, event_storage_create, event_storage_push, event_storage_get,
  event_storage_get_data,
}
use sik_screen_worms.EventsStorage.Stored.{
  Stores, event_storage_create-Stores, event_storage_get-Stores,
}
use sik_screen_worms.EventsStorage.Push.{event_storage_push-Stores, event_storage_push-aborts_iff}
use sik_screen_worms.SendEvents.{send_events}
use sik_screen_worms.SendEvents.Packing.{pack, FitsDatagram}
use sik_screen_worms.SendEvents.Datagrams.{
  handed, datagrams, send_events-handed, send_events-delivers,
}
use sik_screen_worms.Examples.Packets.{opening, length-opening, opening-IsEvent}
use mathlib.Core.List.{flatten}

event_storage_push-Stores_example :
    (after : EventStorage) × (event_storage_push true true event_storage_create opening
      ≡ some (after, true))
    × Stores after (opening ∷ [])
    × (event_storage_create.block_capacity ≤ after.block_capacity)
unfolding event_storage_create
event_storage_push-Stores_example =
    event_storage_push-Stores event_storage_create [] opening event_storage_create-Stores
      opening-IsEvent (omega (arith, length-opening)) (omega (arith, length-opening))

event_storage_push-aborts_iff_example :
    (event_storage_push true true event_storage_create opening ≡ none) ↔ (
      2 * event_storage_create.block_capacity
      ≤ event_storage_create.block_size + length (event_bytes opening))
event_storage_push-aborts_iff_example =
    event_storage_push-aborts_iff event_storage_create [] opening event_storage_create-Stores
      opening-IsEvent (omega (arith, length-opening))

-- The storage after that push.
pub one_stored : (after : EventStorage) × Stores after (opening ∷ [])
unfolding event_storage_create
one_stored =
    let (after, _, stores, _) =
      event_storage_push-Stores event_storage_create [] opening event_storage_create-Stores
        opening-IsEvent (omega (arith, length-opening)) (omega (arith, length-opening)) in
    (after, stores)

event_storage_get-Stores_example :
    (place : SerializedEvent) × (event_storage_get one_stored.0 0 ≡ some place)
    × (take place.len (event_storage_get_data one_stored.0 place.offset) ≡ event_bytes opening)
event_storage_get-Stores_example =
    event_storage_get-Stores one_stored.0 (opening ∷ []) 0 opening one_stored.1 refl

send_events-handed_example :
    send_events one_stored.0 (λ _. false) (replicate 1024 0) 77 0
    ≡ some (handed (λ _. false) 0 (datagrams (be_bytes 4 77) (pack (opening ∷ []) [])))
send_events-handed_example =
    send_events-handed one_stored.0 [] [] opening (λ _. false) (replicate 1024 0) 77 one_stored.1
      (omega (arith, length-opening), tt) refl

send_events-delivers_example :
    (groups : List (List GameEvent)) × (send_events one_stored.0 (λ _. true) (replicate 1024 0) 77 0
      ≡ some (datagrams (be_bytes 4 77) groups))
    × (flatten groups ≡ opening ∷ [])
    × All FitsDatagram groups
send_events-delivers_example =
    send_events-delivers one_stored.0 [] [] opening (replicate 1024 0) 77 one_stored.1
      (omega (arith, length-opening), tt) refl
