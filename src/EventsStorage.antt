-- ===== src/EventsStorage.antt =====
-- server/events_storage.c: the serialized events, one behind the other in one growing block, with
-- a stack of their places. Whether the two calls of `realloc` find memory is an argument of the
-- push; `none` is a failed assert or an access outside an object. Of the bytes that `malloc` and
-- `realloc` leave uninitialised none is read; they are 0 here.
pub mod Stored
pub mod Push
use sik_screen_worms.Prelude.{
  ℕ, zero, suc, ◌+◌, ◌*◌, Bool, true, false, Option, none, some, List, [], ◌++◌, ltb, leb,
  if◌then◌else◌, replicate, take, drop,
}
use sik_screen_worms.Memory.{◌>>=◌, write_at, read_at}
use sik_screen_worms.Stack.{Stack, stack_create, stack_size, stack_get, stack_push}
use sik_screen_worms.Messages.{GameEvent}
use sik_screen_worms.Messages.Event.{serialize_game_event}

pub record SerializedEvent : Type 0 where
  pub len : ℕ
  pub offset : ℕ

pub record EventStorage : Type 0 where
  pub block_size : ℕ
  pub block_capacity : ℕ
  pub block : List ℕ
  pub events : Stack SerializedEvent
  pub buffer : List ℕ

-- DEFAULT_BLOCK_SIZE is 128.
unfoldable pub event_storage_create : EventStorage
event_storage_create = record {
  block_size = 0;
  block_capacity = 128;
  block = replicate 128 0;
  events = stack_create;
  buffer = replicate 550 0;
}

-- The index of the last event; -1 is `none`.
unfoldable pub event_storage_last : EventStorage → Option ℕ
event_storage_last storage = elim (stack_size storage.events) [ zero ↦ none | suc last ↦ some last ]

-- The part of the push behind the growth of the block.
store_event : Bool → EventStorage → ℕ → Option (EventStorage × Bool)
store_event memory storage event_size =
    if ltb (storage.block_size + event_size) storage.block_capacity
    then (do
      bytes ← read_at storage.buffer 0 event_size
      block ← write_at storage.block storage.block_size bytes
      (events, index) ←
          stack_push memory storage.events
            (record { len = event_size; offset = storage.block_size })
      elim index [
        | none ↦ some (record storage { block = block; events = events }, false)
        | some _ ↦ some (
          record storage {
            block = block;
            events = events;
            block_size = storage.block_size + event_size;
          },
          true,
        )
      ])
    else none

unfoldable pub event_storage_push :
    Bool → Bool → EventStorage → GameEvent → Option (EventStorage × Bool)
unfolding store_event
event_storage_push block_memory stack_memory storage event = do
  (buffer, event_size) ← serialize_game_event storage.buffer event
  let filled = record storage { buffer = buffer }
  if leb storage.block_capacity (storage.block_size + event_size)
      then (if block_memory
          then store_event stack_memory
              (record filled {
                block_capacity = 2 * storage.block_capacity;
                block = storage.block ++ replicate storage.block_capacity 0;
              })
              event_size
          else some (filled, false))
      else store_event stack_memory filled event_size

-- NULL is `none`.
unfoldable pub event_storage_get : EventStorage → ℕ → Option SerializedEvent
event_storage_get storage index = stack_get storage.events index

-- The memory from `storage->block + offset` on.
unfoldable pub event_storage_get_data : EventStorage → ℕ → List ℕ
event_storage_get_data storage offset = drop offset storage.block
