-- ===== src/EventsStorage/Push.antt =====
-- `event_storage_push` appends an event, and when it aborts.
use sik_screen_worms.Prelude.{
  ℕ, ◌+◌, ◌*◌, ◌≤◌, ◌<◌, ◌≡◌, ◌↔◌, refl, sym, ap, subst, ◌∙◌, arith, true, false, none, some, List,
  [], ◌∷◌, ◌++◌, ltb, leb, inl, inr, Bool-cases, replicate, length, drop, length-append,
  length-drop, length-replicate, append_assoc, append-nil, lt→ltb,
}
use sik_screen_worms.Memory.{write_at, read_at}
use sik_screen_worms.Memory.Laws.{write_at_lem, read_at_lem, split_at}
use sik_screen_worms.Stack.Laws.{Holds, stack_push-Holds}
use sik_screen_worms.Messages.{GameEvent}
use sik_screen_worms.Messages.Event.{serialize_game_event}
use sik_screen_worms.Messages.Encoding.{event_bytes, IsEvent}
use sik_screen_worms.Messages.Writing.{serialize_game_event_lem}
use sik_screen_worms.EventsStorage.{EventStorage, store_event, event_storage_push}
use sik_screen_worms.EventsStorage.Stored.{
  encodings, places, Stores, encodings-append, places-append,
}

-- The end of the push, with room in the block and the event in the scratch buffer.
store_event-Stores :
    (storage : EventStorage) (es : List GameEvent) (e : GameEvent) (rest : List ℕ)
    → Stores storage es
    → storage.buffer ≡ event_bytes e ++ rest
    → storage.block_size + length (event_bytes e) < storage.block_capacity
    → (after : EventStorage) × (store_event true storage (length (event_bytes e))
        ≡ some (after, true))
      × Stores after (es ++ (e ∷ []))
      × (after.block_capacity ≡ storage.block_capacity)
unfolding store_event
store_event-Stores storage es e rest h filled room =
    let n : ℕ = length (event_bytes e) in
    let used : length storage.block ≡ storage.block_size + length h.spare =
      omega (arith, ap length h.contents, length-append (encodings es) h.spare, h.sized) in
    let (gap, spare, s, k, _) = split_at n h.spare (omega (arith, room, h.allocated, used)) in
    let read : read_at storage.buffer 0 n ≡ some (event_bytes e) =
      ap (λ b. read_at b 0 n) filled ∙ read_at_lem [] (event_bytes e) rest 0 n refl refl in
    let written : write_at storage.block storage.block_size (event_bytes e)
        ≡ some (encodings es ++ (event_bytes e ++ spare)) =
      ap (λ b. write_at b storage.block_size (event_bytes e))
        (h.contents ∙ ap (◌++◌ (encodings es)) s)
      ∙ write_at_lem (encodings es) gap spare (event_bytes e) storage.block_size h.sized k in
    let (events, pushed, held) =
      stack_push-Holds storage.events (places 0 es)
        (record { len = n; offset = storage.block_size }) h.indexed in
    let appended : places 0 (es ++ (e ∷ []))
        ≡ places 0 es ++ (record { len = n; offset = storage.block_size } ∷ []) =
      places-append es (e ∷ []) 0
      ∙ ap (λ o. places 0 es ++ (record { len = n; offset = o } ∷ [])) (omega (arith, h.sized)) in
    let whole : encodings (es ++ (e ∷ [])) ≡ encodings es ++ event_bytes e =
      encodings-append es (e ∷ []) ∙ ap (◌++◌ (encodings es)) (append-nil (event_bytes e)) in
    (
      record storage {
        block = encodings es ++ (event_bytes e ++ spare);
        events = events;
        block_size = storage.block_size + n;
      },
      rw (lt→ltb _ _ room, read, written, pushed),
      record {
        spare = spare;
        contents =
            sym (append_assoc (encodings es) (event_bytes e) spare)
            ∙ ap (λ t. t ++ spare) (sym whole);
        sized =
            omega (arith, h.sized, ap length whole, length-append (encodings es) (event_bytes e));
        allocated = omega (
          arith,
          h.allocated,
          used,
          h.sized,
          ap length s,
          k,
          length-append gap spare,
          length-append (encodings es) (event_bytes e ++ spare),
          length-append (event_bytes e) spare,
        );
        below = room;
        indexed = subst (Holds events) (sym appended) held;
        scratch = h.scratch;
      },
      refl,
    )

module _ (storage : EventStorage) (es : List GameEvent) (e : GameEvent) (h : Stores storage es)
    (v : IsEvent e) (fits : length (event_bytes e) ≤ 550) where
  abbrev filled : EventStorage
  filled = record storage { buffer = event_bytes e ++ drop (length (event_bytes e)) storage.buffer }

  abbrev grown : EventStorage
  grown = record filled {
    block_capacity = 2 * storage.block_capacity;
    block = storage.block ++ replicate storage.block_capacity 0;
  }

  serialized : serialize_game_event storage.buffer e ≡ some (filled.buffer, length (event_bytes e))
  serialized =
      serialize_game_event_lem storage.buffer e v.body_fits (omega (arith, fits, h.scratch)) v.short

  scratch_length : length filled.buffer ≡ 550
  scratch_length = omega (
    arith,
    fits,
    h.scratch,
    length-append (event_bytes e) (drop (length (event_bytes e)) storage.buffer),
    length-drop (length (event_bytes e)) storage.buffer,
  )

  filled-Stores : Stores filled es
  filled-Stores = record {
    spare = h.spare;
    contents = h.contents;
    sized = h.sized;
    allocated = h.allocated;
    below = h.below;
    indexed = h.indexed;
    scratch = scratch_length;
  }

  grown-Stores : Stores grown es
  grown-Stores = record {
    spare = h.spare ++ replicate storage.block_capacity 0;
    contents =
        ap (λ t. t ++ replicate storage.block_capacity 0) h.contents
        ∙ append_assoc (encodings es) h.spare (replicate storage.block_capacity 0);
    sized = h.sized;
    allocated = omega (
      arith,
      h.allocated,
      length-append storage.block (replicate storage.block_capacity 0),
      length-replicate {A = ℕ} storage.block_capacity 0,
    );
    below = omega (arith, h.below);
    indexed = h.indexed;
    scratch = scratch_length;
  }

  -- With memory at hand, a push of an event that twice the capacity has room for succeeds, and the
  -- storage then holds that event behind the others; the capacity never shrinks.
  pub event_storage_push-Stores :
      storage.block_size + length (event_bytes e) < 2 * storage.block_capacity
      → (after : EventStorage) × (event_storage_push true true storage e ≡ some (after, true))
        × Stores after (es ++ (e ∷ []))
        × (storage.block_capacity ≤ after.block_capacity)
  unfolding event_storage_push
  event_storage_push-Stores room =
      elim (Bool-cases (leb storage.block_capacity (storage.block_size + length (event_bytes e)))) [
        | inl full ↦
            let (after, done, stores, same) =
              store_event-Stores grown es e (drop (length (event_bytes e)) storage.buffer)
                grown-Stores refl room in
            (after, rw (serialized, full, done), stores, omega (arith, same))
        | inr free ↦
            let (after, done, stores, same) =
              store_event-Stores filled es e (drop (length (event_bytes e)) storage.buffer)
                filled-Stores refl (ground arith) in
            (after, rw (serialized, free, done), stores, omega (arith, same))
      ]

  -- The capacity is doubled once only: the push fails its assert exactly when the event does not
  -- fit even then.
  pub event_storage_push-aborts_iff :
      (event_storage_push true true storage e ≡ none)
      ↔ (2 * storage.block_capacity ≤ storage.block_size + length (event_bytes e))
  unfolding event_storage_push store_event
  event_storage_push-aborts_iff = (
    λ q.
        elim (Bool-cases
          (leb (2 * storage.block_capacity) (storage.block_size + length (event_bytes e)))) [
            | inl big ↦ ground arith
            | inr small ↦
                let (after, done, _, _) = event_storage_push-Stores (ground arith) in
                absurd (cc (done, q))
          ],
    λ big.
        let full : leb storage.block_capacity (storage.block_size + length (event_bytes e)) ≡ true =
          ground (arith, big) in
        let over : ltb (storage.block_size + length (event_bytes e)) (2 * storage.block_capacity)
            ≡ false =
          ground (arith, big) in
        rw (serialized, full, over),
  )
