-- ===== src/EventsStorage/Stored.antt =====
-- What a storage holds: the encodings of the events that were pushed, in their order.
use sik_screen_worms.Prelude.{
  ℕ, zero, suc, ◌+◌, ◌<◌, ◌≡◌, refl, sym, ap, ◌∙◌, arith, some, List, [], ◌∷◌, ◌++◌, get_elem?,
  replicate, length, take, drop, take-append, drop-append, length-append, append_assoc,
}
use mathlib.Core.Path.{ap₂}
use sik_screen_worms.Stack.Laws.{Holds, stack_get-Holds, stack_create-Holds}
use sik_screen_worms.Messages.{GameEvent}
use sik_screen_worms.Messages.Encoding.{event_bytes}
use sik_screen_worms.EventsStorage.{
  SerializedEvent, EventStorage, event_storage_create, event_storage_get, event_storage_get_data,
}

abbrev pub encodings : List GameEvent → List ℕ
encodings [] = []
encodings (e ∷ es) = event_bytes e ++ encodings es

-- The places of the events in a block, the first of them at `offset`.
abbrev pub places : ℕ → List GameEvent → List SerializedEvent
places offset [] = []
places offset (e ∷ es) =
    record { len = length (event_bytes e); offset = offset }
    ∷ places (offset + length (event_bytes e)) es

pub record Stores (storage : EventStorage) (es : List GameEvent) : Type 0 where
  pub spare : List ℕ
  pub contents : storage.block ≡ encodings es ++ spare
  pub sized : storage.block_size ≡ length (encodings es)
  pub allocated : length storage.block ≡ storage.block_capacity
  pub below : storage.block_size < storage.block_capacity
  pub indexed : Holds storage.events (places 0 es)
  pub scratch : length storage.buffer ≡ 550

pub encodings-append :
    (es fs : List GameEvent) → encodings (es ++ fs) ≡ encodings es ++ encodings fs
encodings-append [] fs = refl
encodings-append (e ∷ es) fs =
    ap (◌++◌ (event_bytes e)) (encodings-append es fs)
    ∙ sym (append_assoc (event_bytes e) (encodings es) (encodings fs))

pub places-append :
    (es fs : List GameEvent) (offset : ℕ)
    → places offset (es ++ fs) ≡ places offset es ++ places (offset + length (encodings es)) fs
places-append [] fs offset = ap (λ n. places n fs) (omega arith)
places-append (e ∷ es) fs offset =
    ap (λ t. record { len = length (event_bytes e); offset = offset } ∷ t)
      (places-append es fs (offset + length (event_bytes e))
        ∙ ap (λ n. places (offset + length (event_bytes e)) es ++ places n fs)
            (omega (arith, length-append (event_bytes e) (encodings es))))

pub length-places : (es : List GameEvent) (offset : ℕ) → length (places offset es) ≡ length es
length-places [] offset = refl
length-places (e ∷ es) offset = ap suc (length-places es (offset + length (event_bytes e)))

pub event_storage_create-Stores : Stores event_storage_create []
unfolding event_storage_create
event_storage_create-Stores = record {
  spare = replicate 128 0;
  contents = refl;
  sized = refl;
  allocated = refl;
  below = omega arith;
  indexed = stack_create-Holds;
  scratch = refl;
}

pub get_elem?-places :
    (es : List GameEvent) (offset i : ℕ) (e : GameEvent)
    → get_elem? es i ≡ some e
    → (front back : List GameEvent) × (es ≡ front ++ (e ∷ back))
      × (get_elem? (places offset es) i
          ≡ some
              (record { len = length (event_bytes e); offset = offset + length (encodings front) }))
get_elem?-places [] offset i e q = cc
get_elem?-places (x ∷ es) offset zero e q = ([], es, ground (arith, q), ground (arith, q))
get_elem?-places (x ∷ es) offset (suc i) e q =
    let (front, back, s, p) = get_elem?-places es (offset + length (event_bytes x)) i e q in
    (
      x ∷ front,
      back,
      ap (λ t. x ∷ t) s,
      p
          ∙ ap (λ o. some (record { len = length (event_bytes e); offset = o }))
              (omega (arith, length-append (event_bytes x) (encodings front))),
    )

-- The event at an index is found at the place that the storage gives for it.
pub event_storage_get-Stores :
    (storage : EventStorage) (es : List GameEvent) (i : ℕ) (e : GameEvent)
    → Stores storage es
    → get_elem? es i ≡ some e
    → (place : SerializedEvent) × (event_storage_get storage i ≡ some place)
      × (take place.len (event_storage_get_data storage place.offset) ≡ event_bytes e)
unfolding event_storage_get event_storage_get_data
event_storage_get-Stores storage es i e h q =
    let (front, back, s, p) = get_elem?-places es 0 i e q in
    let place : SerializedEvent = record {
      len = length (event_bytes e);
      offset = 0 + length (encodings front);
    } in
    let split : storage.block ≡ encodings front ++ (event_bytes e ++ (encodings back ++ h.spare)) =
      h.contents
      ∙ ap (λ t. encodings t ++ h.spare) s
      ∙ ap (λ t. t ++ h.spare) (encodings-append front (e ∷ back))
      ∙ simp append_assoc in
    (
      place,
      stack_get-Holds storage.events (places 0 es) i h.indexed ∙ p,
      ap (λ t. take place.len t) (ap₂ drop (omega arith) split ∙ drop-append (encodings front) _)
          ∙ take-append (event_bytes e) (encodings back ++ h.spare),
    )
