-- ===== src/SendEvents/Datagrams.antt =====
-- The datagrams of `send_events` are the groups of `Packing`, each behind the game's id.
use sik_screen_worms.Prelude.{
  ℕ, suc, ◌+◌, ◌-◌, ◌≤◌, ◌<◌, ◌≡◌, refl, sym, ap, ◌∙◌, arith, Bool, true, false, some, List, [],
  ◌∷◌, ◌++◌, ltb, if◌then◌else◌, inl, inr, Bool-cases, get_elem?, length, drop, All, drop-append,
  length-append, append_assoc, get_elem?-middle, subst,
}
use mathlib.Core.Path.{ap₂}
use sik_screen_worms.Memory.{write_at, read_at, be_bytes}
use sik_screen_worms.Memory.Laws.{write_at_lem, read_at_lem, split_at}
use sik_screen_worms.Memory.Numbers.{length-be_bytes}
use sik_screen_worms.Stack.{stack_size}
use sik_screen_worms.Messages.{GameEvent}
use sik_screen_worms.Messages.Encoding.{event_bytes, length-event_bytes}
use sik_screen_worms.EventsStorage.{
  EventStorage, event_storage_last, event_storage_get, event_storage_get_data,
}
use sik_screen_worms.EventsStorage.Stored.{
  encodings, places, Stores, encodings-append, places-append, length-places,
}
use sik_screen_worms.Stack.Laws.{stack_get-Holds}
use sik_screen_worms.SendEvents.{fill, send_rest, send_loop, send_events}
use sik_screen_worms.SendEvents.Packing.{pack, FitsDatagram, flatten-pack, pack-FitsDatagram}
use mathlib.Core.List.{flatten}

-- The datagrams handed to `send`: none after one that was not sent whole.
abbrev pub handed : (ℕ → Bool) → ℕ → List (List ℕ) → List (List ℕ)
handed whole n [] = []
handed whole n (d ∷ ds) = d ∷ (if whole n then handed whole (n + 1) ds else [])

abbrev pub datagrams : List ℕ → List (List GameEvent) → List (List ℕ)
datagrams id [] = []
datagrams id (group ∷ groups) = (id ++ encodings group) ∷ datagrams id groups

-- The place of the event behind `front`.
place_of :
    (storage : EventStorage) (front back : List GameEvent) (e : GameEvent) (i : ℕ)
    → Stores storage (front ++ (e ∷ back))
    → i ≡ length front
    → event_storage_get storage i
      ≡ some (record { len = length (event_bytes e); offset = length (encodings front) })
unfolding event_storage_get
place_of storage front back e i h q =
    stack_get-Holds storage.events (places 0 (front ++ (e ∷ back))) i h.indexed
    ∙ ap (λ t. get_elem? t i) (places-append front (e ∷ back) 0)
    ∙ get_elem?-middle (places 0 front) _ _ i (q ∙ sym (length-places front 0))
    ∙ ap (λ o. some (record { len = length (event_bytes e); offset = o })) (omega arith)

-- Filling the buffer with a group.
fill_lem :
    (storage : EventStorage) (front group back : List GameEvent) (id tail : List ℕ)
    → Stores storage (front ++ (group ++ back))
    → length id ≡ 4
    → length (encodings group) ≤ length tail
    → (tail' : List ℕ) × (fill storage
          (id ++ tail)
          (length (encodings front))
          (4 + length (encodings group))
        ≡ some (id ++ tail', id ++ encodings group))
      × (length tail' ≡ length tail)
unfolding fill event_storage_get_data
fill_lem storage front group back id tail h li room =
    let bytes : List ℕ = encodings group in
    let rest : List ℕ = encodings back ++ h.spare in
    let (gap, end, s, k, _) = split_at (length bytes) tail room in
    let block : storage.block ≡ encodings front ++ (bytes ++ rest) =
      h.contents
      ∙ ap (λ t. t ++ h.spare)
          (encodings-append front (group ++ back)
            ∙ ap (◌++◌ (encodings front)) (encodings-append group back))
      ∙ append_assoc (encodings front) (bytes ++ encodings back) h.spare
      ∙ ap (◌++◌ (encodings front)) (append_assoc bytes (encodings back) h.spare) in
    let found : drop (length (encodings front)) storage.block ≡ bytes ++ rest =
      ap (drop (length (encodings front))) block ∙ drop-append (encodings front) (bytes ++ rest) in
    let r : read_at (drop (length (encodings front)) storage.block) 0 (4 + length bytes - 4)
        ≡ some bytes =
      ap (λ t. read_at t 0 (4 + length bytes - 4)) found
      ∙ read_at_lem [] bytes rest 0 (4 + length bytes - 4) refl (omega arith) in
    let w : write_at (id ++ tail) 4 bytes ≡ some (id ++ (bytes ++ end)) =
      ap (λ t. write_at (id ++ t) 4 bytes) s ∙ write_at_lem id gap end bytes 4 (sym li) k in
    let d : read_at (id ++ (bytes ++ end)) 0 (4 + length bytes) ≡ some (id ++ bytes) =
      ap (λ t. read_at t 0 (4 + length bytes)) (sym (append_assoc id bytes end))
      ∙ read_at_lem [] (id ++ bytes) end 0 (4 + length bytes) refl
          (omega (arith, li, length-append id bytes)) in
    (
      bytes ++ end,
      rw (r, w, d),
      omega (arith, ap length s, k, length-append gap end, length-append bytes end),
    )

encodings_pos : (group : List GameEvent) → 0 < length group → 0 < length (encodings group)
encodings_pos [] h = elim h [ ]
encodings_pos (e ∷ es) h =
    omega (arith, length-append (event_bytes e) (encodings es), length-event_bytes e)

last_handed : (whole : ℕ → Bool) (n : ℕ) (d : List ℕ) → handed whole n (d ∷ []) ≡ d ∷ []
last_handed whole n d = ground arith

module _ (storage : EventStorage) (whole : ℕ → Bool) (id : List ℕ) (li : length id ≡ 4) where
  rest_lem :
      (front group : List GameEvent) (tail : List ℕ) (sent : List (List ℕ))
      → Stores storage (front ++ (group ++ []))
      → FitsDatagram group
      → 546 ≤ length tail
      → send_rest storage whole
          (id ++ tail)
          (length (encodings front))
          (4 + length (encodings group))
          sent
        ≡ some (sent ++ handed whole (length sent) (datagrams id (group ∷ [])))
  unfolding send_rest
  rest_lem front group tail sent h fits room =
      let (tail', f, _) =
        fill_lem storage front group [] id tail h li (omega (arith, fits, room)) in
      let some_data : ltb 4 (4 + length (encodings group)) ≡ true =
        ground (arith, encodings_pos group fits.1) in
      rw (some_data, f)
        (ap (λ t. some (sent ++ t)) (sym (last_handed whole (length sent) (id ++ encodings group))))

  -- One round that closes the datagram.
  flush_lem :
      (left i len offset : ℕ) (d tail' : List ℕ) (ds : List (List ℕ)) (sent : List (List ℕ))
      → send_loop storage whole left i (id ++ tail') offset (4 + len) (sent ++ (d ∷ []))
        ≡ some ((sent ++ (d ∷ [])) ++ handed whole (length (sent ++ (d ∷ []))) ds)
      → (if whole (length sent)
          then send_loop storage whole left i (id ++ tail') offset (4 + len) (sent ++ (d ∷ []))
          else some (sent ++ (d ∷ [])))
        ≡ some (sent ++ handed whole (length sent) (d ∷ ds))
  flush_lem left i len offset d tail' ds sent ih = elim (Bool-cases (whole (length sent))) [
    | inl go_on ↦ rw go_on (
        ih
        ∙ ap some (
            append_assoc sent (d ∷ []) _
            ∙ ap (λ n. sent ++ (d ∷ handed whole n ds))
                (omega (arith, length-append sent (d ∷ [])))))
    | inr stop ↦ rw stop
  ]

  loop_lem :
      (todo front group : List GameEvent) (i data_start data_size : ℕ) (tail : List ℕ)
      (sent : List (List ℕ))
      → Stores storage (front ++ (group ++ todo))
      → FitsDatagram group
      → All (λ e. 4 + length (event_bytes e) ≤ 550) todo
      → 546 ≤ length tail
      → i ≡ length (front ++ group)
      → data_start ≡ length (encodings front)
      → data_size ≡ 4 + length (encodings group)
      → send_loop storage whole (length todo) i (id ++ tail) data_start data_size sent
        ≡ some (sent ++ handed whole (length sent) (datagrams id (pack group todo)))
  unfolding send_loop pack
  loop_lem [] front group i ds sz tail sent h fits small room ei es ez =
      ap₂ (λ a b. send_rest storage whole (id ++ tail) a b sent) es ez
      ∙ rest_lem front group tail sent h fits room
  loop_lem (e ∷ todo) front group i ds sz tail sent h fits (p, small) room ei es ez =
      let behind : Stores storage ((front ++ group) ++ (e ∷ todo)) =
        subst (Stores storage) (sym (append_assoc front group (e ∷ todo))) h in
      let extended : Stores storage (front ++ ((group ++ (e ∷ [])) ++ todo)) =
        subst (λ t. Stores storage (front ++ t)) (sym (append_assoc group (e ∷ []) todo)) h in
      let place = place_of storage (front ++ group) todo e i behind ei in
      let sizes : length (encodings (group ++ (e ∷ [])))
          ≡ length (encodings group) + length (event_bytes e) =
        omega (
          arith,
          ap length (encodings-append group (e ∷ [])),
          length-append (encodings group) (event_bytes e ++ []),
          length-append (event_bytes e) [],
        ) in
      elim (Bool-cases (ltb 550 (4 + length (encodings group) + length (event_bytes e)))) [
        | inl close ↦
            let (tail', f, same) =
              fill_lem storage front group (e ∷ todo) id tail h li (omega (arith, fits, room)) in
            let ih =
              loop_lem todo (front ++ group) (e ∷ []) (i + 1) (length (encodings (front ++ group)))
                (4 + length (event_bytes e)) tail' (sent ++ ((id ++ encodings group) ∷ [])) behind
                (omega (arith, p, length-append (event_bytes e) []), omega arith) small
                (omega (arith, room, same))
                (omega (arith, ei, length-append (front ++ group) (e ∷ []))) refl
                (omega (arith, length-append (event_bytes e) [])) in
            rw (place, ez, es, close, f)
              (flush_lem (length todo) (i + 1) (length (event_bytes e))
                (length (encodings (front ++ group))) (id ++ encodings group) tail'
                (datagrams id (pack (e ∷ []) todo)) sent ih)
        | inr extend ↦
            let fits' : FitsDatagram (group ++ (e ∷ [])) =
              (ground (arith, sizes, extend), omega (arith, length-append group (e ∷ []))) in
            let ih =
              loop_lem todo front (group ++ (e ∷ [])) (i + 1) ds (sz + length (event_bytes e)) tail
                sent extended fits' small room
                (omega (
                  arith,
                  ei,
                  length-append front group,
                  length-append front (group ++ (e ∷ [])),
                  length-append group (e ∷ []),
                ))
                es (omega (arith, ez, sizes)) in
            let stays : ltb 550 (sz + length (event_bytes e)) ≡ false =
              ap (λ n. ltb 550 (n + length (event_bytes e))) ez ∙ extend in
            rw (place, extend, stays) ih
      ]

last_of :
    (storage : EventStorage) (es : List GameEvent) (n : ℕ)
    → Stores storage es
    → length es ≡ suc n
    → event_storage_last storage ≡ some n
unfolding event_storage_last stack_size
last_of storage es n h e =
    let size : storage.events.size ≡ suc n = h.indexed.sized ∙ length-places es 0 ∙ e in rw size

whole_handed : (n : ℕ) (ds : List (List ℕ)) → handed (λ _. true) n ds ≡ ds
whole_handed n [] = refl
whole_handed n (d ∷ ds) = ap (λ t. d ∷ t) (whole_handed (n + 1) ds)

-- Whatever `send` answers, `send_events` reads and writes inside the block and the buffer. It hands
-- over the game's id with one group of events after the other, in the order of the storage and
-- packed as tightly as 550 bytes allow, and stops behind the first datagram not sent whole.
pub send_events-handed :
    (storage : EventStorage) (front back : List GameEvent) (e : GameEvent) (whole : ℕ → Bool)
    (buffer : List ℕ) (game_id : ℕ)
    → Stores storage (front ++ (e ∷ back))
    → All (λ x. 4 + length (event_bytes x) ≤ 550) (e ∷ back)
    → length buffer ≡ 1024
    → send_events storage whole buffer game_id (length front)
      ≡ some (handed whole 0 (datagrams (be_bytes 4 game_id) (pack (e ∷ []) back)))
unfolding send_events
send_events-handed storage front back e whole buffer game_id h (p, small) size =
    let id : List ℕ = be_bytes 4 game_id in
    let li : length id ≡ 4 = length-be_bytes 4 game_id in
    let last : event_storage_last storage ≡ some (length front + length back) =
      last_of storage (front ++ (e ∷ back)) (length front + length back) h
        (omega (arith, length-append front (e ∷ back))) in
    let asked : ltb (length front + length back) (length front) ≡ false = ground arith in
    let (start, tail, s, k, _) = split_at 4 buffer (omega (arith, size)) in
    let started : write_at buffer 0 id ≡ some (id ++ tail) =
      ap (λ b. write_at b 0 id) s ∙ write_at_lem [] start tail id 0 refl (k ∙ sym li) in
    let place = place_of storage front back e (length front) h refl in
    let todo : length front + length back - length front ≡ length back = omega arith in
    rw (last, send_events, asked, started, place, todo)
      (loop_lem storage whole id li back front (e ∷ []) (length front + 1)
        (length (encodings front)) (4 + length (event_bytes e)) tail [] h
        (omega (arith, p, length-append (event_bytes e) []), omega arith) small
        (omega (arith, ap length s, length-append start tail, k, size))
        (omega (arith, length-append front (e ∷ []))) refl
        (omega (arith, length-append (event_bytes e) [])))

-- When every datagram is sent whole, all stored events from the requested number on are sent, in
-- their order, each in one piece: the datagrams are the game's id with groups of them, every group
-- fits 550 bytes with the id, and none is empty.
pub send_events-delivers :
    (storage : EventStorage) (front back : List GameEvent) (e : GameEvent) (buffer : List ℕ)
    (game_id : ℕ)
    → Stores storage (front ++ (e ∷ back))
    → All (λ x. 4 + length (event_bytes x) ≤ 550) (e ∷ back)
    → length buffer ≡ 1024
    → (groups : List (List GameEvent)) × (send_events storage
          (λ _. true)
          buffer
          game_id
          (length front)
        ≡ some (datagrams (be_bytes 4 game_id) groups))
      × (flatten groups ≡ e ∷ back)
      × All FitsDatagram groups
send_events-delivers storage front back e buffer game_id h small size = (
  pack (e ∷ []) back,
  send_events-handed storage front back e (λ _. true) buffer game_id h small size
      ∙ ap some (whole_handed 0 _),
  flatten-pack (e ∷ []) back,
  pack-FitsDatagram (e ∷ []) back
      (omega (arith, small.0, length-append (event_bytes e) []), omega arith) small.1,
)
