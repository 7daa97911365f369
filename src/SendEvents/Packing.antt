-- ===== src/SendEvents/Packing.antt =====
-- How events are to be grouped: in order, as many to a datagram as fit.
use sik_screen_worms.Prelude.{
  ◌+◌, ◌≤◌, ◌<◌, ◌≡◌, refl, ap, ◌∙◌, arith, List, [], ◌∷◌, ◌++◌, ltb, if◌then◌else◌, length, All,
  length-append, append_assoc, false, Bool-cases, inl, inr,
}
use sik_screen_worms.Messages.{GameEvent}
use sik_screen_worms.Messages.Encoding.{event_bytes}
use sik_screen_worms.EventsStorage.Stored.{encodings, encodings-append}
use mathlib.Core.List.{flatten}

-- `group` is the datagram that is being filled.
unfoldable pub pack : List GameEvent → List GameEvent → List (List GameEvent)
pack group [] = group ∷ []
pack group (e ∷ es) =
    let close = group ∷ pack (e ∷ []) es in
    let extend = pack (group ++ (e ∷ [])) es in
    if ltb 550 (4 + length (encodings group) + length (event_bytes e)) then close else extend

-- Grouping loses no event and keeps their order.
pub flatten-pack : (group es : List GameEvent) → flatten (pack group es) ≡ group ++ es
unfolding pack flatten
flatten-pack group [] = refl
flatten-pack group (e ∷ es) =
    elim (Bool-cases (ltb 550 (4 + length (encodings group) + length (event_bytes e)))) [
      | inl close ↦ rw close (ap (◌++◌ group) (flatten-pack (e ∷ []) es))
      | inr extend ↦
          rw extend (flatten-pack (group ++ (e ∷ [])) es ∙ append_assoc group (e ∷ []) es)
    ]

abbrev pub FitsDatagram : List GameEvent → Type 0
FitsDatagram group = (4 + length (encodings group) ≤ 550) × (0 < length group)

-- No group is empty, and each fits a datagram with the game's id, if each event does.
pub pack-FitsDatagram :
    (group es : List GameEvent)
    → FitsDatagram group
    → All (λ e. 4 + length (event_bytes e) ≤ 550) es
    → All FitsDatagram (pack group es)
unfolding pack
pack-FitsDatagram group [] h hs = (h, tt)
pack-FitsDatagram group (e ∷ es) h (p, hs) =
    elim (Bool-cases (ltb 550 (4 + length (encodings group) + length (event_bytes e)))) [
      | inl close ↦ rw close (
        h,
        pack-FitsDatagram (e ∷ []) es
            (omega (arith, p, length-append (event_bytes e) []), omega arith) hs,
      )
      | inr extend ↦ rw extend (
          pack-FitsDatagram (group ++ (e ∷ [])) es
            (room extend, omega (arith, length-append group (e ∷ []))) hs)
    ]
  where
    room :
        ltb 550 (4 + length (encodings group) + length (event_bytes e)) ≡ false
        → 4 + length (encodings (group ++ (e ∷ []))) ≤ 550
    room q =
        let small : 4 + length (encodings group) + length (event_bytes e) ≤ 550 = ground arith in
        omega (
          arith,
          small,
          ap length (encodings-append group (e ∷ [])),
          length-append (encodings group) (event_bytes e ++ []),
          length-append (event_bytes e) [],
        )
