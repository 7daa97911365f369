-- ===== src/GuiClient/Sending.antt =====
-- A text goes out whole, in as many calls of `send` as it takes.
use sik_screen_worms.Prelude.{
  ℕ, zero, suc, ◌+◌, ◌<◌, ◌≡◌, refl, ap, ◌∙◌, arith, true, false, Option, some, List, [], ◌∷◌, ◌++◌,
  ltb, ◌==◌, ◌-◌, ◌≤◌, sym, take, drop, length, All, get_elem?, length-append, length-take,
  length-drop, take-append-drop, append_assoc,
}
use sik_screen_worms.Memory.{write_at, read_at}
use sik_screen_worms.Memory.Laws.{write_at_lem, read_at_lem, split_at}
use sik_screen_worms.Messages.{EventData}
use sik_screen_worms.GuiMessages.{serialize_client_gui_message, gui_text}
use sik_screen_worms.GuiClient.{send_text, gui_client_send_event}

abbrev pub sum : List ℕ → ℕ
sum [] = 0
sum (n ∷ ns) = n + sum ns

-- The calls of `send` take `cuts` bytes each, in turn: at least one, and together the whole text.
pub record Takes (send : ℕ → Option ℕ) (text : List ℕ) : Type 0 where
  pub cuts : List ℕ
  pub positive : All (λ n. 0 < n) cuts
  pub whole : sum cuts ≡ length text
  pub answers : (n : ℕ) → send n ≡ get_elem? cuts n

drop-drop : (n k : ℕ) (xs : List ℕ) → drop k (drop n xs) ≡ drop (n + k) xs
drop-drop zero k xs = let size : k ≡ 0 + k = omega arith in ap (λ m. drop m xs) size
drop-drop (suc n) zero [] = let size : suc n ≡ suc n + 0 = omega arith in ap (λ m. drop m []) size
drop-drop (suc n) (suc k) [] =
    let size : suc (n + suc k) ≡ suc n + suc k = omega arith in ap (λ m. drop m []) size
drop-drop (suc n) k (x ∷ xs) =
    let size : suc (n + k) ≡ suc n + k = omega arith in
    drop-drop n k xs ∙ ap (λ m. drop m (x ∷ xs)) size

drop_all : (n : ℕ) (xs : List ℕ) → length xs ≤ n → drop n xs ≡ []
drop_all zero [] h = refl
drop_all zero (x ∷ xs) h = elim h [ ]
drop_all (suc n) [] h = refl
drop_all (suc n) (x ∷ xs) h = drop_all n xs (omega arith)

-- What a call of `send` is given: the text behind the bytes sent before.
given_text :
    (text back : List ℕ) (total : ℕ)
    → total ≤ length text
    → read_at (text ++ back) total (length text - total) ≡ some (drop total text)
given_text text back total h =
    let shape : text ++ back ≡ take total text ++ (drop total text ++ back) =
      ap (λ l. l ++ back) (sym (take-append-drop total text))
      ∙ append_assoc (take total text) (drop total text) back in
    ap (λ l. read_at l total (length text - total)) shape
    ∙ read_at_lem (take total text) (drop total text) back total (length text - total)
        (omega (arith, length-take total text, h)) (sym (length-drop total text))

send_text-cuts :
    (send : ℕ → Option ℕ) (cuts : List ℕ) (fuel n : ℕ) (text back : List ℕ) (total : ℕ)
    → All (λ k. 0 < k) cuts
    → total + sum cuts ≡ length text
    → ((i : ℕ) → send (n + i) ≡ get_elem? cuts i)
    → sum cuts < fuel
    → send_text send fuel n (text ++ back) (length text) total ≡ some (drop total text, true)
unfolding send_text
send_text-cuts send cuts zero n text back total p w a h = elim h [ ]
send_text-cuts send [] (suc fuel) n text back total p w a h =
    let done : ltb total (length text) ≡ false = ground (arith, w) in
    rw done (ap (λ l. some (l, true)) (sym (drop_all total text (omega (arith, w)))))
send_text-cuts send (k ∷ cuts) (suc fuel) n text back total (q, p) w a h =
    let more : ltb total (length text) ≡ true = ground (arith, w, q) in
    let first : send n ≡ some k = ap send (omega arith) ∙ a 0 in
    let given = given_text text back total (omega (arith, w)) in
    let rest =
      send_text-cuts send cuts fuel (n + 1) text back (total + k) p (omega (arith, w))
        (λ i. ap send (omega arith) ∙ a (suc i)) (omega (arith, h, q)) in
    rw (more, given, first, rest)
      (ap (λ l. some (l, true))
        (ap (λ l. take k (drop total text) ++ l) (sym (drop-drop total k text))
          ∙ take-append-drop k (drop total text)))

-- An event of some text that fits the buffer with its NUL: the bytes that the calls of `send` take,
-- one call after the other, are exactly the text, and the call succeeds, however `send` splits the
-- text, as long as each call takes a byte at least. The loop ends.
pub gui_client_send_event-whole :
    (send : ℕ → Option ℕ) (buffer : List ℕ) (event : EventData) (names : List (List ℕ))
    (text : List ℕ)
    → gui_text event names ≡ some text
    → 0 < length text
    → length text < length buffer
    → Takes send text
    → (after : List ℕ) × (gui_client_send_event send buffer event names ≡ some (after, text, true))
      × (length after ≡ length buffer)
unfolding gui_client_send_event serialize_client_gui_message
gui_client_send_event-whole send buffer event names text e h k t =
    let (front, back, b, f, _) = split_at (length text + 1) buffer (omega (arith, k)) in
    let size : length (text ++ (0 ∷ [])) ≡ length text + 1 = length-append text (0 ∷ []) in
    let after : List ℕ = text ++ (0 ∷ back) in
    let empty : (length text == 0) ≡ false = ground arith in
    let written : write_at buffer 0 (text ++ (0 ∷ [])) ≡ some after =
      ap (λ l. write_at l 0 (text ++ (0 ∷ []))) b
      ∙ write_at_lem [] front back (text ++ (0 ∷ [])) 0 refl (omega (arith, f, size))
      ∙ ap some (append_assoc text (0 ∷ []) back) in
    let sent : send_text send (length text + 1) 0 after (length text) 0 ≡ some (text, true) =
      send_text-cuts send t.cuts (length text + 1) 0 text (0 ∷ back) 0 t.positive
        (omega (arith, t.whole)) (λ i. ap send (omega arith) ∙ t.answers i)
        (omega (arith, t.whole)) in
    (
      after,
      rw (e, empty, written, empty, sent),
      omega (arith, length-append text (0 ∷ back), length-append front back, f, ap length b),
    )
