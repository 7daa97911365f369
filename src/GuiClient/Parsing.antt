-- ===== src/GuiClient/Parsing.antt =====
-- The client reads the messages of the interface: the loop over them comes to an end, and the key
-- messages come out as the interface put them in.
use sik_screen_worms.Prelude.{
  ℕ, zero, suc, ◌+◌, ◌-◌, ◌≤◌, ◌<◌, ◌≡◌, refl, sym, ap, ◌∙◌, arith, true, false, some, List, [],
  ◌∷◌, ◌++◌, inl, inr, ltb, leb, ◌==◌, length, take, All, take_all, drop, replicate, Bool-cases,
  length-append, append_assoc, append-nil, drop-append, take-append,
}
use mathlib.Core.Path.{ap₂}
use mathlib.Core.List.{flatten}
use sik_screen_worms.GuiMessages.{
  GuiAction, error, left_key_down, left_key_up, right_key_down, right_key_up, text_left, text_right,
  text_key_down, text_key_up, line_length, action_of, deserialize_gui_client_message,
}
use sik_screen_worms.GuiMessages.Lines.{deserialize_gui_client_message-consumes}
use sik_screen_worms.GuiClient.{
  recv_stream, parse_actions, StreamEnd, would_block, closed, failed, GuiReceived, lost, actions,
  gui_client_recv_event,
}

-- Each message takes a byte at least.
parse_actions_total :
    (fuel : ℕ) (buffer : List ℕ) (total_rec total_des : ℕ) (list : List GuiAction)
    → total_rec - total_des < fuel
    → (r : List GuiAction) × (parse_actions fuel buffer total_rec total_des list ≡ some r)
unfolding parse_actions
parse_actions_total zero buffer total_rec total_des list h = elim h [ ]
parse_actions_total (suc fuel) buffer total_rec total_des list h =
    elim (Bool-cases (ltb total_des total_rec)) [
      | inr done ↦ (list, rw done)
      | inl more ↦
          let m = deserialize_gui_client_message (drop total_des buffer) (total_rec - total_des) in
          let taken =
            deserialize_gui_client_message-consumes (drop total_des buffer) (total_rec - total_des)
              (ground (arith, more)) in
          let (r, rest) =
            parse_actions_total fuel buffer total_rec (total_des + m.1) (list ++ (m.0 ∷ []))
              (omega (arith, h, taken.0)) in
          (r, rw more rest)
    ]

-- The line that stands for a key, and any other stands for none.
abbrev pub key_line : GuiAction → List ℕ
key_line left_key_down = text_left ++ text_key_down
key_line left_key_up = text_left ++ text_key_up
key_line right_key_down = text_right ++ text_key_down
key_line right_key_up = text_right ++ text_key_up
key_line error = 10 ∷ []

abbrev pub key_lines : List GuiAction → List ℕ
key_lines [] = []
key_lines (a ∷ rest) = key_line a ++ key_lines rest

line_length-line :
    (front rest : List ℕ) (left : ℕ)
    → All (λ c. (c == 10) ≡ false) front
    → length front < left
    → line_length left (front ++ (10 ∷ rest)) ≡ some (length front + 1)
unfolding line_length
line_length-line front rest zero p h = elim h [ ]
line_length-line [] rest (suc left) p h = refl
line_length-line (c ∷ front) rest (suc left) (q, p) h =
    rw (q, line_length-line front rest left p (omega (arith, h))) (ap some (omega arith))

-- A key, by its line without the end.
line_read :
    (front rest : List ℕ) (left : ℕ) (a : GuiAction)
    → All (λ c. (c == 10) ≡ false) front
    → length front < left
    → action_of (front ++ (10 ∷ [])) ≡ a
    → deserialize_gui_client_message ((front ++ (10 ∷ [])) ++ rest) left
      ≡ (a, length (front ++ (10 ∷ [])))
unfolding deserialize_gui_client_message
line_read front rest left a p h e =
    let size : length (front ++ (10 ∷ [])) ≡ length front + 1 = length-append front (10 ∷ []) in
    let found : line_length left ((front ++ (10 ∷ [])) ++ rest) ≡ some (length front + 1) =
      ap (line_length left) (append_assoc front (10 ∷ []) rest)
      ∙ line_length-line front rest left p h in
    let line : take (length front + 1) ((front ++ (10 ∷ [])) ++ rest) ≡ front ++ (10 ∷ []) =
      ap (λ n. take n ((front ++ (10 ∷ [])) ++ rest)) (sym size)
      ∙ take-append (front ++ (10 ∷ [])) rest in
    rw (deserialize_gui_client_message, found, line, e, size)

read_line :
    (a : GuiAction) (rest : List ℕ) (left : ℕ)
    → length (key_line a) ≤ left
    → deserialize_gui_client_message (key_line a ++ rest) left ≡ (a, length (key_line a))
unfolding action_of
read_line left_key_down rest left h =
    line_read
      (b'L' ∷ b'E' ∷ b'F' ∷ b'T' ∷ b'_' ∷ b'K' ∷ b'E' ∷ b'Y' ∷ b'_' ∷ b'D' ∷ b'O' ∷ b'W' ∷ b'N'
        ∷ [])
      rest left left_key_down (ground arith) (omega (arith, h)) refl
read_line left_key_up rest left h =
    line_read (take 11 (key_line left_key_up)) rest left left_key_up (ground arith)
      (omega (arith, h)) refl
read_line right_key_down rest left h =
    line_read (take 14 (key_line right_key_down)) rest left right_key_down (ground arith)
      (omega (arith, h)) refl
read_line right_key_up rest left h =
    line_read (take 12 (key_line right_key_up)) rest left right_key_up (ground arith)
      (omega (arith, h)) refl
read_line error rest left h = line_read [] rest left error tt (omega (arith, h)) refl

length-key_line : (a : GuiAction) → 0 < length (key_line a)
length-key_line left_key_down = ground arith
length-key_line left_key_up = ground arith
length-key_line right_key_down = ground arith
length-key_line right_key_up = ground arith
length-key_line error = ground arith

parse_actions-key_lines :
    (fuel : ℕ) (front rest : List ℕ) (list found : List GuiAction) (total_rec total_des : ℕ)
    → total_des ≡ length front
    → total_rec ≡ total_des + length (key_lines list)
    → length (key_lines list) < fuel
    → parse_actions fuel (front ++ (key_lines list ++ rest)) total_rec total_des found
      ≡ some (found ++ list)
unfolding parse_actions
parse_actions-key_lines zero front rest list found total_rec total_des e n h = elim h [ ]
parse_actions-key_lines (suc fuel) front rest [] found total_rec total_des e n h =
    let done : ltb total_des total_rec ≡ false = ground (arith, n) in rw (done, append-nil)
parse_actions-key_lines (suc fuel) front rest (a ∷ list) found total_rec total_des e n h =
    let size = length-append (key_line a) (key_lines list) in
    let some_text : 0 < length (key_line a) = length-key_line a in
    let more : ltb total_des total_rec ≡ true = ground (arith, n, size, some_text) in
    let buffer : List ℕ = front ++ ((key_line a ++ key_lines list) ++ rest) in
    let place : drop total_des buffer ≡ key_line a ++ (key_lines list ++ rest) =
      ap₂ drop e (ap (λ t. front ++ t) (append_assoc (key_line a) (key_lines list) rest))
      ∙ drop-append front (key_line a ++ (key_lines list ++ rest)) in
    let read : deserialize_gui_client_message (drop total_des buffer) (total_rec - total_des)
        ≡ (a, length (key_line a)) =
      ap (λ t. deserialize_gui_client_message t (total_rec - total_des)) place
      ∙ read_line a (key_lines list ++ rest) (total_rec - total_des) (omega (arith, n, size)) in
    let shape : buffer ≡ (front ++ key_line a) ++ (key_lines list ++ rest) = simp append_assoc in
    rw (more, read)
      (ap
          (λ b.
            parse_actions fuel b total_rec (total_des + length (key_line a)) (found ++ (a ∷ [])))
          shape
        ∙ parse_actions-key_lines fuel (front ++ key_line a) rest list (found ++ (a ∷ [])) total_rec
            (total_des + length (key_line a)) (omega (arith, e, length-append front (key_line a)))
            (omega (arith, n, size)) (omega (arith, h, size, some_text))
        ∙ ap some (append_assoc found (a ∷ []) list))

recv_stream-flatten :
    (pieces : List (List ℕ)) (end full : StreamEnd) (received : List ℕ)
    → length received + length (flatten pieces) < 2048
    → recv_stream pieces end full received ≡ (received ++ flatten pieces, end)
unfolding recv_stream flatten
recv_stream-flatten [] end full received h =
    let room : leb 2048 (length received) ≡ false = ground (arith, h) in rw (room, append-nil)
recv_stream-flatten (piece ∷ pieces) end full received h =
    let size = length-append piece (flatten pieces) in
    let room : leb 2048 (length received) ≡ false = ground (arith, h) in
    rw (room, take_all (2048 - length received) piece (omega (arith, h, size)))
      (recv_stream-flatten pieces end full (received ++ piece)
          (omega (arith, h, size, length-append received piece))
        ∙ ap (λ t. (t, end)) (append_assoc received piece (flatten pieces)))

-- Key messages of less than 2048 bytes together, behind which the stream has nothing more for now,
-- come out as their actions, in order, however the stream cuts them into pieces.
pub gui_client_recv_event-key_lines :
    (pieces : List (List ℕ)) (list : List GuiAction) (full : StreamEnd)
    → flatten pieces ≡ key_lines list
    → length (key_lines list) < 2048
    → gui_client_recv_event pieces would_block full
      ≡ some (
        key_lines list ++ replicate (2048 - length (key_lines list)) 0,
        actions (length (key_lines list)) list,
      )
unfolding gui_client_recv_event
gui_client_recv_event-key_lines pieces list full e h =
    let got : recv_stream pieces would_block full [] ≡ (key_lines list, would_block) =
      recv_stream-flatten pieces would_block full [] (omega (arith, h, ap length e))
      ∙ ap (λ t. (t, would_block)) e in
    let text : List ℕ = key_lines list in
    rw (
      got,
      parse_actions-key_lines (length text + 1) [] (replicate (2048 - length text) 0) list []
          (length text) 0 refl (omega arith) (omega arith),
    )

-- The call always returns: whatever the interface sends, and whatever `recv` answers at the end and
-- when the buffer is full, the loop that parses the bytes comes to an end.
pub gui_client_recv_event_total :
    (pieces : List (List ℕ)) (end full : StreamEnd)
    → (after : List ℕ) × (r : GuiReceived) × (gui_client_recv_event pieces end full
        ≡ some (after, r))
unfolding gui_client_recv_event
gui_client_recv_event_total pieces end full = go (recv_stream pieces end full []) refl
  where
    cleared : List ℕ → List ℕ
    cleared received = received ++ replicate (2048 - length received) 0

    go :
        (got : List ℕ × StreamEnd)
        → recv_stream pieces end full [] ≡ got
        → (after : List ℕ) × (r : GuiReceived) × (gui_client_recv_event pieces end full
            ≡ some (after, r))
    go (received, failed) e = (cleared received, GuiReceived.error, rw e)
    go (received, closed) e = (cleared received, lost, rw e)
    go (received, would_block) e =
        let (list, parsed) =
          parse_actions_total (length received + 1) (cleared received) (length received) 0 []
            (omega arith) in
        (cleared received, actions (length received) list, rw (e, parsed))
