-- ===== src/Client/Playing.antt =====
-- The events of a game in one go, as a description of what the loop over the events of a message does
-- when the interface takes every line.
use sik_screen_worms.Prelude.{
  ℕ, ◌<◌, ◌≡◌, refl, sym, ap, ◌∙◌, subst, arith, true, false, Option, none, some, List, [], ◌∷◌,
  ◌++◌, inl, inr, Bool-cases, Option-cases, ◌==◌, if◌then◌else◌, length, All, append_assoc,
}
use mathlib.Core.Path.{ap₂}
use sik_screen_worms.Memory.{◌>>=◌}
use sik_screen_worms.Messages.{GameEvent}
use sik_screen_worms.GuiMessages.{gui_text}
use sik_screen_worms.GuiClient.{gui_client_send_event}
use sik_screen_worms.GuiClient.Sending.{Takes, gui_client_send_event-whole}
use sik_screen_worms.Client.{View, returns, check_event, is_shown, next_event, shown, deliver}
use sik_screen_worms.Client.Ordered.{check_event-SameGame}

-- A line of text for the interface, with the number of its event.
pub record Line : Type 0 where
  pub event_no : ℕ
  pub text : List ℕ

abbrev pub texts : List Line → List ℕ
texts [] = []
texts (l ∷ ls) = l.text ++ texts ls

abbrev pub add_line : ℕ → Option (List ℕ) → Option (View × List Line) → Option (View × List Line)
add_line n none rest = none
add_line n (some text) none = none
add_line n (some text) (some (v, lines)) = some (v, record { event_no = n; text = text } ∷ lines)

-- All the events of a game in one go: the view behind them and the lines for the interface. No
-- buffer, no message and no socket is involved. `none` is an event that does not fit in.
unfoldable pub play : View → List GameEvent → Option (View × List Line)
play v [] = some (v, [])
play v (e ∷ es) =
    if e.event_no == v.next_expected_event_no
    then (check_event v e >>= λ u.
        let rest = play (next_event u) es in
        if is_shown e.body
        then add_line e.event_no (gui_text e.body u.players_names) rest
        else rest)
    else none

-- The line is no empty one, it fits the buffer, and the interface takes it.
pub record IsTaken (send : ℕ → ℕ → Option ℕ) (l : Line) : Type 0 where
  pub nonempty : 0 < length l.text
  pub fits : length l.text < 2048
  pub taken : Takes (send l.event_no) l.text

-- What `play` made of an event that is shown.
line_first :
    (n : ℕ) (o : Option (List ℕ)) (rest : Option (View × List Line)) (w : View) (lines : List Line)
    → add_line n o rest ≡ some (w, lines)
    → (text : List ℕ) × (later : List Line) × (o ≡ some text)
      × (rest ≡ some (w, later))
      × (lines ≡ record { event_no = n; text = text } ∷ later)
line_first n none rest w lines h = cc
line_first n (some text) none w lines h = cc
line_first n (some text) (some (v, later)) w lines h =
    (text, later, refl, ground (arith, h), ground (arith, h))

-- One round of the loop on an event that passes its check.
module _ (v u : View) (e : GameEvent) (es : List GameEvent)
    (same : (e.event_no == v.next_expected_event_no) ≡ true)
    (checked : check_event v e ≡ some u) where
  pub play_hidden : is_shown e.body ≡ false → play v (e ∷ es) ≡ play (next_event u) es
  unfolding play
  play_hidden hidden = rw (same, checked, hidden)

  pub play_seen :
      is_shown e.body ≡ true
      → play v (e ∷ es)
        ≡ add_line e.event_no (gui_text e.body u.players_names) (play (next_event u) es)
  unfolding play
  play_seen seen = rw (same, checked, seen)

  deliver_hidden :
      (send : ℕ → ℕ → Option ℕ) (buffer : List ℕ)
      → is_shown e.body ≡ false
      → deliver send (e ∷ es) v buffer ≡ deliver send es (next_event u) buffer
  unfolding deliver
  deliver_hidden send buffer hidden = rw (same, checked, hidden)

  deliver_seen :
      (send : ℕ → ℕ → Option ℕ) (buffer b text after later : List ℕ) (w : View)
      → is_shown e.body ≡ true
      → gui_client_send_event (send e.event_no) buffer e.body u.players_names ≡ some (b, text, true)
      → deliver send es (next_event u) b ≡ returns (w, after, later)
      → deliver send (e ∷ es) v buffer ≡ returns (w, after, text ++ later)
  unfolding deliver shown
  deliver_seen send buffer b text after later w seen sent run = rw (same, checked, seen, sent, run)

pub deliver-play :
    (send : ℕ → ℕ → Option ℕ) (es : List GameEvent) (v w : View) (lines : List Line)
    (buffer : List ℕ)
    → length buffer ≡ 2048
    → play v es ≡ some (w, lines)
    → All (IsTaken send) lines
    → (after : List ℕ) × (deliver send es v buffer ≡ returns (w, after, texts lines))
      × (length after ≡ 2048)
      × (w.current_game_id ≡ v.current_game_id)
unfolding deliver play
deliver-play send [] v w lines buffer size h taken =
    (buffer, ground (arith, h), size, ground (arith, h))
deliver-play send (e ∷ es) v w lines buffer size h taken =
    elim (Bool-cases (e.event_no == v.next_expected_event_no)) [
      | inr other ↦ absurd (ground (arith, h, other))
      | inl same ↦ elim (Option-cases (check_event v e)) [
        | inl bad ↦ absurd (ground (arith, h, same, bad))
        | inr (u, checked) ↦
            let s = check_event-SameGame v u e checked in
            elim (Bool-cases (is_shown e.body)) [
              | inr hidden ↦
                  let (after, run, n, g) =
                    deliver-play send es (next_event u) w lines buffer size
                      (sym (play_hidden v u e es same checked hidden) ∙ h) taken in
                  (
                    after,
                    deliver_hidden v u e es same checked send buffer hidden ∙ run,
                    n,
                    g ∙ s.same_game,
                  )
              | inl seen ↦
                  let (text, later, line, rest, all) =
                    line_first e.event_no (gui_text e.body u.players_names) (play (next_event u) es)
                      w lines (sym (play_seen v u e es same checked seen) ∙ h) in
                  let (first, others) = subst (All (IsTaken send)) all taken in
                  let (b, sent, m) =
                    gui_client_send_event-whole (send e.event_no) buffer e.body u.players_names text
                      line first.nonempty (omega (arith, first.fits, size)) first.taken in
                  let (after, run, n, g) =
                    deliver-play send es (next_event u) w later b (m ∙ size) rest others in
                  (
                    after,
                    deliver_seen v u e es same checked send buffer b text after (texts later) w seen
                          sent run
                        ∙ ap (λ l. returns (w, after, texts l)) (sym all),
                    n,
                    g ∙ s.same_game,
                  )
            ]
      ]
    ]

-- A first part of the events.
pub play-append :
    (es fs : List GameEvent) (v w : View) (lines : List Line)
    → play v (es ++ fs) ≡ some (w, lines)
    → (u : View) × (before after : List Line) × (play v es ≡ some (u, before))
      × (play u fs ≡ some (w, after))
      × (lines ≡ before ++ after)
unfolding play
play-append [] fs v w lines h = (v, [], lines, refl, h, refl)
play-append (e ∷ es) fs v w lines h = elim (Bool-cases (e.event_no == v.next_expected_event_no)) [
  | inr other ↦ absurd (ground (arith, h, other))
  | inl same ↦ elim (Option-cases (check_event v e)) [
    | inl bad ↦ absurd (ground (arith, h, same, bad))
    | inr (x, checked) ↦ elim (Bool-cases (is_shown e.body)) [
      | inr hidden ↦
          let (u, before, after, p, q, l) =
            play-append es fs (next_event x) w lines
              (sym (play_hidden v x e (es ++ fs) same checked hidden) ∙ h) in
          (u, before, after, play_hidden v x e es same checked hidden ∙ p, q, l)
      | inl seen ↦
          let (text, later, line, rest, all) =
            line_first e.event_no (gui_text e.body x.players_names) (play (next_event x) (es ++ fs))
              w lines (sym (play_seen v x e (es ++ fs) same checked seen) ∙ h) in
          let (u, before, after, p, q, l) = play-append es fs (next_event x) w later rest in
          let head : Line = record { event_no = e.event_no; text = text } in
          (
            u,
            head ∷ before,
            after,
            play_seen v x e es same checked seen ∙ ap₂ (add_line e.event_no) line p,
            q,
            all ∙ ap (λ t. head ∷ t) l,
          )
    ]
  ]
]

pub All-parts {ℓ} :
    {A : Type ℓ} (P : A → Type 0) (xs ys : List A) → All P (xs ++ ys) → All P xs × All P ys
All-parts P [] ys h = (tt, h)
All-parts P (x ∷ xs) ys (p, h) = let (a, b) = All-parts P xs ys h in ((p, a), b)

pub texts-append : (ls ms : List Line) → texts (ls ++ ms) ≡ texts ls ++ texts ms
texts-append [] ms = refl
texts-append (l ∷ ls) ms = rw (texts-append ls ms) (sym (append_assoc l.text (texts ls) (texts ms)))
