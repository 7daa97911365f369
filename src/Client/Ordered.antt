-- ===== src/Client/Ordered.antt =====
-- The events of a message reach the interface in the order of their numbers, with none left out.
use sik_screen_worms.Prelude.{
  ℕ, ◌+◌, ◌%◌, ◌^◌, ◌≡◌, refl, sym, ap, ◌∙◌, arith, Bool, true, false, Option, none, some, List, [],
  ◌∷◌, ◌++◌, inl, inr, ◌⊎◌, subst, Bool-cases, Option-cases, ◌==◌, ==_iff,
}
use sik_screen_worms.Messages.{
  GameEvent, EventData, new_game, pixel, player_eliminated, game_over, unknown,
}
use sik_screen_worms.Game.Emitting.{Numbered}
use sik_screen_worms.GuiClient.{gui_client_send_event}
use sik_screen_worms.Client.{
  View, Ran, returns, exits, faults, check_event, on_event_new_game, on_event_pixel,
  on_event_player_eliminated, is_shown, next_event, shown, deliver,
}

-- A check changes neither the number expected nor the game.
pub record SameGame (v w : View) : Type 0 where
  pub same_number : w.next_expected_event_no ≡ v.next_expected_event_no
  pub same_game : w.current_game_id ≡ v.current_game_id

check_body-SameGame :
    (v w : View) (n : ℕ) (body : EventData)
    → check_event v (record { event_no = n; body = body }) ≡ some w
    → SameGame v w
unfolding check_event on_event_new_game on_event_pixel on_event_player_eliminated
check_body-SameGame v w n (new_game d) h = ground arith
check_body-SameGame v w n (pixel d) h = ground arith
check_body-SameGame v w n (player_eliminated d) h = ground arith
check_body-SameGame v w n game_over h = ground arith
check_body-SameGame v w n (unknown t) h = ground arith

pub check_event-SameGame : (v w : View) (e : GameEvent) → check_event v e ≡ some w → SameGame v w
check_event-SameGame v w e h = check_body-SameGame v w e.event_no e.body h

-- What `deliver` left behind when it returned: the events taken, and the rest.
pub record Taken (v : View) (es : List GameEvent) (w : View) : Type 0 where
  pub done : List GameEvent
  pub rest : List GameEvent
  pub split : es ≡ done ++ rest
  pub in_order : Numbered v.next_expected_event_no done w.next_expected_event_no
  pub game_kept : w.current_game_id ≡ v.current_game_id

take_none : (v w : View) (es : List GameEvent) → SameGame v w → Taken v es w
take_none v w es s = record {
  done = [];
  rest = es;
  split = refl;
  in_order = sym s.same_number;
  game_kept = s.same_game;
}

take_more :
    (v u w : View) (e : GameEvent) (es : List GameEvent)
    → e.event_no ≡ v.next_expected_event_no
    → SameGame v u
    → Taken (next_event u) es w
    → Taken v (e ∷ es) w
take_more v u w e es n s t = record {
  done = e ∷ t.done;
  rest = t.rest;
  split = ap (λ l. e ∷ l) t.split;
  in_order = (
    n,
    subst (λ k. Numbered ((k + 1) % 2 ^ 32) t.done w.next_expected_event_no) s.same_number
        t.in_order,
  );
  game_kept = t.game_kept ∙ s.same_game;
}

pub Ran-cases {ℓ} :
    {A : Type ℓ} (r : Ran A) → (r ≡ exits) ⊎ ((r ≡ faults) ⊎ ((a : A) × (r ≡ returns a)))
Ran-cases exits = inl refl
Ran-cases faults = inr (inl refl)
Ran-cases (returns a) = inr (inr (a, refl))

-- Behind the switch, the loop has stopped or went on.
after_shown :
    (u w : View) (sent : Option (List ℕ × List ℕ × Bool))
    (rest : View → List ℕ → Ran (View × List ℕ × List ℕ)) (after text : List ℕ)
    → shown u sent rest ≡ returns (w, after, text)
    → (u ≡ w) ⊎ ((b t : List ℕ) × (rest (next_event u) b ≡ returns (w, after, t)))
unfolding shown
after_shown u w none rest after text h = cc
after_shown u w (some (b, t, false)) rest after text h = inl (ground (arith, h))
after_shown u w (some (b, t, true)) rest after text h = elim (Ran-cases (rest (next_event u) b)) [
  | inl e ↦ absurd (ground (arith, h, e))
  | inr (inl e) ↦ absurd (ground (arith, h, e))
  | inr (inr ((w', a', t'), e)) ↦ inr (b, t', e ∙ ground (arith, h, e))
]

-- The loop over the events of a message, whatever they are and whatever `send` answers: if it
-- returns, then it took a first part of them, numbered one after another from the number expected,
-- and the number expected afterwards is the next one. The id of the game stays.
pub deliver-Taken :
    (send : ℕ → ℕ → Option ℕ) (es : List GameEvent) (v w : View) (buffer after text : List ℕ)
    → deliver send es v buffer ≡ returns (w, after, text)
    → Taken v es w
unfolding deliver
deliver-Taken send [] v w buffer after text h = take_none v w [] (ground arith)
deliver-Taken send (e ∷ es) v w buffer after text h =
    elim (Bool-cases (e.event_no == v.next_expected_event_no)) [
      | inr other ↦ take_none v w (e ∷ es) (ground (arith, h, other))
      | inl same ↦ elim (Option-cases (check_event v e)) [
        | inl bad ↦ absurd (ground (arith, h, same, bad))
        | inr (u, checked) ↦
            let s = check_event-SameGame v u e checked in
            let n = (==_iff e.event_no v.next_expected_event_no).0 same in
            elim (Bool-cases (is_shown e.body)) [
              | inr hidden ↦ take_more v u w e es n s (
                  deliver-Taken send es (next_event u) w buffer after text
                    (subst (λ t. t ≡ returns (w, after, text)) (rw (same, checked, hidden)) h))
              | inl seen ↦
                  elim (after_shown u w
                    (gui_client_send_event (send e.event_no) buffer e.body u.players_names)
                    (λ x b. deliver send es x b) after text
                    (subst (λ t. t ≡ returns (w, after, text)) (rw (same, checked, seen)) h)) [
                      | inl stopped ↦ take_none v w (e ∷ es) (subst (SameGame v) stopped s)
                      | inr (b, t, more) ↦
                          take_more v u w e es n s
                            (deliver-Taken send es (next_event u) w b after t more)
                    ]
            ]
      ]
    ]
