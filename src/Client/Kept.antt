-- ===== src/Client/Kept.antt =====
-- What a message of the server and the keys leave of the state of the client.
use sik_screen_worms.Prelude.{
  ℕ, ◌+◌, ◌%◌, ◌^◌, ◌<◌, ◌≡◌, refl, sym, ◌∙◌, subst, arith, Option, some, List, [], ◌∷◌, inl, inr,
  length,
}
use sik_screen_worms.Messages.{GameEvent, Outcome, ok, refused, fault}
use sik_screen_worms.Game.Emitting.{Numbered}
use sik_screen_worms.GuiMessages.{
  GuiAction, error, left_key_down, left_key_up, right_key_down, right_key_up,
}
use sik_screen_worms.GameClient.{game_client_recv}
use sik_screen_worms.GameClient.Receiving.{game_client_recv_total}
use sik_screen_worms.Client.{
  KeyState, View, ClientState, Ran, returns, press, press_all, deliver, view_for, on_game_restart,
  handle_server_message,
}
use sik_screen_worms.Client.Ordered.{Ran-cases, deliver-Taken}

press-lt :
    (a : GuiAction) (k : KeyState) → k.turn_direction < 256 → (press a k).turn_direction < 256
unfolding press
press-lt left_key_down k h = omega arith
press-lt right_key_down k h = omega arith
press-lt left_key_up k h = ground arith
press-lt right_key_up k h = ground arith
press-lt error k h = h

pub press_all-lt :
    (list : List GuiAction) (k : KeyState)
    → k.turn_direction < 256
    → (press_all list k).turn_direction < 256
unfolding press_all
press_all-lt [] k h = h
press_all-lt (a ∷ rest) k h = press_all-lt rest (press a k) (press-lt a k h)

Numbered-lt : (n m : ℕ) (es : List GameEvent) → n < 2 ^ 32 → Numbered n es m → m < 2 ^ 32
Numbered-lt n m [] h e = omega (arith, e)
Numbered-lt n m (x ∷ es) h (_, r) = Numbered-lt ((n + 1) % 2 ^ 32) m es (omega arith) r

state_of :
    (t u : ClientState) (x y : List ℕ)
    → ◌≡◌ {A = Ran (ClientState × List ℕ)} (returns (t, x)) (returns (u, y))
    → t ≡ u
state_of t u x y e = cc

-- The client's own state behind a message of the server.
pub record Kept (s t : ClientState) : Type 0 where
  pub keys : t.keys ≡ s.keys
  pub message : t.client_message ≡ s.client_message
  pub array : length t.game_buffer ≡ 1024
  pub expected : t.view.next_expected_event_no < 2 ^ 32

view_for-lt :
    (v : View) (game_id : ℕ)
    → v.next_expected_event_no < 2 ^ 32
    → (view_for v game_id).next_expected_event_no < 2 ^ 32
unfolding on_game_restart
view_for-lt v game_id h = ground arith

pub handle_server_message-Kept :
    (s t : ClientState) (datagram : Option (List ℕ)) (send : ℕ → ℕ → Option ℕ) (text : List ℕ)
    → length s.game_buffer ≡ 1024
    → s.view.next_expected_event_no < 2 ^ 32
    → handle_server_message s datagram send ≡ returns (t, text)
    → Kept s t
unfolding handle_server_message
handle_server_message-Kept s t datagram send text size h run =
    let (buffer, r, e, n) = game_client_recv_total s.game_buffer datagram size in
    go buffer r e n run
  where
    go :
        (buffer : List ℕ) (r : Outcome (ℕ × List GameEvent))
        → game_client_recv s.game_buffer datagram ≡ some (buffer, r)
        → length buffer ≡ 1024
        → handle_server_message s datagram send ≡ returns (t, text)
        → Kept s t
    go buffer fault e n run = absurd (ground (arith, run, e))
    go buffer refused e n run =
        subst (Kept s)
          (state_of (record s { game_buffer = buffer }) t [] text
            (sym (rw (handle_server_message, e)) ∙ run))
          (record { keys = refl; message = refl; array = n; expected = h })
    go buffer (ok (game_id, [])) e n run =
        subst (Kept s)
          (state_of (record s { game_buffer = buffer }) t [] text
            (sym (rw (handle_server_message, e)) ∙ run))
          (record { keys = refl; message = refl; array = n; expected = h })
    go buffer (ok (game_id, x ∷ xs)) e n run =
        elim (Ran-cases (deliver send (x ∷ xs) (view_for s.view game_id) s.gui_buffer)) [
          | inl k ↦ absurd (ground (arith, run, e, k))
          | inr (inl k) ↦ absurd (ground (arith, run, e, k))
          | inr (inr ((w, b, later), k)) ↦
              let taken =
                deliver-Taken send (x ∷ xs) (view_for s.view game_id) w s.gui_buffer b later k in
              subst (Kept s)
                (state_of (record s { game_buffer = buffer; view = w; gui_buffer = b }) t later text
                  (sym (rw (handle_server_message, e, k)) ∙ run))
                (record {
                  keys = refl;
                  message = refl;
                  array = n;
                  expected =
                      Numbered-lt (view_for s.view game_id).next_expected_event_no
                        w.next_expected_event_no taken.done (view_for-lt s.view game_id h)
                        taken.in_order;
                })
        ]
