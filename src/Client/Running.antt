-- ===== src/Client/Running.antt =====
-- What holds of the client between two messages, and that the loop of `main` keeps it.
use sik_screen_worms.Prelude.{
  ℕ, zero, suc, ◌+◌, ◌^◌, ◌≤◌, ◌<◌, ◌≡◌, refl, sym, ap, ◌∙◌, subst, arith, true, false, Option,
  none, some, List, [], ◌∷◌, ◌++◌, inl, inr, ◌==◌, if◌then◌else◌, length, drop, length-append,
  length-drop,
}
use sik_screen_worms.Memory.{read_at}
use sik_screen_worms.Memory.Laws.{read_at_lem}
use sik_screen_worms.Messages.{ClientMessage}
use sik_screen_worms.Messages.Client.{serialize_client_message}
use sik_screen_worms.Messages.ClientLaws.{
  IsMessage, client_bytes, serialize_client_message_lem, length-client_bytes,
}
use sik_screen_worms.GuiClient.{StreamEnd, gui_client_recv_event, GuiReceived, lost, actions}
use sik_screen_worms.GuiClient.Parsing.{gui_client_recv_event_total}
use sik_screen_worms.GameClient.{game_client_send}
use sik_screen_worms.Client.{
  KeyState, ClientState, Ran, returns, press_all, handle_gui_message, handle_tick,
  handle_server_message,
}
use sik_screen_worms.Client.Ordered.{Ran-cases}
use sik_screen_worms.Client.Kept.{press_all-lt, handle_server_message-Kept}
use sik_screen_worms.Client.Session.{
  Ready, timer, gui, server, Sent, wrap, handle_ready, run_client,
}

-- What holds of the client between two messages.
pub record Running (s : ClientState) (session : ℕ) (name : List ℕ) : Type 0 where
  pub message : IsMessage s.client_message name
  pub same_session : s.client_message.session_id ≡ session
  pub array : length s.game_buffer ≡ 1024
  pub direction : s.keys.turn_direction < 256
  pub expected : s.view.next_expected_event_no < 2 ^ 32

-- The message that a tick sends.
abbrev pub tick_message : ClientState → ClientMessage
tick_message s = record s.client_message {
  turn_direction = s.keys.turn_direction;
  next_expected_event_no = s.view.next_expected_event_no;
}

game_client_send_lem :
    (buffer : List ℕ) (m : ClientMessage) (name : List ℕ) (answer : Option ℕ)
    → IsMessage m name
    → 13 + length name ≤ length buffer
    → (r : Option ℕ) × (game_client_send buffer m answer
        ≡ some (client_bytes m name ++ drop (13 + length name) buffer, client_bytes m name, r))
unfolding game_client_send
game_client_send_lem buffer m name answer v room =
    let rest : List ℕ = drop (13 + length name) buffer in
    let wire : List ℕ = client_bytes m name in
    let written : serialize_client_message buffer m ≡ some (wire ++ rest, 13 + length name) =
      serialize_client_message_lem m name v buffer room in
    let read : read_at (wire ++ rest) 0 (13 + length name) ≡ some wire =
      read_at_lem [] wire rest 0 (13 + length name) refl (sym (length-client_bytes m name)) in
    (
      elim answer [
        | none ↦ none
        | some n ↦ if n == 13 + length name then some (13 + length name) else none
      ],
      rw (game_client_send, written, read),
    )

-- A tick with a state between two messages: it returns, with the bytes of the message sent.
pub handle_tick-Running :
    (s : ClientState) (session : ℕ) (name : List ℕ) (answer : Option ℕ)
    → Running s session name
    → (t : ClientState) × (handle_tick s answer ≡ returns (t, client_bytes (tick_message s) name))
      × IsMessage (tick_message s) name
      × Running t session name
unfolding handle_tick
handle_tick-Running s session name answer h =
    let m : ClientMessage = tick_message s in
    let v : IsMessage m name = record {
      session = h.message.session;
      direction = h.direction;
      event_no = h.expected;
      text = h.message.text;
      short = h.message.short;
      padded = h.message.padded;
    } in
    let rest : List ℕ = drop (13 + length name) s.game_buffer in
    let wire : List ℕ = client_bytes m name in
    let size : length wire ≡ 13 + length name = length-client_bytes m name in
    let (r, sent) =
      game_client_send_lem s.game_buffer m name answer v (omega (arith, h.array, v.short)) in
    (
      record s { client_message = m; game_buffer = wire ++ rest },
      rw (handle_tick, sent),
      v,
      record {
        message = v;
        same_session = h.same_session;
        array = omega (
          arith,
          length-append wire rest,
          size,
          length-drop (13 + length name) s.game_buffer,
          h.array,
          v.short,
        );
        direction = h.direction;
        expected = h.expected;
      },
    )

wrap-returns {ℓ κ} :
    {A : Type ℓ} {B : Type κ} (f : A → B) (r : Ran A) (a : A) (b : B)
    → r ≡ returns a
    → wrap f r ≡ returns b
    → f a ≡ b
wrap-returns f r a b e h = cc

suc-eq_zero : (n : ℕ) → (suc n == 0) ≡ false
suc-eq_zero n = ground arith

returned : (s t : ClientState) → returns s ≡ returns t → s ≡ t
returned s t e = cc

-- The keys and the array are all that a message of the interface changes.
handle_gui_message-Running :
    (s t : ClientState) (session : ℕ) (name : List ℕ) (pieces : List (List ℕ))
    (end full : StreamEnd)
    → Running s session name
    → handle_gui_message s pieces end full ≡ returns t
    → Running t session name
unfolding handle_gui_message
handle_gui_message-Running s t session name pieces end full h run =
    let (after, r, e) = gui_client_recv_event_total pieces end full in go after r e run
  where
    go :
        (after : List ℕ) (r : GuiReceived)
        → gui_client_recv_event pieces end full ≡ some (after, r)
        → handle_gui_message s pieces end full ≡ returns t
        → Running t session name
    go after GuiReceived.error e run = absurd (ground (arith, run, e))
    go after lost e run = absurd (ground (arith, run, e))
    go after (actions zero list) e run = absurd (ground (arith, run, e))
    go after (actions (suc n) list) e run =
        let shape : returns (record s { keys = press_all list s.keys; gui_buffer = after })
            ≡ returns t =
          sym (rw (handle_gui_message, e, suc-eq_zero n)) ∙ run in
        subst (λ x. Running x session name) (returned _ t shape)
          (record {
            message = h.message;
            same_session = h.same_session;
            array = h.array;
            direction = press_all-lt list s.keys h.direction;
            expected = h.expected;
          })

-- The client that turned `s` into `t` on one descriptor.
handle_ready-Running :
    (s t : ClientState) (session : ℕ) (name : List ℕ) (r : Ready) (sent : List Sent)
    → Running s session name
    → handle_ready s r ≡ returns (t, sent)
    → Running t session name
unfolding handle_ready
handle_ready-Running s t session name (timer answer) sent h run =
    let (u, e, _, k) = handle_tick-Running s session name answer h in
    subst (λ x. Running x session name)
      (ap (λ (p : ClientState × List Sent). p.0)
        (wrap-returns _ (handle_tick s answer) _ (t, sent) e run))
      k
handle_ready-Running s t session name (gui true pieces end full) sent h run = cc
handle_ready-Running s t session name (gui false pieces end full) sent h run =
    elim (Ran-cases (handle_gui_message s pieces end full)) [
      | inl k ↦ absurd (ground (arith, run, k))
      | inr (inl k) ↦ absurd (ground (arith, run, k))
      | inr (inr (u, k)) ↦
          subst (λ x. Running x session name)
            (ap (λ (p : ClientState × List Sent). p.0)
              (wrap-returns (λ (x : ClientState). (x, [])) (handle_gui_message s pieces end full) u
                (t, sent) k run))
            (handle_gui_message-Running s u session name pieces end full h k)
    ]
handle_ready-Running s t session name (server datagram send) sent h run =
    elim (Ran-cases (handle_server_message s datagram send)) [
      | inl e ↦ absurd (ground (arith, run, e))
      | inr (inl e) ↦ absurd (ground (arith, run, e))
      | inr (inr ((u, text), e)) ↦
          let k = handle_server_message-Kept s u datagram send text h.array h.expected e in
          subst (λ x. Running x session name)
            (ap (λ (p : ClientState × List Sent). p.0)
              (wrap-returns _ (handle_server_message s datagram send) _ (t, sent) e run))
            (record {
              message = subst (λ m. IsMessage m name) (sym k.message) h.message;
              same_session = ap (λ (m : ClientMessage). m.session_id) k.message ∙ h.same_session;
              array = k.array;
              direction = subst (λ (q : KeyState). q.turn_direction < 256) (sym k.keys) h.direction;
              expected = k.expected;
            })
    ]

pub run_client-Running :
    (readies : List Ready) (s t : ClientState) (session : ℕ) (name : List ℕ) (sent : List Sent)
    → Running s session name
    → run_client s readies ≡ returns (t, sent)
    → Running t session name
unfolding run_client
run_client-Running [] s t session name sent h run =
    subst (λ x. Running x session name) (ground (arith, run)) h
run_client-Running (r ∷ rs) s t session name sent h run = elim (Ran-cases (handle_ready s r)) [
  | inl e ↦ absurd (ground (arith, run, e))
  | inr (inl e) ↦ absurd (ground (arith, run, e))
  | inr (inr ((u, out), e)) ↦
      let k = handle_ready-Running s u session name r out h e in
      elim (Ran-cases (run_client u rs)) [
        | inl e2 ↦ absurd (ground (arith, run, e, e2))
        | inr (inl e2) ↦ absurd (ground (arith, run, e, e2))
        | inr (inr ((w, later), e2)) ↦
            let ends : w ≡ t =
              ap (λ (p : ClientState × List Sent). p.0)
                (wrap-returns (λ (p : ClientState × List Sent). (p.0, out ++ p.1)) (run_client u rs)
                  (w, later) (t, sent) e2 (sym (rw (run_client, e)) ∙ run)) in
            subst (λ x. Running x session name) ends
              (run_client-Running rs u w session name later k e2)
      ]
]
