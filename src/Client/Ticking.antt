-- ===== src/Client/Ticking.antt =====
-- At each tick of the timer the client tells the server where it stands, whatever it received
-- before, and the server can read it.
use sik_screen_worms.Prelude.{
  ℕ, ◌+◌, ◌-◌, ◌%◌, ◌^◌, ◌≤◌, ◌≡◌, refl, sym, ap, ◌∙◌, subst, arith, false, Option, some, List, [],
  ◌∷◌, ◌++◌, inl, inr, ◌⊎◌, ◌==◌, length, drop, replicate, All, length-append, length-replicate,
  drop-append,
}
use sik_screen_worms.Memory.{read_at, strlen}
use sik_screen_worms.Memory.Laws.{IsText, strlen_lem, read_at_lem}
use sik_screen_worms.Messages.{ClientMessage, ok}
use sik_screen_worms.Messages.Client.{deserialize_client_message}
use sik_screen_worms.Messages.ClientLaws.{
  IsMessage, client_bytes, serialize_client_message_lem, name_stored, length-client_bytes,
}
use sik_screen_worms.Messages.ClientRoundTrip.{deserialize-serialize_client_message}
use sik_screen_worms.ClientArgs.{ClientArgs, success, parse_client_args}
use sik_screen_worms.ClientArgs.Names.{
  IsNameChar, IsPlayerName, Accepted, parse_client_args-Accepted,
}
use sik_screen_worms.ServerArgs.{Strtol}
use sik_screen_worms.Client.{ClientState, returns, handle_tick}
use sik_screen_worms.Client.Session.{
  name_array, init_client_session, initial, Ready, Sent, run_client,
}
use sik_screen_worms.Client.Running.{Running, tick_message, handle_tick-Running, run_client-Running}

some_inj : (a b : ClientMessage) → ◌≡◌ {A = Option ClientMessage} (some a) (some b) → a ≡ b
some_inj a b e = cc

some_first :
    (a b : List ℕ) (n : ℕ) → ◌≡◌ {A = Option (List ℕ × ℕ)} (some (a, n)) (some (b, n)) → a ≡ b
some_first a b n e = cc

-- A datagram is read by the server as the given message, whatever stands behind it in the array.
serialized_read :
    (m : ClientMessage) (name rest : List ℕ)
    → IsMessage m name
    → deserialize_client_message (client_bytes m name ++ rest) (13 + length name)
      ≡ ok (m, 13 + length name)
serialized_read m name rest v =
    let zeros : List ℕ = replicate (13 + length name) 0 in
    let size : length zeros ≡ 13 + length name = length-replicate (13 + length name) 0 in
    let room : 13 + length name ≤ length (zeros ++ rest) =
      omega (arith, length-append zeros rest, size) in
    let (written, w, read) = deserialize-serialize_client_message m name (zeros ++ rest) v room in
    let same : written ≡ client_bytes m name ++ rest =
      some_first written (client_bytes m name ++ drop (13 + length name) (zeros ++ rest))
        (13 + length name) (sym w ∙ serialize_client_message_lem m name v (zeros ++ rest) room)
      ∙ ap (λ t. client_bytes m name ++ t)
          (ap (λ n. drop n (zeros ++ rest)) (sym size) ∙ drop-append zeros rest) in
    ap (λ t. deserialize_client_message t (13 + length name)) (sym same) ∙ read

All-IsText : (text : List ℕ) → All IsNameChar text → IsText text
All-IsText [] h = tt
All-IsText (c ∷ cs) ((lo, hi), h) = ((omega arith, omega arith), All-IsText cs h)

-- The session starts with the name of the arguments.
name_array-fits :
    (name : List ℕ)
    → (name ≡ replicate 21 0) ⊎ IsPlayerName name
    → (text : List ℕ) × IsText text
      × (length text ≤ 20)
      × (name_array (some name) ≡ some (text ++ replicate (21 - length text) 0))
unfolding name_array strlen
name_array-fits name (inl e) = ([], tt, omega arith, rw e)
name_array-fits name (inr p) =
    let v = All-IsText p.text p.printable in
    let found : strlen name ≡ some (length p.text) =
      ap strlen p.split ∙ strlen_lem p.text p.rest v in
    let text : read_at name 0 (length p.text) ≡ some p.text =
      ap (λ t. read_at t 0 (length p.text)) p.split
      ∙ read_at_lem [] p.text (0 ∷ p.rest) 0 (length p.text) refl refl in
    let some_text : (length p.text == 0) ≡ false = ground (arith, p.nonempty) in
    (p.text, v, p.short, rw (found, some_text, text, name_stored p.text p.short))

init_client_session-IsMessage :
    (args : ClientArgs) (argument : Option (List ℕ)) (time : ℕ)
    → Accepted args argument
    → (m : ClientMessage) × (name : List ℕ) × (init_client_session args time ≡ some m)
      × IsMessage m name
      × (m.session_id ≡ time % 2 ^ 32)
unfolding init_client_session
init_client_session-IsMessage args argument time a =
    let (name, v, short, e) = name_array-fits a.name a.valid in
    (
      record {
        session_id = time % 2 ^ 32;
        turn_direction = 0;
        next_expected_event_no = 0;
        player_name = name ++ replicate (21 - length name) 0;
      },
      name,
      rw (a.given, e),
      record {
        session = omega arith;
        direction = omega arith;
        event_no = omega arith;
        text = v;
        short = short;
        padded = refl;
      },
      refl,
    )

-- The client starts with arguments that it accepts and gets any messages, from the server and from
-- the interface, none of which ends it. Then a tick of the timer returns, and the datagram that it
-- sends is one that the server reads, whatever else is in its array: as the session of the client,
-- the direction of the keys and the number of the event expected next.
pub handle_tick-deserialize :
    (strtol : List ℕ → Strtol) (options : List (ℕ × List ℕ)) (argument : Option (List ℕ))
    (args : ClientArgs) (time : ℕ) (message : ClientMessage) (game_buffer gui_buffer : List ℕ)
    (readies : List Ready) (s : ClientState) (sent : List Sent) (answer : Option ℕ) (rest : List ℕ)
    → parse_client_args strtol options argument ≡ success args
    → init_client_session args time ≡ some message
    → length game_buffer ≡ 1024
    → run_client (initial message game_buffer gui_buffer) readies ≡ returns (s, sent)
    → (t : ClientState) × (datagram : List ℕ) × (m : ClientMessage) × (handle_tick s answer
        ≡ returns (t, datagram))
      × (deserialize_client_message (datagram ++ rest) (length datagram) ≡ ok (m, length datagram))
      × (m.session_id ≡ time % 2 ^ 32)
      × (m.turn_direction ≡ s.keys.turn_direction)
      × (m.next_expected_event_no ≡ s.view.next_expected_event_no)
handle_tick-deserialize strtol options argument args time message game_buffer gui_buffer readies s
      sent answer rest parsed started size run =
    let a = parse_client_args-Accepted strtol options argument args parsed in
    let (m, name, e, v, session) = init_client_session-IsMessage args argument time a in
    let same : m ≡ message = some_inj m message (sym e ∙ started) in
    let start : Running (initial message game_buffer gui_buffer) (time % 2 ^ 32) name = record {
      message = subst (λ x. IsMessage x name) same v;
      same_session = ap (λ (x : ClientMessage). x.session_id) (sym same) ∙ session;
      array = size;
      direction = omega arith;
      expected = omega arith;
    } in
    let h =
      run_client-Running readies (initial message game_buffer gui_buffer) s (time % 2 ^ 32) name
        sent start run in
    let (t, ticked, w, _) = handle_tick-Running s (time % 2 ^ 32) name answer h in
    let n = length-client_bytes (tick_message s) name in
    (
      t,
      client_bytes (tick_message s) name,
      tick_message s,
      ticked,
      ap (deserialize_client_message (client_bytes (tick_message s) name ++ rest)) n
          ∙ serialized_read (tick_message s) name rest w
          ∙ ap (λ k. ok (tick_message s, k)) (sym n),
      h.same_session,
      refl,
      refl,
    )
