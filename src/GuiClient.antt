-- ===== src/GuiClient.antt =====
-- client/gui_client.c: the exchange with the graphical interface over a stream. What `send` and
-- `recv` answer is an argument. `buffer` is the array of 2048 bytes. Connecting is left out.
pub mod Parsing
pub mod Sending
use sik_screen_worms.Prelude.{
  ℕ, zero, suc, ◌+◌, ◌-◌, Bool, true, false, Option, none, some, List, [], ◌∷◌, ◌++◌, leb, ltb,
  ◌==◌, if◌then◌else◌, length, take, drop, replicate,
}
use sik_screen_worms.Memory.{◌>>=◌, write_at, read_at}
use sik_screen_worms.Messages.{EventData}
use sik_screen_worms.GuiMessages.{
  GuiAction, serialize_client_gui_message, deserialize_gui_client_message,
}

-- `while (total_sent < size)`, on fuel, from call `n` of `send` on: each call is given the bytes from
-- `buffer + total_sent` on, and takes as many of them as it answers. The bytes taken by the calls, and
-- whether none failed; the outer `none` is the end of the fuel or an access outside the buffer.
unfoldable pub send_text : (ℕ → Option ℕ) → ℕ → ℕ → List ℕ → ℕ → ℕ → Option (List ℕ × Bool)
send_text send zero n buffer size total_sent = none
send_text send (suc fuel) n buffer size total_sent =
    let next : Option (List ℕ × Bool) = read_at buffer total_sent (size - total_sent) >>= λ given.
    elim (send n) [
      | none ↦ some ([], false)
      | some sent ↦ send_text send fuel (n + 1) buffer size (total_sent + sent) >>= λ rest.
          some (take sent given ++ rest.0, rest.1)
    ] in
    if ltb total_sent size then next else some ([], true)

-- The buffer after the call, the bytes sent, and false for -1. An event of no text leaves `sent`
-- uninitialised: a fault, `none`. So is the end of the fuel, which `Sending` rules out.
unfoldable pub gui_client_send_event :
    (ℕ → Option ℕ) → List ℕ → EventData → List (List ℕ) → Option (List ℕ × List ℕ × Bool)
unfolding send_text
gui_client_send_event send buffer event names =
    serialize_client_gui_message buffer event names >>= λ r.
    (if r.1 == 0
      then none
      else (send_text send (r.1 + 1) 0 r.0 r.1 0 >>= λ done. some (r.0, done.0, done.1)))

-- How the calls of `recv` end: nothing more to read, the end of the stream, an error.
pub data StreamEnd : Type 0 where
  would_block : StreamEnd
  closed : StreamEnd
  failed : StreamEnd

-- The loop over `recv`, with the pieces of one byte or more that the calls give and the answer of
-- the call that ends them. When no space is left, `recv` is asked for no byte and its answer is
-- `full`.
unfoldable pub recv_stream : List (List ℕ) → StreamEnd → StreamEnd → List ℕ → List ℕ × StreamEnd
recv_stream [] end full received = (received, if leb 2048 (length received) then full else end)
recv_stream (piece ∷ pieces) end full received =
    let next = recv_stream pieces end full (received ++ take (2048 - length received) piece) in
    if leb 2048 (length received) then (received, full) else next

-- `while (total_des < total_rec)`, on fuel.
unfoldable pub parse_actions : ℕ → List ℕ → ℕ → ℕ → List GuiAction → Option (List GuiAction)
parse_actions zero buffer total_rec total_des actions = none
parse_actions (suc fuel) buffer total_rec total_des actions =
    let (action, des) =
      deserialize_gui_client_message (drop total_des buffer) (total_rec - total_des) in
    let next = parse_actions fuel buffer total_rec (total_des + des) (actions ++ (action ∷ [])) in
    if ltb total_des total_rec then next else some actions

-- What the call returns: -1, 0, or the number of bytes with the actions.
pub data GuiReceived : Type 0 where
  error : GuiReceived
  lost : GuiReceived
  actions : ℕ → List GuiAction → GuiReceived

-- The buffer after the call, which is cleared before, and what the call returns. The outer `none`
-- is the end of the fuel, which `Parsing` rules out.
unfoldable pub gui_client_recv_event :
    List (List ℕ) → StreamEnd → StreamEnd → Option (List ℕ × GuiReceived)
unfolding recv_stream parse_actions
gui_client_recv_event pieces end full = ended (recv_stream pieces end full [])
  where
    cleared : List ℕ → List ℕ
    cleared received = received ++ replicate (2048 - length received) 0

    ended : List ℕ × StreamEnd → Option (List ℕ × GuiReceived)
    ended (received, failed) = some (cleared received, error)
    ended (received, closed) = some (cleared received, lost)
    ended (received, would_block) =
        parse_actions (length received + 1) (cleared received) (length received) 0 [] >>= λ list.
        some (cleared received, actions (length received) list)
