-- ===== src/Server/Loop/Turns.antt =====
-- One turn of the loop of `main` runs the handlers of the descriptors that are ready.
use sik_screen_worms.Prelude.{
  ◌≡◌, refl, sym, ap, Bool, true, false, Option, none, some, List, [], ◌∷◌, ◌++◌, if◌then◌else◌,
  append_assoc, append-nil,
}
use sik_screen_worms.Memory.{◌>>=◌}
use sik_screen_worms.Game.Reals.{Reals}
use sik_screen_worms.Server.{Server, Sent, handle_new_client, handle_round}
use sik_screen_worms.Server.Loop.{
  Descriptor, server_sock, data_epoll, timeout_epoll, round_timer, Inputs, loop_actions,
  handle_timeouts, handle_clients, run_actions, loop_turn,
}
use sik_screen_worms.Server.Loop.Actions.{is_ready, loop_actions-is_ready}

bind-ext {ℓ κ} :
    {A : Type ℓ} {B : Type κ} (o : Option A) (f g : A → Option B)
    → ((a : A) → f a ≡ g a)
    → (o >>= f) ≡ (o >>= g)
bind-ext none f g h = refl
bind-ext (some a) f g h = h a

module _ (R : Reals) where
  open R use {Pos}

  -- What the handler of a descriptor does, and what it sends.
  abbrev pub handled : Inputs → Descriptor → Server Pos → Option (Server Pos × Sent)
  handled i round_timer s = handle_round R i.memory i.round_sends s
  handled i timeout_epoll s = handle_timeouts R s i.timed_out >>= λ t. some (t, [])
  handled i server_sock s =
      handle_new_client R i.request_sends s i.bytes i.num_bytes i.sock_fd i.timer_fd
  handled i data_epoll s = handle_clients R i.data_sends s i.messages 0

  -- The handlers of those of the descriptors that are ready, one after the other, from what has been
  -- sent before.
  abbrev pub handle_in_order :
      Inputs → List Descriptor → List Descriptor → Server Pos → Sent → Option (Server Pos × Sent)
  handle_in_order i ready [] s sent = some (s, sent)
  handle_in_order i ready (d ∷ ds) s sent =
      (if is_ready d ready then handled i d s else some (s, [])) >>= λ t.
      handle_in_order i ready ds t.0 (sent ++ t.1)

  quiet_step :
      (b : Bool) (o : Option (Server Pos)) (s : Server Pos)
      (f : Server Pos → Option (Server Pos × Sent))
      (g : Server Pos × Sent → Option (Server Pos × Sent))
      → ((t : Server Pos) → f t ≡ g (t, []))
      → ((if b then o else some s) >>= f)
        ≡ ((if b then (o >>= λ t. some (t, [])) else some (s, [])) >>= g)
  quiet_step false o s f g h = h s
  quiet_step true none s f g h = refl
  quiet_step true (some t) s f g h = h t

  run_actions-handled :
      (s : Server Pos) (ready : List Descriptor) (i : Inputs)
      → run_actions R s (loop_actions ready 0) i
        ≡ handle_in_order i ready (round_timer ∷ timeout_epoll ∷ server_sock ∷ data_epoll ∷ []) s []
  unfolding run_actions
  run_actions-handled s ready i =
      rw
        (
          loop_actions-is_ready ready round_timer,
          loop_actions-is_ready ready timeout_epoll,
          loop_actions-is_ready ready server_sock,
          loop_actions-is_ready ready data_epoll,
        )
        (bind-ext _ _ _ λ (r : Server Pos × Sent).
          quiet_step (is_ready timeout_epoll ready) (handle_timeouts R r.0 i.timed_out) r.0 _ _
            λ (q : Server Pos).
              bind-ext
                (if is_ready server_sock ready then handled i server_sock q else some (q, [])) _ _
                λ (j : Server Pos × Sent).
                  bind-ext
                    (if is_ready data_epoll ready then handled i data_epoll j.0 else some (j.0, []))
                    _ _
                    λ (v : Server Pos × Sent). ap (λ l. some (v.0, l)) (sent_in_order r.1 j.1 v.1))
    where
      sent_in_order : (a b c : Sent) → a ++ (b ++ c) ≡ (((a ++ []) ++ b) ++ c)
      sent_in_order a b c = rw (append-nil a) (sym (append_assoc a b c))

  -- A turn of the loop runs the handlers of the round, of the clients that timed out, of a new client
  -- and of the messages of the clients in this order, each once if its descriptor is among those that
  -- are ready, in whatever order and however often these are reported, and not at all otherwise.
  pub loop_turn-handled :
      (s : Server Pos) (ready : List Descriptor) (i : Inputs)
      → loop_turn R s ready i
        ≡ handle_in_order i ready (round_timer ∷ timeout_epoll ∷ server_sock ∷ data_epoll ∷ []) s []
  unfolding loop_turn
  loop_turn-handled s ready i = run_actions-handled s ready i
