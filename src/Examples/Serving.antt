-- ===== src/Examples/Serving.antt =====
-- Arguments with one digit, and a collection of clients.
use sik_screen_worms.Prelude.{
  ℕ, ◌-◌, ◌≡◌, ◌⊎◌, refl, arith, true, none, some, List, [], ◌∷◌, ◌++◌, get_or,
}
use sik_screen_worms.ServerArgs.{
  Strtol, ServerArgs, pos, parse_server_args, parse_option, str_to_u64, default_args,
}
use sik_screen_worms.ServerArgs.Ranges.{InRange, parse_server_args-InRange}
use sik_screen_worms.Clients.{Client, Clients, clients_create, named, clients_new_client}
use sik_screen_worms.Clients.Counting.{Counts, players, clients_new_client-Counts}

-- Reads the first character as a digit.
abbrev digit : List ℕ → Strtol
digit str = record { errno = 0; consumed = 1; value = pos (get_or str 0 0 - 48) }

abbrev wide : ServerArgs
wide = record (default_args digit (pos 5)) { board_width = 9 }

parse_server_args-InRange_example : InRange wide
unfolding parse_server_args parse_option str_to_u64
parse_server_args-InRange_example =
    parse_server_args-InRange digit (pos 5) ((b'w', 57 ∷ 0 ∷ []) ∷ []) wide refl

create-Counts : Counts clients_create
unfolding clients_create
create-Counts = record { exact = refl; bounded = omega arith }

clients_new_client-Counts_example :
    ((named ((97 ∷ []) ++ (0 ∷ [])) ≡ true)
      × (players clients_create.clients_list ≡ 25)
      × (clients_new_client clients_create 7 4 5 ((97 ∷ []) ++ (0 ∷ []))
          ≡ some (clients_create, none)))
    ⊎ ((c' : Clients) × (new : Client) × (clients_new_client clients_create 7 4 5
            ((97 ∷ []) ++ (0 ∷ []))
          ≡ some (c', some new))
        × (c'.clients_list ≡ clients_create.clients_list ++ (new ∷ []))
        × (new.session_id ≡ 7)
        × (new.sock_fd ≡ 4)
        × (new.player_name ≡ (97 ∷ []) ++ (0 ∷ []))
        × Counts c')
clients_new_client-Counts_example =
    clients_new_client-Counts clients_create 7 4 5 (97 ∷ []) [] create-Counts
      ((omega arith, omega arith), tt) (omega arith)

abbrev one_client : Clients
one_client = record {
  clients_list =
      record { sock_fd = 4; timer_fd = 5; session_id = 7; player_name = 97 ∷ 0 ∷ [] } ∷ [];
  players_number = 1;
}
