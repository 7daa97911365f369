-- ===== src/Clients.antt =====
-- server/clients.c: the clients of the server, a list with the number of the players among them.
-- The file descriptors of socket and timer are those that the system calls returned; a failed
-- `timerfd_create` ends the server. `none` is a failed assert or an access outside an array.
pub mod Counting
use sik_screen_worms.Prelude.{
  ℕ, ◌+◌, ◌-◌, Bool, true, false, ◌&&◌, not, Option, none, some, List, [], ◌∷◌, ◌++◌, ltb, ◌==◌,
  if◌then◌else◌, get_or, drop,
}
use sik_screen_worms.Memory.{◌>>=◌, strlen, read_at}

pub record Client : Type 0 where
  pub sock_fd : ℕ
  pub timer_fd : ℕ
  pub session_id : ℕ
  pub player_name : List ℕ

pub record Clients : Type 0 where
  pub clients_list : List Client
  pub players_number : ℕ

unfoldable pub clients_create : Clients
clients_create = record { clients_list = []; players_number = 0 }

-- `name[0] != 0`.
abbrev pub named : List ℕ → Bool
named name = not (get_or name 0 0 == 0)

-- `strcpy` into an array of 21 bytes: the name with its NUL. What stands behind it is not read.
unfoldable pub copy_name : List ℕ → Option (List ℕ)
copy_name name = strlen name >>= λ len. if ltb 20 len then none else read_at name 0 (len + 1)

-- The collection after the call; for NULL the second component is `none`.
unfoldable pub clients_new_client : Clients → ℕ → ℕ → ℕ → List ℕ → Option (Clients × Option Client)
unfolding copy_name
clients_new_client c session_id sock_fd timer_fd name =
    if named name && (c.players_number == 25)
    then some (c, none)
    else (copy_name name >>= λ player_name.
        (let client : Client = record {
          sock_fd = sock_fd;
          timer_fd = timer_fd;
          session_id = session_id;
          player_name = player_name;
        } in
          some (
            record {
              clients_list = c.clients_list ++ (client ∷ []);
              players_number = if named name then c.players_number + 1 else c.players_number;
            },
            some client,
          )))

unfoldable pub find_by_session_id : List Client → ℕ → Option Client
find_by_session_id [] session_id = none
find_by_session_id (c ∷ cs) session_id =
    let rest = find_by_session_id cs session_id in
    if c.session_id == session_id then some c else rest

-- `list_remove` of the node found.
unfoldable pub remove_by_session_id : List Client → ℕ → List Client
remove_by_session_id [] session_id = []
remove_by_session_id (c ∷ cs) session_id =
    let rest = remove_by_session_id cs session_id in
    if c.session_id == session_id then cs else c ∷ rest

unfoldable pub clients_delete_client : Clients → ℕ → Option Clients
unfolding find_by_session_id remove_by_session_id
clients_delete_client c session_id = find_by_session_id c.clients_list session_id >>= λ client.
    some (record {
      clients_list = remove_by_session_id c.clients_list session_id;
      players_number = if named client.player_name then c.players_number - 1 else c.players_number;
    })

unfoldable pub clients_find_by_session_id : Clients → ℕ → Option Client
unfolding find_by_session_id
clients_find_by_session_id c session_id = find_by_session_id c.clients_list session_id

-- `strcmp(a, b) == 0`; an array that ends without a NUL is read as if one followed.
unfoldable pub same_string : List ℕ → List ℕ → Bool
same_string [] b = not (named b)
same_string (x ∷ a) b =
    let rest = same_string a (drop 1 b) in
    if x == 0 then not (named b) else (get_or b 0 0 == x && rest)

unfoldable pub find_by_name : List Client → List ℕ → Option Client
unfolding same_string
find_by_name [] name = none
find_by_name (c ∷ cs) name =
    let rest = find_by_name cs name in if same_string c.player_name name then some c else rest

unfoldable pub clients_find_by_name : Clients → List ℕ → Option Client
unfolding find_by_name
clients_find_by_name c name = find_by_name c.clients_list name
