-- ===== src/Clients/Counting.antt =====
-- The number of players that the collection keeps is right, and never above 25.
use sik_screen_worms.Prelude.{
  ℕ, suc, ◌+◌, ◌≤◌, ◌≡◌, ◌⊎◌, inl, inr, refl, sym, ap, ◌∙◌, arith, true, false, ◌&&◌, none, some,
  List, [], ◌∷◌, ◌++◌, ltb, ◌==◌, if◌then◌else◌, length, Bool-cases, length-append, append_assoc,
}
use sik_screen_worms.Memory.{read_at}
use sik_screen_worms.Memory.Laws.{IsText, strlen_lem, read_at_lem}
use sik_screen_worms.Clients.{Client, Clients, named, copy_name, clients_new_client}

abbrev pub players : List Client → ℕ
players [] = 0
players (c ∷ cs) = if named c.player_name then suc (players cs) else players cs

pub record Counts (c : Clients) : Type 0 where
  pub exact : c.players_number ≡ players c.clients_list
  pub bounded : c.players_number ≤ 25

players-append : (cs ds : List Client) → players (cs ++ ds) ≡ players cs + players ds
players-append [] ds = omega arith
players-append (c ∷ cs) ds = ground (arith, players-append cs ds)

copy_name_lem :
    (text rest : List ℕ)
    → IsText text
    → length text ≤ 20
    → copy_name (text ++ (0 ∷ rest)) ≡ some (text ++ (0 ∷ []))
unfolding copy_name
copy_name_lem text rest h short =
    let fits : ltb 20 (length text) ≡ false = ground (arith, short) in
    rw (strlen_lem text rest h, fits)
      (ap (λ m. read_at m 0 (length text + 1)) (sym (append_assoc text (0 ∷ []) rest))
        ∙ read_at_lem [] (text ++ (0 ∷ [])) rest 0 (length text + 1) refl
            (omega (arith, length-append text (0 ∷ []))))

named-copy : (text rest : List ℕ) → named (text ++ (0 ∷ rest)) ≡ named (text ++ (0 ∷ []))
named-copy [] rest = refl
named-copy (x ∷ text) rest = refl

-- A new client is refused exactly if it has a name and 25 players are there. Otherwise it stands
-- at the end of the list with its session, its socket and a copy of its name, and the count is
-- right again. The name is a C string of at most 20 characters.
pub clients_new_client-Counts :
    (c : Clients) (session_id sock_fd timer_fd : ℕ) (text rest : List ℕ)
    → Counts c
    → IsText text
    → length text ≤ 20
    → ((named (text ++ (0 ∷ rest)) ≡ true)
        × (players c.clients_list ≡ 25)
        × (clients_new_client c session_id sock_fd timer_fd (text ++ (0 ∷ rest)) ≡ some (c, none)))
      ⊎ ((c' : Clients) × (new : Client) × (clients_new_client c session_id sock_fd timer_fd
              (text ++ (0 ∷ rest))
            ≡ some (c', some new))
          × (c'.clients_list ≡ c.clients_list ++ (new ∷ []))
          × (new.session_id ≡ session_id)
          × (new.sock_fd ≡ sock_fd)
          × (new.player_name ≡ text ++ (0 ∷ []))
          × Counts c')
unfolding clients_new_client
clients_new_client-Counts c session_id sock_fd timer_fd text rest h t short =
    let name : List ℕ = text ++ (0 ∷ rest) in
    let new : Client = record {
      sock_fd = sock_fd;
      timer_fd = timer_fd;
      session_id = session_id;
      player_name = text ++ (0 ∷ []);
    } in
    elim (Bool-cases (named name && (c.players_number == 25))) [
      | inl e ↦ inl (ground arith, ground (arith, h.exact), rw e)
      | inr e ↦ inr (
        record {
          clients_list = c.clients_list ++ (new ∷ []);
          players_number = if named name then c.players_number + 1 else c.players_number;
        },
        new,
        rw (e, copy_name_lem text rest t short),
        refl,
        refl,
        refl,
        refl,
        record {
          exact =
              ground
                (arith, players-append c.clients_list (new ∷ []), h.exact, named-copy text rest);
          bounded = ground (arith, h.bounded, e);
        },
      )
    ]
