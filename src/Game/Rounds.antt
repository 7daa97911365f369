-- ===== src/Game/Rounds.antt =====
-- The loop of a round over the players: it runs to its end, the counter of the living stays
-- right, and the events tell what happened on the board.
use sik_screen_worms.Prelude.{
  ℕ, suc, ◌+◌, ◌-◌, ◌%◌, ◌^◌, ◌<◌, ◌≡◌, inl, refl, sym, ap, subst, ◌∙◌, arith, true, some, List, [],
  ◌∷◌, All, length, if◌then◌else◌,
}
use sik_screen_worms.Messages.{pixel, player_eliminated}
use sik_screen_worms.Game.{Player, ps_dead, has_flag}
use sik_screen_worms.Game.Reals.{Reals}
use sik_screen_worms.Game.Tick.{Round, add_event, next_player, eliminate, move_players}
use sik_screen_worms.Game.Standing.{
  BoardOf, alive, Stands, Moves, Moves-Acts, Acts, idles, gains, loses, Plays, Plays-map, nobody,
  acts, pixel_at, dead_flag,
}
use sik_screen_worms.Game.Moving.{move_player-Moves}
use sik_screen_worms.Game.Emitting.{
  Emits, Emits-refl, Emits-event, Grows-refl, Sets-Grows, Sets-eaten, Sets-changes,
}

module _ (R : Reals) where
  open R use {Pos}

  Acts-Emits :
      (p p' : Player Pos) (r r' r'' : Round)
      → Acts R p r p' r'
      → Emits (next_player r') r''
      → Emits r r''
  unfolding next_player eliminate add_event
  Acts-Emits p p' r r' r'' (idles s e) m =
      let m' : Emits (next_player r) r'' = subst (λ t. Emits (next_player t) r'') e m in
      record {
        new = m'.new;
        appended = m'.appended;
        numbered = m'.numbered;
        pixels = m'.pixels;
        distinct = m'.distinct;
        grows = m'.grows;
        told = m'.told;
      }
  Acts-Emits p p' r r' r'' (gains _ _ board free sets e) m =
      Emits-event r r'' board r.players_alive ((r.player_num + 1) % 256) (pixel (pixel_at R r p'))
        (Sets-Grows r.board board _ _ sets) (free, Sets-eaten r.board board _ _ sets)
        (Sets-changes r.board board _ _ sets) (subst (λ t. Emits (next_player t) r'') e m)
  Acts-Emits p p' r r' r'' (loses _ _ e) m =
      Emits-event r r'' r.board ((r.players_alive + 2 ^ 32 - 1) % 2 ^ 32) ((r.player_num + 1) % 256)
        (player_eliminated r.player_num) (Grows-refl r.board) tt (λ x y. inl refl)
        (subst (λ t. Emits (next_player t) r'') e m)

  -- The events of a loop over the players.
  pub Plays-Emits :
      (ps : List (Player Pos)) (r : Round) (ps' : List (Player Pos)) (r' : Round)
      → Plays R (Acts R) ps r ps' r'
      → Emits r r'
  Plays-Emits _ r _ _ nobody = Emits-refl r
  Plays-Emits _ r _ r'' (acts {p = p} {p' = p'} {r' = r'} a rest) =
      Acts-Emits p p' r r' r'' a (Plays-Emits _ (next_player r') _ r'' rest)

  -- `others` are alive besides this player.
  Acts-alive :
      (p p' : Player Pos) (r r' : Round) (others : ℕ)
      → p.status < 256
      → Acts R p r p' r'
      → r.players_alive ≡ (alive (p ∷ []) + others) % 2 ^ 32
      → r'.players_alive ≡ (alive (p' ∷ []) + others) % 2 ^ 32
  unfolding eliminate add_event
  Acts-alive p p' r r' others byte (idles s e) h =
      ap (λ t. t.players_alive) e
      ∙ h
      ∙ ap (λ s. ((if has_flag s ps_dead then 0 else 1) + others) % 2 ^ 32) (sym s)
  Acts-alive p p' r r' others byte (gains _ s board _ _ e) h =
      ap (λ t. t.players_alive) e
      ∙ h
      ∙ ap (λ s. ((if has_flag s ps_dead then 0 else 1) + others) % 2 ^ 32) (sym s)
  Acts-alive p p' r r' others byte (loses lives s e) h =
      let one : r.players_alive ≡ (1 + others) % 2 ^ 32 = h ∙ rw lives in
      let gone : has_flag p'.status ps_dead ≡ true =
        ap (λ s. has_flag s ps_dead) s ∙ dead_flag p.status byte in
      let less : (r.players_alive + 2 ^ 32 - 1) % 2 ^ 32 ≡ (0 + others) % 2 ^ 32 =
        omega (arith, one) in
      rw gone (ap (λ t. t.players_alive) e ∙ less)

  alive-cons :
      (p : Player Pos) (ps : List (Player Pos)) → alive (p ∷ ps) ≡ alive (p ∷ []) + alive ps
  alive-cons p ps = ground arith

  -- `players_alive` counts the players that are alive, `others` standing before them.
  pub Plays-alive :
      (ps : List (Player Pos)) (r : Round) (ps' : List (Player Pos)) (r' : Round) (others : ℕ)
      → Plays R (Acts R) ps r ps' r'
      → All (λ (p : Player Pos). p.status < 256) ps
      → r.players_alive ≡ (alive ps + others) % 2 ^ 32
      → r'.players_alive ≡ (alive ps' + others) % 2 ^ 32
  unfolding next_player
  Plays-alive _ r _ _ others nobody bytes h = h
  Plays-alive _ r _ r'' others (acts {p = p} {p' = p'} {ps = ps} {ps' = ps'} {r' = r'} a rest)
        (byte, bytes) h =
      let here : r'.players_alive ≡ (alive (p' ∷ []) + (alive ps + others)) % 2 ^ 32 =
        Acts-alive p p' r r' (alive ps + others) byte a (omega (arith, h, alive-cons p ps)) in
      let all : r''.players_alive ≡ (alive ps' + (alive (p' ∷ []) + others)) % 2 ^ 32 =
        Plays-alive ps (next_player r') ps' r'' (alive (p' ∷ []) + others) rest bytes
          (omega (arith, here)) in
      omega (arith, all, alive-cons p' ps')

  pub Stands-bytes :
      (w h : ℕ) (ps : List (Player Pos))
      → All (Stands R w h) ps
      → All (λ (p : Player Pos). p.status < 256) ps
  Stands-bytes w h [] s = tt
  Stands-bytes w h (p ∷ ps) (s, ss) = (s.byte, Stands-bytes w h ps ss)

  -- A round, seen by its effects.
  pub Moves-Plays :
      (speed w h : ℕ) (ps : List (Player Pos)) (r : Round) (ps' : List (Player Pos)) (r' : Round)
      → Plays R (Moves R speed w h) ps r ps' r'
      → Plays R (Acts R) ps r ps' r'
  Moves-Plays speed w h ps r ps' r' m =
      Plays-map R (Moves R speed w h) (Acts R) (Moves-Acts R speed w h) ps r ps' r' m

  pub move_players-Plays :
      (w h : ℕ)
      → w < 2 ^ 32
      → h < 2 ^ 32
      → (turning_speed : ℕ) (ps : List (Player Pos)) (r : Round) → All (Stands R w h) ps
      → BoardOf w h r.board
      → (ps' : List (Player Pos)) × (r' : Round) × (move_players R w h turning_speed ps r
          ≡ some (ps', r'))
        × Plays R (Moves R turning_speed w h) ps r ps' r'
        × All (Stands R w h) ps'
        × BoardOf w h r'.board
  unfolding move_players next_player
  move_players-Plays w h sw sh speed [] r s b = ([], r, refl, nobody, tt, b)
  move_players-Plays w h sw sh speed (p ∷ ps) r (s, ss) b =
      let (p', r', done, moves, settled) = move_player-Moves R w h sw sh speed p r s b in
      let (ps', r'', rest, plays, stand, b') =
        move_players-Plays w h sw sh speed ps (next_player r') ss settled.board_of in
      (p' ∷ ps', r'', rw (done, rest), acts moves plays, (settled.stands, stand), b')

  pub Plays-length :
      (ps : List (Player Pos)) (r : Round) (ps' : List (Player Pos)) (r' : Round)
      → Plays R (Acts R) ps r ps' r'
      → length ps' ≡ length ps
  Plays-length _ r _ _ nobody = refl
  Plays-length _ r _ r'' (acts {r' = r'} a rest) =
      ap suc (Plays-length _ (next_player r') _ r'' rest)
