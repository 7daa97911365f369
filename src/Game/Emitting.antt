-- ===== src/Game/Emitting.antt =====
-- What a loop over the players emits: numbered events, of which those for pixels tell the change
-- of the board.
use sik_screen_worms.Prelude.{
  ℕ, ◌+◌, ◌%◌, ◌^◌, ◌≡◌, ◌⊎◌, inl, inr, refl, sym, ap, ◌∙◌, arith, true, false, some, List, [], ◌∷◌,
  ◌++◌, All, append_assoc, append-nil, Bool-cases, ◌==◌, ◌&&◌,
}
use sik_screen_worms.GameBoard.{GameBoard, game_board_get}
use sik_screen_worms.GameBoard.Pixels.{Sets}
use sik_screen_worms.Messages.{
  EventData, new_game, pixel, player_eliminated, game_over, unknown, GameEvent,
}
use sik_screen_worms.Game.Tick.{Round}

-- The numbers go up by one, as `uint32_t` counts, from the first index to the last.
abbrev pub Numbered : ℕ → List GameEvent → ℕ → Type 0
Numbered n [] m = n ≡ m
Numbered n (e ∷ es) m = (e.event_no ≡ n) × Numbered ((n + 1) % 2 ^ 32) es m

-- A pixel told by an event was free before and is eaten afterwards.
abbrev pub EatenBetween : GameBoard → GameBoard → EventData → Type 0
EatenBetween b b' (pixel d) =
    (game_board_get b d.x d.y ≡ some false) × (game_board_get b' d.x d.y ≡ some true)
EatenBetween b b' (new_game d) = Unit {0}
EatenBetween b b' (player_eliminated n) = Unit {0}
EatenBetween b b' game_over = Unit {0}
EatenBetween b b' (unknown t) = Unit {0}

-- What is eaten stays eaten, and what is free was free.
pub record Grows (b b' : GameBoard) : Type 0 where
  pub keeps : (x y : ℕ) → game_board_get b x y ≡ some true → game_board_get b' x y ≡ some true
  pub from_free : (x y : ℕ) → game_board_get b' x y ≡ some false → game_board_get b x y ≡ some false

abbrev pub SamePixel : EventData → EventData → Type 0
SamePixel (pixel d) (pixel d') = (d.x ≡ d'.x) × (d.y ≡ d'.y)
SamePixel a b = ⊥

-- No pixel is told twice.
abbrev pub Distinct : List GameEvent → Type 0
Distinct [] = Unit {0}
Distinct (e ∷ es) = All (λ (f : GameEvent). SamePixel e.body f.body → ⊥) es × Distinct es

-- The event is for this pixel.
abbrev pub IsPixel : ℕ → ℕ → EventData → Type 0
IsPixel x y (pixel d) = (d.x ≡ x) × (d.y ≡ y)
IsPixel x y d = ⊥

-- One of the events is for this pixel.
abbrev pub Tells : ℕ → ℕ → List GameEvent → Type 0
Tells x y [] = ⊥
Tells x y (e ∷ es) = IsPixel x y e.body ⊎ Tells x y es

pub record Emits (r r' : Round) : Type 0 where
  pub new : List GameEvent
  pub appended : r'.events ≡ r.events ++ new
  pub numbered : Numbered r.next_event_no new r'.next_event_no
  pub pixels : All (λ (e : GameEvent). EatenBetween r.board r'.board e.body) new
  pub distinct : Distinct new
  pub grows : Grows r.board r'.board
  pub told :
      (x y : ℕ)
      → game_board_get r.board x y ≡ some false
      → game_board_get r'.board x y ≡ some true
      → Tells x y new

pub Grows-refl : (b : GameBoard) → Grows b b
Grows-refl b = record { keeps = λ x y e. e; from_free = λ x y e. e }

pub Grows-trans : (a b c : GameBoard) → Grows a b → Grows b c → Grows a c
Grows-trans a b c g k = record {
  keeps = λ x y e. k.keeps x y (g.keeps x y e);
  from_free = λ x y e. g.from_free x y (k.from_free x y e);
}

pub Sets-Grows : (b b' : GameBoard) (x y : ℕ) → Sets b x y b' → Grows b b'
Sets-Grows b b' x y s = record {
  keeps = λ x' y' e. ground (arith, s.pixels x' y', e);
  from_free = λ x' y' e. ground (arith, s.pixels x' y', e);
}

pub Sets-eaten : (b b' : GameBoard) (x y : ℕ) → Sets b x y b' → game_board_get b' x y ≡ some true
Sets-eaten b b' x y s = ground (arith, s.pixels x y)

pub Sets-changes :
    (b b' : GameBoard) (x y : ℕ)
    → Sets b x y b'
    → (x' y' : ℕ) → (game_board_get b' x' y' ≡ game_board_get b x' y') ⊎ ((x ≡ x') × (y ≡ y'))
Sets-changes b b' x y s x' y' = elim (Bool-cases (x == x' && y == y')) [
  | inl e ↦ inr (ground (arith, e), ground (arith, e))
  | inr e ↦ inl (s.pixels x' y' ∙ rw e refl)
]

EatenBetween-wider :
    (a a' b b' : GameBoard) (d : EventData)
    → Grows a a'
    → Grows b b'
    → EatenBetween a' b d
    → EatenBetween a b' d
EatenBetween-wider a a' b b' (pixel d) g k (p, q) = (g.from_free d.x d.y p, k.keeps d.x d.y q)
EatenBetween-wider a a' b b' (new_game d) g k h = tt
EatenBetween-wider a a' b b' (player_eliminated n) g k h = tt
EatenBetween-wider a a' b b' game_over g k h = tt
EatenBetween-wider a a' b b' (unknown t) g k h = tt

All-wider :
    (a a' b b' : GameBoard) (es : List GameEvent)
    → Grows a a'
    → Grows b b'
    → All (λ (e : GameEvent). EatenBetween a' b e.body) es
    → All (λ (e : GameEvent). EatenBetween a b' e.body) es
All-wider a a' b b' [] g k h = tt
All-wider a a' b b' (e ∷ es) g k (p, h) =
    (EatenBetween-wider a a' b b' e.body g k p, All-wider a a' b b' es g k h)

-- A pixel eaten before is not the pixel of a later event.
apart :
    (a b c : GameBoard) (d d' : EventData)
    → EatenBetween a b d
    → EatenBetween b c d'
    → SamePixel d d'
    → ⊥
apart a b c (pixel d) (pixel d') (_, eaten) (free, _) (ex, ey) = absurd (
    ground (
      arith,
      ap (λ x. game_board_get b x d.y) ex,
      ap (λ y. game_board_get b d'.x y) ey,
      eaten,
      free,
    ))
apart a b c (pixel d) (new_game d') p q s = s
apart a b c (pixel d) (player_eliminated n) p q s = s
apart a b c (pixel d) game_over p q s = s
apart a b c (pixel d) (unknown t) p q s = s
apart a b c (new_game d) d' p q s = s
apart a b c (player_eliminated n) d' p q s = s
apart a b c game_over d' p q s = s
apart a b c (unknown t) d' p q s = s

All-apart :
    (a b c : GameBoard) (d : EventData) (es : List GameEvent)
    → EatenBetween a b d
    → All (λ (e : GameEvent). EatenBetween b c e.body) es
    → All (λ (e : GameEvent). SamePixel d e.body → ⊥) es
All-apart a b c d [] p h = tt
All-apart a b c d (e ∷ es) p (q, h) = (apart a b c d e.body p q, All-apart a b c d es p h)

pub Emits-refl : (r : Round) → Emits r r
Emits-refl r = record {
  new = [];
  appended = sym (append-nil r.events);
  numbered = refl;
  pixels = tt;
  distinct = tt;
  grows = Grows-refl r.board;
  told = λ x y p q. absurd (ground (arith, p, q));
}

-- One event, then those of the rest.
pub Emits-event :
    (r r' : Round) (board : GameBoard) (alive' : ℕ) (num : ℕ) (body : EventData)
    → Grows r.board board
    → EatenBetween r.board board body
    → ((x y : ℕ) → (game_board_get board x y ≡ game_board_get r.board x y) ⊎ IsPixel x y body)
    → Emits
        (record {
          board = board;
          players_alive = alive';
          next_event_no = (r.next_event_no + 1) % 2 ^ 32;
          player_num = num;
          events = r.events ++ (record { event_no = r.next_event_no; body = body } ∷ []);
        })
        r'
    → Emits r r'
Emits-event r r' board alive' num body g told changes m = record {
  new = record { event_no = r.next_event_no; body = body } ∷ m.new;
  appended = m.appended ∙ append_assoc r.events _ m.new;
  numbered = (refl, m.numbered);
  pixels = (
    EatenBetween-wider r.board r.board board r'.board body (Grows-refl r.board) m.grows told,
    All-wider r.board board r'.board r'.board m.new g (Grows-refl r'.board) m.pixels,
  );
  distinct = (All-apart r.board board r'.board body m.new told m.pixels, m.distinct);
  grows = Grows-trans r.board board r'.board g m.grows;
  told = λ x y p q. elim (changes x y) [
    | inl same ↦ inr (m.told x y (same ∙ p) q)
    | inr this ↦ inl this
  ];
}
