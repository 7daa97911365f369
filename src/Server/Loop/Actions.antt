-- ===== src/Server/Loop/Actions.antt =====
-- The flags of the actions say which descriptors are ready, whatever their order and number.
use sik_screen_worms.Prelude.{
  ℕ, ==_iff, ◌+◌, ◌≡◌, refl, ap, ◌∙◌, Bool, true, false, ◌&&◌, ◌||◌, not, List, [], ◌∷◌, ◌==◌,
  bit_or,
}
use sik_screen_worms.Server.Loop.{
  Descriptor, server_sock, data_epoll, timeout_epoll, round_timer, action_of, loop_actions,
  has_action,
}

abbrev flag : Bool → ℕ → ℕ
flag true n = n
flag false n = 0

-- Which of the four descriptors were seen.
record Seen : Type 0 where
  pub a : Bool
  pub b : Bool
  pub c : Bool
  pub d : Bool

abbrev flags : Seen → ℕ
flags s = flag s.a 1 + (flag s.b 2 + (flag s.c 4 + flag s.d 8))

abbrev see : Descriptor → Seen → Seen
see server_sock s = record s { a = true }
see data_epoll s = record s { b = true }
see timeout_epoll s = record s { c = true }
see round_timer s = record s { d = true }

abbrev seen : Seen → Descriptor → Bool
seen s server_sock = s.a
seen s data_epoll = s.b
seen s timeout_epoll = s.c
seen s round_timer = s.d

-- A test of both values, and of all sixteen sets.
abbrev two : (Bool → Bool) → Bool
two f = f false && f true

two-true : (f : Bool → Bool) → two f ≡ true → (b : Bool) → f b ≡ true
two-true f h true = go (f false) (f true) h
  where
    go : (x y : Bool) → (x && y) ≡ true → y ≡ true
    go true y h = h
    go false y h = absurd (cc h)
two-true f h false = go (f false) (f true) h
  where
    go : (x y : Bool) → (x && y) ≡ true → x ≡ true
    go true y h = refl
    go false y h = absurd (cc h)

abbrev set_of : Bool → Bool → Bool → Bool → Seen
set_of a b c d = record { a = a; b = b; c = c; d = d }

abbrev all_sets : (Seen → Bool) → Bool
all_sets f = two (λ a. two (λ b. two (λ c. two (λ d. f (set_of a b c d)))))

all_sets-true : (f : Seen → Bool) → all_sets f ≡ true → (s : Seen) → f s ≡ true
all_sets-true f h s =
    two-true (λ d. f (set_of s.a s.b s.c d))
      (two-true (λ c. two (λ d. f (set_of s.a s.b c d)))
        (two-true (λ b. two (λ c. two (λ d. f (set_of s.a b c d))))
          (two-true (λ a. two (λ b. two (λ c. two (λ d. f (set_of a b c d))))) h s.a) s.b)
        s.c)
      s.d

flags-see : (x : Descriptor) (s : Seen) → bit_or (flags s) (action_of x) ≡ flags (see x s)
flags-see x s = (==_iff (bit_or (flags s) (action_of x)) (flags (see x s))).0 (test x)
  where
    test : (x : Descriptor) → (bit_or (flags s) (action_of x) == flags (see x s)) ≡ true
    test server_sock = all_sets-true (λ s. bit_or (flags s) 1 == flags (see server_sock s)) refl s
    test data_epoll = all_sets-true (λ s. bit_or (flags s) 2 == flags (see data_epoll s)) refl s
    test timeout_epoll =
        all_sets-true (λ s. bit_or (flags s) 4 == flags (see timeout_epoll s)) refl s
    test round_timer = all_sets-true (λ s. bit_or (flags s) 8 == flags (see round_timer s)) refl s

abbrev same_test : Bool → Bool → Bool
same_test true b = b
same_test false b = not b

same_test-eq : (a b : Bool) → same_test a b ≡ true → a ≡ b
same_test-eq true true h = refl
same_test-eq false false h = refl
same_test-eq true false h = absurd (cc h)
same_test-eq false true h = absurd (cc h)

has_action-flags : (x : Descriptor) (s : Seen) → has_action (flags s) x ≡ seen s x
has_action-flags x s = same_test-eq (has_action (flags s) x) (seen s x) (test x)
  where
    test : (x : Descriptor) → same_test (has_action (flags s) x) (seen s x) ≡ true
    test server_sock =
        all_sets-true (λ s. same_test (has_action (flags s) server_sock) (seen s server_sock)) refl
          s
    test data_epoll =
        all_sets-true (λ s. same_test (has_action (flags s) data_epoll) (seen s data_epoll)) refl s
    test timeout_epoll =
        all_sets-true (λ s. same_test (has_action (flags s) timeout_epoll) (seen s timeout_epoll))
          refl s
    test round_timer =
        all_sets-true (λ s. same_test (has_action (flags s) round_timer) (seen s round_timer)) refl
          s

abbrev same_descriptor : Descriptor → Descriptor → Bool
same_descriptor server_sock server_sock = true
same_descriptor data_epoll data_epoll = true
same_descriptor timeout_epoll timeout_epoll = true
same_descriptor round_timer round_timer = true
same_descriptor x y = false

abbrev pub is_ready : Descriptor → List Descriptor → Bool
is_ready x [] = false
is_ready x (d ∷ ds) = same_descriptor d x || is_ready x ds

abbrev see_all : List Descriptor → Seen → Seen
see_all [] s = s
see_all (d ∷ ds) s = see_all ds (see d s)

loop_actions-flags :
    (ds : List Descriptor) (s : Seen) → loop_actions ds (flags s) ≡ flags (see_all ds s)
unfolding loop_actions
loop_actions-flags [] s = refl
loop_actions-flags (d ∷ ds) s =
    ap (loop_actions ds) (flags-see d s) ∙ loop_actions-flags ds (see d s)

seen-see : (x d : Descriptor) (s : Seen) → seen (see d s) x ≡ (same_descriptor d x || seen s x)
seen-see server_sock server_sock s = refl
seen-see server_sock data_epoll s = refl
seen-see server_sock timeout_epoll s = refl
seen-see server_sock round_timer s = refl
seen-see data_epoll server_sock s = refl
seen-see data_epoll data_epoll s = refl
seen-see data_epoll timeout_epoll s = refl
seen-see data_epoll round_timer s = refl
seen-see timeout_epoll server_sock s = refl
seen-see timeout_epoll data_epoll s = refl
seen-see timeout_epoll timeout_epoll s = refl
seen-see timeout_epoll round_timer s = refl
seen-see round_timer server_sock s = refl
seen-see round_timer data_epoll s = refl
seen-see round_timer timeout_epoll s = refl
seen-see round_timer round_timer s = refl

or_swap : (a b c : Bool) → (a || (b || c)) ≡ ((b || a) || c)
or_swap true true c = refl
or_swap true false c = refl
or_swap false true c = refl
or_swap false false c = refl

seen-see_all :
    (x : Descriptor) (ds : List Descriptor) (s : Seen)
    → seen (see_all ds s) x ≡ (is_ready x ds || seen s x)
seen-see_all x [] s = refl
seen-see_all x (d ∷ ds) s =
    seen-see_all x ds (see d s)
    ∙ ap (λ t. is_ready x ds || t) (seen-see x d s)
    ∙ or_swap (is_ready x ds) (same_descriptor d x) (seen s x)

or_false : (b : Bool) → (b || false) ≡ b
or_false true = refl
or_false false = refl

-- The flag of an action is set exactly if its descriptor is among those that are ready, in whatever
-- order and however often they are reported.
pub loop_actions-is_ready :
    (ds : List Descriptor) (x : Descriptor) → has_action (loop_actions ds 0) x ≡ is_ready x ds
loop_actions-is_ready ds x =
    ap (λ n. has_action n x) (loop_actions-flags ds (set_of false false false false))
    ∙ has_action-flags x (see_all ds (set_of false false false false))
    ∙ seen-see_all x ds (set_of false false false false)
    ∙ ap (λ t. is_ready x ds || t) (none_seen x)
    ∙ or_false (is_ready x ds)
  where
    none_seen : (x : Descriptor) → seen (set_of false false false false) x ≡ false
    none_seen server_sock = refl
    none_seen data_epoll = refl
    none_seen timeout_epoll = refl
    none_seen round_timer = refl
