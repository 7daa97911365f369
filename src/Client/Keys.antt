-- ===== src/Client/Keys.antt =====
-- The direction that the client asks for is that of the key held down since the latest press.
use sik_screen_worms.Prelude.{ℕ, ◌≡◌, refl, arith, Bool, true, false, List, [], ◌∷◌}
use sik_screen_worms.GuiMessages.{
  GuiAction, error, left_key_down, left_key_up, right_key_down, right_key_up,
}
use sik_screen_worms.Client.{KeyState, press, press_all}

pub data Key : Type 0 where
  left : Key
  right : Key

abbrev pub same_key : Key → Key → Bool
same_key left left = true
same_key right right = true
same_key left right = false
same_key right left = false

-- The keys held down, the one pressed last in front.
abbrev pub release : Key → List Key → List Key
release k [] = []
release k (h ∷ hs) = elim (same_key k h) [ true ↦ release k hs | false ↦ h ∷ release k hs ]

abbrev pub hold : GuiAction → List Key → List Key
hold left_key_down held = left ∷ release left held
hold right_key_down held = right ∷ release right held
hold left_key_up held = release left held
hold right_key_up held = release right held
hold error held = held

abbrev pub hold_all : List GuiAction → List Key → List Key
hold_all [] held = held
hold_all (a ∷ rest) held = hold_all rest (hold a held)

abbrev pub is_held : Key → List Key → Bool
is_held k [] = false
is_held k (h ∷ hs) = elim (same_key k h) [ true ↦ true | false ↦ is_held k hs ]

-- PD_LEFT is 2, PD_RIGHT is 1 and PD_FORWARD is 0.
abbrev pub wanted : List Key → ℕ
wanted [] = 0
wanted (left ∷ hs) = 2
wanted (right ∷ hs) = 1

pub record Shows (k : KeyState) (held : List Key) : Type 0 where
  pub turns : k.turn_direction ≡ wanted held
  pub left_shown : k.left_down ≡ is_held left held
  pub right_shown : k.right_down ≡ is_held right held

-- Each key is held at most once.
data Once : List Key → Type 0 where
  no_key : Once []
  one_key : (k : Key) → Once (k ∷ [])
  left_right : Once (left ∷ right ∷ [])
  right_left : Once (right ∷ left ∷ [])

hold-Once : (a : GuiAction) {held : List Key} → Once held → Once (hold a held)
hold-Once error o = o
hold-Once left_key_down no_key = one_key left
hold-Once left_key_down (one_key left) = one_key left
hold-Once left_key_down (one_key right) = left_right
hold-Once left_key_down left_right = left_right
hold-Once left_key_down right_left = left_right
hold-Once right_key_down no_key = one_key right
hold-Once right_key_down (one_key left) = right_left
hold-Once right_key_down (one_key right) = one_key right
hold-Once right_key_down left_right = right_left
hold-Once right_key_down right_left = right_left
hold-Once left_key_up no_key = no_key
hold-Once left_key_up (one_key left) = no_key
hold-Once left_key_up (one_key right) = one_key right
hold-Once left_key_up left_right = one_key right
hold-Once left_key_up right_left = one_key right
hold-Once right_key_up no_key = no_key
hold-Once right_key_up (one_key left) = one_key left
hold-Once right_key_up (one_key right) = no_key
hold-Once right_key_up left_right = one_key left
hold-Once right_key_up right_left = one_key left

press-Shows :
    (a : GuiAction) (k : KeyState) {held : List Key}
    → Once held
    → Shows k held
    → Shows (press a k) (hold a held)
unfolding press
press-Shows a k no_key s = ground arith
press-Shows a k (one_key left) s = ground arith
press-Shows a k (one_key right) s = ground arith
press-Shows a k left_right s = ground arith
press-Shows a k right_left s = ground arith

press_all-Once :
    (list : List GuiAction) (k : KeyState) {held : List Key}
    → Once held
    → Shows k held
    → Shows (press_all list k) (hold_all list held)
unfolding press_all
press_all-Once [] k o s = s
press_all-Once (a ∷ rest) k o s =
    press_all-Once rest (press a k) (hold-Once a o) (press-Shows a k o s)

-- After any messages of the interface, from the start of the client: the direction sent to the
-- server is that of the held key that was pressed last, forward if no key is held, and the two
-- flags say which keys are held.
pub press_all-Shows :
    (list : List GuiAction)
    → Shows
        (press_all list (record { turn_direction = 0; left_down = false; right_down = false }))
        (hold_all list [])
press_all-Shows list =
    press_all-Once list _ no_key (record { turns = refl; left_shown = refl; right_shown = refl })
