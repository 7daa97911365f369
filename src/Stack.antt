-- ===== src/Stack.antt =====
-- common/stack.c: a growing array. The array has a place for each element of its capacity, `none`
-- where nothing was written yet. Whether `realloc` finds memory is an argument of the push; an
-- outer `none` is a failed assert or a write outside the array.
pub mod Laws
use sik_screen_worms.Prelude.{
  ℕ, ◌+◌, ◌*◌, Bool, ◌&&◌, Option, none, some, List, ◌++◌, ltb, leb, ◌==◌, if◌then◌else◌, get_elem?,
  set, replicate, length,
}

pub record Stack {ℓ} (A : Type ℓ) : Type ℓ where
  pub size : ℕ
  pub capacity : ℕ
  pub slots : List (Option A)

module _ {ℓ} {A : Type ℓ} where
  -- INITIAL_CAPACITY is 4.
  unfoldable pub stack_create : Stack A
  stack_create = record { size = 0; capacity = 4; slots = replicate 4 none }

  unfoldable pub stack_size : Stack A → ℕ
  stack_size s = s.size

  -- NULL is `none`.
  unfoldable pub stack_get : Stack A → ℕ → Option A
  stack_get s index =
      if leb s.size index
      then none
      else elim (get_elem? s.slots index) [ none ↦ none | some slot ↦ slot ]

  -- The `memcpy` into the place behind the last element.
  store : Stack A → A → Option (Stack A × Option ℕ)
  store s element =
      if ltb s.size s.capacity && ltb s.size (length s.slots)
      then some
          (record s { slots = set s.slots s.size (some element); size = s.size + 1 }, some s.size)
      else none

  -- The stack after the call, and the index returned; -1 is `none`.
  unfoldable pub stack_push : Bool → Stack A → A → Option (Stack A × Option ℕ)
  unfolding store
  stack_push memory s element =
      if s.size == s.capacity
      then (if memory
          then store
              (record s { capacity = s.capacity * 2; slots = s.slots ++ replicate s.capacity none })
              element
          else some (s, none))
      else store s element
