-- ===== src/ClientArgs.antt =====
-- client/client_args.c. `strtol` is a parameter, as are the options that `getopt` finds: their
-- letters with their arguments, each a C string, and any other letter for an option that it does not
-- know, and the first argument behind them.
pub mod Names
use sik_screen_worms.Prelude.{
  ℕ, zero, suc, ◌-◌, ◌%◌, ◌^◌, Bool, true, false, ◌||◌, not, Option, none, some, List, [], ◌∷◌, ltb,
  ◌==◌, if◌then◌else◌, get_or, replicate,
}
use sik_screen_worms.Memory.{◌>>=◌, strlen}
use sik_screen_worms.ServerArgs.{ℤ, pos, negsuc, Strtol}

-- A pointer is `none` for NULL, otherwise the bytes from it on.
pub record ClientArgs : Type 0 where
  pub player_name : Option (List ℕ)
  pub server_address : Option (List ℕ)
  pub server_port : ℤ
  pub gui_address : List ℕ
  pub gui_port : ℤ

-- `cp_res_t`, with the arguments of a success. `fault` is a string without its NUL.
pub data ParseResult : Type 0 where
  success : ClientArgs → ParseResult
  missing_server_address : ParseResult
  invalid_player_name : ParseResult
  invalid_argument : ParseResult
  fault : ParseResult

-- The loop over the characters of a name, with `left` of them to go.
unfoldable pub chars_valid : ℕ → List ℕ → Bool
chars_valid zero cs = true
chars_valid (suc left) [] = false
chars_valid (suc left) (c ∷ cs) =
    let rest = chars_valid left cs in if ltb c 33 || ltb 126 c then false else rest

unfoldable pub player_name_valid : List ℕ → Option Bool
unfolding chars_valid
player_name_valid player_name = strlen player_name >>= λ len.
    some (if len == 0 || ltb 20 len then false else chars_valid len player_name)

-- A `long` that is not negative, returned as an `int32_t`.
unfoldable pub to_int32 : ℕ → ℤ
to_int32 res =
    if ltb (res % 2 ^ 32) (2 ^ 31) then pos (res % 2 ^ 32) else negsuc (2 ^ 32 - 1 - res % 2 ^ 32)

abbrev pub is_minus_one : ℤ → Bool
is_minus_one (pos n) = false
is_minus_one (negsuc n) = n == 0

abbrev pub default_args : ClientArgs
default_args = record {
  player_name = none;
  server_address = none;
  server_port = pos 2021;
  gui_address = b'l' ∷ b'o' ∷ b'c' ∷ b'a' ∷ b'l' ∷ b'h' ∷ b'o' ∷ b's' ∷ b't' ∷ 0 ∷ [];
  gui_port = pos 20210;
}

-- Behind the options: a client without a name has an empty one.
abbrev pub with_name : ClientArgs → ClientArgs
with_name args = elim args.player_name [
  | none ↦ record args { player_name = some (replicate 21 0) }
  | some name ↦ args
]

module _ (strtol : List ℕ → Strtol) where
  -- `negsuc 0` is -1.
  unfoldable pub read_port : List ℕ → ℤ
  unfolding to_int32
  read_port port_str =
      if not ((strtol port_str).errno == 0)
        || ((strtol port_str).consumed == 0
            || not (get_or port_str (strtol port_str).consumed 0 == 0))
      then negsuc 0
      else elim (strtol port_str).value [ negsuc n ↦ negsuc 0 | pos res ↦ to_int32 res ]

  -- The `switch` on one option; a success goes on to the next.
  unfoldable pub parse_option : ClientArgs → ℕ × List ℕ → ParseResult
  unfolding player_name_valid read_port
  parse_option args (opt, optarg) =
      if opt == b'n'
      then elim (player_name_valid optarg) [
        | none ↦ fault
        | some valid ↦
            if valid
            then success (record args { player_name = some optarg })
            else invalid_player_name
      ]
      else if opt == b'p'
      then if is_minus_one (read_port optarg)
        then invalid_argument
        else success (record args { server_port = read_port optarg })
      else if opt == b'i'
      then success (record args { gui_address = optarg })
      else if opt == b'r'
      then if is_minus_one (read_port optarg)
        then invalid_argument
        else success (record args { gui_port = read_port optarg })
      else invalid_argument

  -- `while ((opt = getopt(...)) != -1)`.
  unfoldable pub parse_options : ClientArgs → List (ℕ × List ℕ) → ParseResult
  parse_options args [] = success args
  parse_options args (o ∷ os) = elim (parse_option args o) [
    | success next ↦ parse_options next os
    | other ↦ other
  ]

  -- `argument` is `argv[optind]`, if there is one.
  unfoldable pub parse_client_args : List (ℕ × List ℕ) → Option (List ℕ) → ParseResult
  unfolding parse_options
  parse_client_args options argument = elim (parse_options default_args options) [
    | success args ↦ elim argument [
      | none ↦ missing_server_address
      | some address ↦ success (record (with_name args) { server_address = some address })
    ]
    | other ↦ other
  ]
