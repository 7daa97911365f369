-- ===== src/ServerArgs.antt =====
-- server/server_args.c, and `str_to_i64` and `str_to_u64` of common/utils.c. `strtol` is a
-- parameter, as are the options that `getopt` finds: their letters with their arguments, each a C
-- string, and any other letter for an option that it does not know. So is the value of `time`.
pub mod Ranges
use sik_screen_worms.Prelude.{
  ℕ, ◌+◌, ◌-◌, ◌%◌, ◌^◌, Bool, true, false, ◌||◌, not, Option, none, some, List, [], ◌∷◌, ltb, ◌==◌,
  if◌then◌else◌, get_or,
}
use sik_screen_worms.Memory.{◌>>=◌}

pub data ℤ : Type 0 where
  pos : ℕ → ℤ
  negsuc : ℕ → ℤ

-- What a call of `strtol` leaves: `errno`, `err_ptr - str` and the number.
pub record Strtol : Type 0 where
  pub errno : ℕ
  pub consumed : ℕ
  pub value : ℤ

pub record ServerArgs : Type 0 where
  pub server_port : ℕ
  pub rng_seed : ℤ
  pub turning_speed : ℕ
  pub rounds_per_sec : ℕ
  pub board_width : ℕ
  pub board_height : ℕ

module _ (strtol : List ℕ → Strtol) where
  -- A result that is not a success is `none`.
  unfoldable pub str_to_i64 : List ℕ → Option ℤ
  str_to_i64 str =
      if not ((strtol str).errno == 0)
        || ((strtol str).consumed == 0 || not (get_or str (strtol str).consumed 0 == 0))
      then none
      else some (strtol str).value

  abbrev pub not_negative : ℤ → Option ℕ
  not_negative (pos n) = some n
  not_negative (negsuc n) = none

  unfoldable pub str_to_u64 : List ℕ → Option ℕ
  unfolding str_to_i64
  str_to_u64 str = str_to_i64 str >>= not_negative

  -- An argument that is a number up to a limit.
  abbrev pub limited : ℕ → List ℕ → Option ℕ
  limited limit optarg = str_to_u64 optarg >>= λ n. if ltb limit n then none else some n

  -- The `switch` on one option.
  unfoldable pub parse_option : ServerArgs → ℕ × List ℕ → Option ServerArgs
  parse_option args (opt, optarg) =
      if opt == b'p'
      then (limited 65535 optarg >>= λ n. some (record args { server_port = n }))
      else if opt == b's'
      then (str_to_i64 optarg >>= λ n. some (record args { rng_seed = n }))
      else if opt == b't'
      then (limited 30000 optarg >>= λ n. some (record args { turning_speed = n }))
      else if opt == b'v'
      then (limited 1000 optarg >>= λ n. some (record args { rounds_per_sec = n }))
      else if opt == b'w'
      then (limited 3840 optarg >>= λ n. some (record args { board_width = n }))
      else if opt == b'h'
      then (limited 2160 optarg >>= λ n. some (record args { board_height = n }))
      else none

  -- `while ((opt = getopt(...)) != -1)`.
  unfoldable pub parse_options : ServerArgs → List (ℕ × List ℕ) → Option ServerArgs
  parse_options args [] = some args
  parse_options args (o ∷ os) = parse_option args o >>= λ next. parse_options next os

  abbrev pub default_args : ℤ → ServerArgs
  default_args time = record {
    server_port = 2021;
    rng_seed = time;
    turning_speed = 6;
    rounds_per_sec = 50;
    board_width = 640;
    board_height = 480;
  }

  -- The arguments, or `none` for -1.
  unfoldable pub parse_server_args : ℤ → List (ℕ × List ℕ) → Option ServerArgs
  unfolding parse_options
  parse_server_args time options = parse_options (default_args time) options
