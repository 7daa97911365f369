-- ===== src/ClientArgs/Names.antt =====
-- The names that the client accepts.
use sik_screen_worms.Prelude.{
  ℕ, zero, suc, ◌≤◌, ◌<◌, ◌≡◌, refl, sym, ap, subst, ◌∙◌, arith, true, false, ◌||◌, Option, none,
  some, List, [], ◌∷◌, ◌++◌, ◌⊎◌, inl, inr, Bool-cases, Option-cases, ltb, ◌==◌, length, All,
  replicate,
}
use mathlib.Core.Path.{ap₂}
use sik_screen_worms.Memory.{strlen}
use sik_screen_worms.ServerArgs.{Strtol}
use sik_screen_worms.ClientArgs.{
  ClientArgs, ParseResult, success, missing_server_address, invalid_player_name, invalid_argument,
  fault, chars_valid, player_name_valid, parse_option, parse_options, default_args, with_name,
  parse_client_args,
}

abbrev pub IsNameChar : ℕ → Type 0
IsNameChar c = (33 ≤ c) × (c ≤ 126)

-- A C string of 1 to 20 characters from 33 to 126.
pub record IsPlayerName (memory : List ℕ) : Type 0 where
  pub text : List ℕ
  pub rest : List ℕ
  pub split : memory ≡ text ++ (0 ∷ rest)
  pub nonempty : 0 < length text
  pub short : length text ≤ 20
  pub printable : All IsNameChar text

-- `strlen` finds the first NUL.
strlen_split :
    (s : List ℕ) (len : ℕ)
    → strlen s ≡ some len
    → (text rest : List ℕ) × (s ≡ text ++ (0 ∷ rest)) × (length text ≡ len)
unfolding strlen
strlen_split [] len h = cc
strlen_split (zero ∷ cs) len h = ([], cs, refl, ground (arith, h))
strlen_split (suc c ∷ cs) len h = elim (Option-cases (strlen cs)) [
  | inl e ↦ absurd (ground (arith, h, e))
  | inr (n, e) ↦
      let (text, rest, split, size) = strlen_split cs n e in
      (suc c ∷ text, rest, ap (λ t. suc c ∷ t) split, ground (arith, h, e, size))
]

chars_valid-All :
    (text rest : List ℕ) → chars_valid (length text) (text ++ rest) ≡ true → All IsNameChar text
unfolding chars_valid
chars_valid-All [] rest h = tt
chars_valid-All (c ∷ text) rest h = elim (Bool-cases (ltb c 33 || ltb 126 c)) [
  | inl bad ↦ absurd (ground (arith, h, bad))
  | inr fine ↦ (ground (arith, fine), chars_valid-All text rest (ground (arith, h, fine)))
]

player_name_valid-IsPlayerName :
    (memory : List ℕ) → player_name_valid memory ≡ some true → IsPlayerName memory
unfolding player_name_valid
player_name_valid-IsPlayerName memory h = elim (Option-cases (strlen memory)) [
  | inl e ↦ absurd (ground (arith, h, e))
  | inr (len, e) ↦
      let (text, rest, split, size) = strlen_split memory len e in
      elim (Bool-cases (len == 0 || ltb 20 len)) [
        | inl bad ↦ absurd (ground (arith, h, e, bad))
        | inr fine ↦
            let checked : chars_valid len memory ≡ true = ground (arith, h, e, fine) in
            record {
              text = text;
              rest = rest;
              split = split;
              nonempty = ground (arith, fine, size);
              short = ground (arith, fine, size);
              printable =
                  chars_valid-All text (0 ∷ rest) (ap₂ chars_valid size (sym split) ∙ checked);
            }
      ]
]

-- The name in the arguments, while the options are read.
abbrev NameFine : Option (List ℕ) → Type 0
NameFine none = Unit {0}
NameFine (some memory) = IsPlayerName memory

module _ (strtol : List ℕ → Strtol) where
  -- The options other than the name.
  kept_name :
      (args next : ClientArgs) (opt : ℕ) (optarg : List ℕ)
      → (opt == b'n') ≡ false
      → parse_option strtol args (opt, optarg) ≡ success next
      → next.player_name ≡ args.player_name
  unfolding parse_option
  kept_name args next opt optarg other h = ground (arith, other, h)

  new_name :
      (args next : ClientArgs) (opt : ℕ) (optarg : List ℕ)
      → (opt == b'n') ≡ true
      → parse_option strtol args (opt, optarg) ≡ success next
      → (player_name_valid optarg ≡ some true) × (next.player_name ≡ some optarg)
  unfolding parse_option
  new_name args next opt optarg name h = (ground (arith, name, h), ground (arith, name, h))

  parse_option-NameFine :
      (args next : ClientArgs) (o : ℕ × List ℕ)
      → NameFine args.player_name
      → parse_option strtol args o ≡ success next
      → NameFine next.player_name
  parse_option-NameFine args next (opt, optarg) fine h = elim (Bool-cases (opt == b'n')) [
    | inr other ↦ subst NameFine (sym (kept_name args next opt optarg other h)) fine
    | inl name ↦
        let (valid, e) = new_name args next opt optarg name h in
        subst NameFine (sym e) (player_name_valid-IsPlayerName optarg valid)
  ]

  -- What an option left, and the rest of them behind a success.
  data Went (args last : ClientArgs) (o : ℕ × List ℕ) (os : List (ℕ × List ℕ)) : Type 0 where
    went :
        (next : ClientArgs)
        → parse_option strtol args o ≡ success next
        → parse_options strtol next os ≡ success last
        → Went args last o os

  next_option :
      (args next : ClientArgs) (o : ℕ × List ℕ) (os : List (ℕ × List ℕ))
      → parse_option strtol args o ≡ success next
      → parse_options strtol args (o ∷ os) ≡ parse_options strtol next os
  unfolding parse_options
  next_option args next o os e = rw (parse_options, e)

  one_option :
      (args last : ClientArgs) (o : ℕ × List ℕ) (os : List (ℕ × List ℕ)) (r : ParseResult)
      → parse_option strtol args o ≡ r
      → parse_options strtol args (o ∷ os) ≡ success last
      → Went args last o os
  unfolding parse_options
  one_option args last o os (success next) e h =
      went next e (sym (next_option args next o os e) ∙ h)
  one_option args last o os missing_server_address e h = absurd (ground (arith, h, e))
  one_option args last o os invalid_player_name e h = absurd (ground (arith, h, e))
  one_option args last o os invalid_argument e h = absurd (ground (arith, h, e))
  one_option args last o os fault e h = absurd (ground (arith, h, e))

  parse_options-NameFine :
      (options : List (ℕ × List ℕ)) (args last : ClientArgs)
      → NameFine args.player_name
      → parse_options strtol args options ≡ success last
      → NameFine last.player_name
  unfolding parse_options
  parse_options-NameFine [] args last fine h = ground (arith, h, fine)
  parse_options-NameFine (o ∷ os) args last fine h =
      elim (one_option args last o os (parse_option strtol args o) refl h) [
        | went next e rest ↦
            parse_options-NameFine os next last (parse_option-NameFine args next o fine e) rest
      ]

-- What the client starts with: a name that is empty, or of 1 to 20 printable characters, and the
-- address of the server.
pub record Accepted (args : ClientArgs) (argument : Option (List ℕ)) : Type 0 where
  pub name : List ℕ
  pub given : args.player_name ≡ some name
  pub valid : (name ≡ replicate 21 0) ⊎ IsPlayerName name
  pub address : List ℕ
  pub from_argument : argument ≡ some address
  pub kept_address : args.server_address ≡ some address

with_name-Accepted :
    (args : ClientArgs) (name : Option (List ℕ)) (address : List ℕ)
    → args.player_name ≡ name
    → NameFine name
    → Accepted (record (with_name args) { server_address = some address }) (some address)
with_name-Accepted args none address e fine = record {
  name = replicate 21 0;
  given = rw e;
  valid = inl refl;
  address = address;
  from_argument = refl;
  kept_address = refl;
}
with_name-Accepted args (some name) address e fine = record {
  name = name;
  given = rw e;
  valid = inr fine;
  address = address;
  from_argument = refl;
  kept_address = refl;
}

-- Whatever the options are, in any number and order: if the client starts, then the name that it
-- goes by is empty or one of 1 to 20 characters from 33 to 126, in a string that ends with a NUL,
-- and the address of the server is the argument behind the options.
pub parse_client_args-Accepted :
    (strtol : List ℕ → Strtol) (options : List (ℕ × List ℕ)) (argument : Option (List ℕ))
    (args : ClientArgs)
    → parse_client_args strtol options argument ≡ success args
    → Accepted args argument
unfolding parse_client_args
parse_client_args-Accepted strtol options argument args h =
    go argument (parse_options strtol default_args options) refl h
  where
    go :
        (argument : Option (List ℕ)) (r : ParseResult)
        → parse_options strtol default_args options ≡ r
        → parse_client_args strtol options argument ≡ success args
        → Accepted args argument
    go none (success last) e h = absurd (ground (arith, h, e))
    go (some address) (success last) e h =
        let fine = parse_options-NameFine strtol options default_args last tt e in
        let shape : record (with_name last) { server_address = some address } ≡ args =
          ground (arith, h, e) in
        subst (λ a. Accepted a (some address)) shape
          (with_name-Accepted last last.player_name address refl fine)
    go argument missing_server_address e h = absurd (ground (arith, h, e))
    go argument invalid_player_name e h = absurd (ground (arith, h, e))
    go argument invalid_argument e h = absurd (ground (arith, h, e))
    go argument fault e h = absurd (ground (arith, h, e))
