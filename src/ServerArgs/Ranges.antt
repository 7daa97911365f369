-- ===== src/ServerArgs/Ranges.antt =====
-- The arguments that the server accepts are in range.
use sik_screen_worms.Prelude.{
  ℕ, ◌≤◌, ◌≡◌, ◌⊎◌, inl, inr, arith, Bool, true, false, Option, some, List, [], ◌∷◌, ltb, ◌==◌,
  if◌then◌else◌, Bool-cases, Option-cases, subst,
}
use sik_screen_worms.Memory.{◌>>=◌}
use sik_screen_worms.ServerArgs.{
  Strtol, ServerArgs, ℤ, limited, str_to_i64, str_to_u64, parse_option, parse_options, default_args,
  parse_server_args,
}

pub record InRange (a : ServerArgs) : Type 0 where
  pub port : a.server_port ≤ 65535
  pub speed : a.turning_speed ≤ 30000
  pub rounds : a.rounds_per_sec ≤ 1000
  pub width : a.board_width ≤ 3840
  pub height : a.board_height ≤ 2160

either :
    (test : Bool) (x y : Option ServerArgs) {b : ServerArgs}
    → (if test then x else y) ≡ some b
    → (x ≡ some b) ⊎ (y ≡ some b)
either true x y e = inl e
either false x y e = inr e

module _ (strtol : List ℕ → Strtol) where
  limited-le :
      (limit : ℕ) (optarg : List ℕ) (make : ℕ → ServerArgs) (b : ServerArgs)
      → (limited strtol limit optarg >>= λ n. some (make n)) ≡ some b
      → (n : ℕ) × (n ≤ limit) × (make n ≡ b)
  limited-le limit optarg make b e = elim (Option-cases (str_to_u64 strtol optarg)) [
    | inl k ↦ absurd (cc (e, k))
    | inr (n, k) ↦ elim (Bool-cases (ltb limit n)) [
      | inl l ↦ absurd (ground (arith, e, k, l))
      | inr l ↦ (n, ground (arith, l), ground (arith, e, k, l))
    ]
  ]

  parse_option-InRange :
      (a : ServerArgs) (opt : ℕ) (optarg : List ℕ) (b : ServerArgs)
      → InRange a
      → parse_option strtol a (opt, optarg) ≡ some b
      → InRange b
  unfolding parse_option
  parse_option-InRange a opt optarg b v e = elim (either (opt == b'p') _ _ e) [
    | inl q ↦
        let (n, l, r) = limited-le 65535 optarg (λ n. record a { server_port = n }) b q in
        subst InRange r (record {
          port = l;
          speed = v.speed;
          rounds = v.rounds;
          width = v.width;
          height = v.height;
        })
    | inr e1 ↦ elim (either (opt == b's') _ _ e1) [
      | inl q ↦ seeded q
      | inr e2 ↦ elim (either (opt == b't') _ _ e2) [
        | inl q ↦
            let (n, l, r) = limited-le 30000 optarg (λ n. record a { turning_speed = n }) b q in
            subst InRange r (record {
              port = v.port;
              speed = l;
              rounds = v.rounds;
              width = v.width;
              height = v.height;
            })
        | inr e3 ↦ elim (either (opt == b'v') _ _ e3) [
          | inl q ↦
              let (n, l, r) = limited-le 1000 optarg (λ n. record a { rounds_per_sec = n }) b q in
              subst InRange r (record {
                port = v.port;
                speed = v.speed;
                rounds = l;
                width = v.width;
                height = v.height;
              })
          | inr e4 ↦ elim (either (opt == b'w') _ _ e4) [
            | inl q ↦
                let (n, l, r) = limited-le 3840 optarg (λ n. record a { board_width = n }) b q in
                subst InRange r (record {
                  port = v.port;
                  speed = v.speed;
                  rounds = v.rounds;
                  width = l;
                  height = v.height;
                })
            | inr e5 ↦ elim (either (opt == b'h') _ _ e5) [
              | inl q ↦
                  let (n, l, r) = limited-le 2160 optarg (λ n. record a { board_height = n }) b q in
                  subst InRange r (record {
                    port = v.port;
                    speed = v.speed;
                    rounds = v.rounds;
                    width = v.width;
                    height = l;
                  })
              | inr e6 ↦ absurd (cc e6)
            ]
          ]
        ]
      ]
    ]
  ]
    where
      seeded :
          (str_to_i64 strtol optarg >>= λ n. some (record a { rng_seed = n })) ≡ some b → InRange b
      seeded q = elim (Option-cases (str_to_i64 strtol optarg)) [
        | inl k ↦ absurd (cc (q, k))
        | inr (n, k) ↦
            let same : record a { rng_seed = n } ≡ b = ground (arith, q, k) in
            subst InRange same (record {
              port = v.port;
              speed = v.speed;
              rounds = v.rounds;
              width = v.width;
              height = v.height;
            })
      ]

  -- Whatever `strtol` returns and `getopt` finds, accepted arguments keep to the documented limits:
  -- the port at most 65535, the speed of turning at
  -- most 30000, at most 1000 rounds in a second, and a board of at most 3840 by 2160 pixels.
  pub parse_server_args-InRange :
      (time : ℤ) (options : List (ℕ × List ℕ)) (a : ServerArgs)
      → parse_server_args strtol time options ≡ some a
      → InRange a
  unfolding parse_server_args
  parse_server_args-InRange time options a e =
      go options (default_args strtol time)
        (record {
          port = omega arith;
          speed = omega arith;
          rounds = omega arith;
          width = omega arith;
          height = omega arith;
        })
        e
    where
      go :
          (os : List (ℕ × List ℕ)) (b : ServerArgs)
          → InRange b
          → parse_options strtol b os ≡ some a
          → InRange a
      go [] b v q = subst InRange (ground (arith, q)) v
      go ((opt, optarg) ∷ os) b v q = elim (Option-cases (parse_option strtol b (opt, optarg))) [
        | inl k ↦ absurd (cc (q, k))
        | inr (c, k) ↦ go os c (parse_option-InRange b opt optarg c v k) (cc (q, k))
      ]
