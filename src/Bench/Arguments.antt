-- ===== src/Bench/Arguments.antt =====
-- What the arguments of the benchmark say.
use mathlib.Core.Path.{subst}
use astra_exchange.Base.{
  ℕ, ◌≡◌, ◌≢◌, refl, ap, ◌∙◌, ◌⊎◌, inl, inr, String, false, Option, none, List, [], ◌∷◌, ◌++◌, All,
  str_eq, eq_iff, Bool-cases, Option-cases,
}
use astra_exchange.Benchmark.Defs.{BenchmarkConfig}
use astra_exchange.Bench.Defs.{
  Exit, helped, unknown, runs, exits, throws, plain_option, valued_option, parse_args,
}

-- The options that the program knows.
abbrev pub known_options : List String
known_options =
    "--orders" ∷ "--symbols" ∷ "--seed" ∷ "--csv" ∷ "--ring-size" ∷ "--no-verify" ∷ "--no-csv"
    ∷ "--pool" ∷ "--pipeline" ∷ "--help" ∷ "-h" ∷ []

abbrev pub Unknown : String → Type 0
Unknown a = All (λ o. a ≢ o) known_options

str_eq-false : (a b : String) → a ≢ b → str_eq a b ≡ false
str_eq-false a b n = elim (Bool-cases (str_eq a b)) [
  | inl y ↦ absurd (n ((eq_iff a b).0 y))
  | inr e ↦ e
]

plain-cases :
    (r : BenchmarkConfig ⊎ Exit)
    → ((c : BenchmarkConfig) × (r ≡ inl c)) ⊎ ((x : Exit) × (r ≡ inr x))
plain-cases (inl c) = inl (c, refl)
plain-cases (inr x) = inr (x, refl)

plain_option-ne :
    (a o : String) (cfg c : BenchmarkConfig)
    → plain_option a cfg ≡ inl c
    → plain_option o cfg ≡ inr (unknown o)
    → str_eq a o ≡ false
plain_option-ne a o cfg c e f =
    str_eq-false a o
      (λ q. let g : plain_option o cfg ≡ inl c = subst (λ t. plain_option t cfg ≡ inl c) q e in cc)

module _ (stoull stoul : String → Option ℕ) where
  plain_option-valued_option :
      (a v : String) (cfg c : BenchmarkConfig)
      → plain_option a cfg ≡ inl c
      → valued_option stoull stoul a v cfg ≡ none
  unfolding valued_option plain_option
  plain_option-valued_option a v cfg c e =
      rw
        (
          plain_option-ne a "--orders" cfg c e refl,
          plain_option-ne a "--symbols" cfg c e refl,
          plain_option-ne a "--seed" cfg c e refl,
          plain_option-ne a "--csv" cfg c e refl,
          plain_option-ne a "--ring-size" cfg c e refl,
        )
        refl

  parse_args-plain :
      (a : String) (rest : List String) (cfg c : BenchmarkConfig)
      → plain_option a cfg ≡ inl c
      → parse_args stoull stoul (a ∷ rest) cfg ≡ parse_args stoull stoul rest c
  unfolding parse_args
  parse_args-plain a [] cfg c e = rw (e, parse_args) refl
  parse_args-plain a (v ∷ rest) cfg c e =
      rw (plain_option-valued_option a v cfg c e, e, parse_args) refl

  -- Arguments that are read to their end leave those after them to be read with the configuration they gave.
  parse_args-append :
      (args rest : List String) (cfg c : BenchmarkConfig)
      → parse_args stoull stoul args cfg ≡ runs c
      → parse_args stoull stoul (args ++ rest) cfg ≡ parse_args stoull stoul rest c
  unfolding parse_args
  parse_args-append [] rest cfg c e =
      let q : cfg ≡ c = cc in ap (λ c. parse_args stoull stoul rest c) q
  parse_args-append (a ∷ []) rest cfg c e = elim (plain-cases (plain_option a cfg)) [
    | inl (d, f) ↦
        let g : runs d ≡ runs c = rw (f, parse_args) at e in
        let q : d ≡ c = cc in
        parse_args-plain a rest cfg d f ∙ ap (λ c. parse_args stoull stoul rest c) q
    | inr (n, f) ↦ let g : exits n ≡ runs c = rw (f, parse_args) at e in cc
  ]
  parse_args-append (a ∷ v ∷ args) rest cfg c e =
      elim (Option-cases (valued_option stoull stoul a v cfg)) [
        | inl f ↦ elim (plain-cases (plain_option a cfg)) [
          | inl (d, g) ↦
              let h : parse_args stoull stoul (v ∷ args) d ≡ runs c = rw (f, g, parse_args) at e in
              rw (f, g, parse_args) (parse_args-append (v ∷ args) rest d c h)
          | inr (n, g) ↦ let h : exits n ≡ runs c = rw (f, g, parse_args) at e in cc
        ]
        | inr (o, f) ↦ elim (Option-cases o) [
          | inl g ↦ let h : throws ≡ runs c = rw (f, g, parse_args) at e in cc
          | inr (d, g) ↦
              let h : parse_args stoull stoul args d ≡ runs c = rw (f, g, parse_args) at e in
              rw (f, g, parse_args) (parse_args-append args rest d c h)
        ]
      ]

  Unknown-plain_option :
      (a : String) (cfg : BenchmarkConfig) → Unknown a → plain_option a cfg ≡ inr (unknown a)
  unfolding plain_option
  Unknown-plain_option a cfg
        (u0, (u1, (u2, (u3, (u4, (u5, (u6, (u7, (u8, (u9, (u10, u11))))))))))) =
      rw
        (
          str_eq-false a "--no-verify" u5,
          str_eq-false a "--no-csv" u6,
          str_eq-false a "--pool" u7,
          str_eq-false a "--pipeline" u8,
          str_eq-false a "--help" u9,
          str_eq-false a "-h" u10,
        )
        refl

  Unknown-valued_option :
      (a v : String) (cfg : BenchmarkConfig) → Unknown a → valued_option stoull stoul a v cfg ≡ none
  unfolding valued_option
  Unknown-valued_option a v cfg (u0, (u1, (u2, (u3, (u4, u5))))) =
      rw
        (
          str_eq-false a "--orders" u0,
          str_eq-false a "--symbols" u1,
          str_eq-false a "--seed" u2,
          str_eq-false a "--csv" u3,
          str_eq-false a "--ring-size" u4,
        )
        refl

  refuses :
      (a : String) (rest : List String) (cfg : BenchmarkConfig)
      → Unknown a
      → parse_args stoull stoul (a ∷ rest) cfg ≡ exits (unknown a)
  unfolding parse_args
  refuses a [] cfg u = rw (Unknown-plain_option a cfg u, parse_args) refl
  refuses a (v ∷ rest) cfg u =
      rw (Unknown-valued_option a v cfg u, Unknown-plain_option a cfg u, parse_args) refl

  helps :
      (rest : List String) (cfg : BenchmarkConfig)
      → parse_args stoull stoul ("--help" ∷ rest) cfg ≡ exits helped
  unfolding parse_args plain_option valued_option
  helps [] cfg = refl
  helps (v ∷ rest) cfg = refl

  helps_shortly :
      (rest : List String) (cfg : BenchmarkConfig)
      → parse_args stoull stoul ("-h" ∷ rest) cfg ≡ exits helped
  unfolding parse_args plain_option valued_option
  helps_shortly [] cfg = refl
  helps_shortly (v ∷ rest) cfg = refl

  -- After arguments that are read to their end, an argument that is no option of the program ends it as an
  -- unknown option of that name, and each of `--help` and `-h` ends it with the help, whatever follows.
  pub parse_args-exits :
      (args rest : List String) (a : String) (cfg c : BenchmarkConfig)
      → parse_args stoull stoul args cfg ≡ runs c
      → (Unknown a → parse_args stoull stoul (args ++ a ∷ rest) cfg ≡ exits (unknown a))
        × (parse_args stoull stoul (args ++ "--help" ∷ rest) cfg ≡ exits helped)
        × (parse_args stoull stoul (args ++ "-h" ∷ rest) cfg ≡ exits helped)
  parse_args-exits args rest a cfg c e = (
    λ u. parse_args-append args (a ∷ rest) cfg c e ∙ refuses a rest c u,
    parse_args-append args ("--help" ∷ rest) cfg c e ∙ helps rest c,
    parse_args-append args ("-h" ∷ rest) cfg c e ∙ helps_shortly rest c,
  )
