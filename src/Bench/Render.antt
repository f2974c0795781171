-- ===== src/Bench/Render.antt =====
-- The arguments that give a configuration.
use native.Mathlib.Nat.{mod-eq_of_lt}
use mathlib.Core.Path.{subst}
use astra_exchange.Base.{
  ℕ, ◌<◌, ◌^◌, ◌≡◌, refl, ap, ◌∙◌, sym, arith, u64_mod, String, Bool, true, false, Option, some,
  List, [], ◌∷◌, ◌++◌, All,
}
use astra_exchange.CsvParser.Lines.{Free, join}
use astra_exchange.Benchmark.Defs.{BenchmarkConfig, BenchmarkMode, baseline, pool, pipeline}
use astra_exchange.Bench.Defs.{
  runs, plain_option, valued_option, symbols_of, parse_args, default_config,
}
use astra_exchange.Bench.Commas.{split_comma-join, has_comma-join}

abbrev pub mode_args : BenchmarkMode → List String
mode_args baseline = []
mode_args pool = "--pool" ∷ []
mode_args pipeline = "--pipeline" ∷ []

abbrev pub verify_args : Bool → List String
verify_args true = []
verify_args false = "--no-verify" ∷ []

abbrev pub render : (ℕ → String) → BenchmarkConfig → List String
render print cfg =
    "--orders"
      ∷ print cfg.order_count
      ∷ "--symbols"
      ∷ join "," cfg.symbols
      ∷ "--seed"
      ∷ print cfg.seed
      ∷ "--csv"
      ∷ cfg.csv_output
      ∷ "--ring-size"
      ∷ print cfg.pipeline_capacity
      ∷ verify_args cfg.verify_invariants
    ++ mode_args cfg.mode

module _ (stoull stoul : String → Option ℕ) where
  symbols_of-join :
      (f g : String) (fs : List String)
      → All (λ s. Free "," s) (f ∷ g ∷ fs)
      → symbols_of stoull stoul (join "," (f ∷ g ∷ fs)) ≡ some (f ∷ g ∷ fs)
  unfolding symbols_of
  symbols_of-join f g fs h =
      rw (has_comma-join f (join "," (g ∷ fs)), split_comma-join f (g ∷ fs) h) refl

  parse_args-valued :
      (a v : String) (rest : List String) (cfg c : BenchmarkConfig)
      → valued_option stoull stoul a v cfg ≡ some (some c)
      → parse_args stoull stoul (a ∷ v ∷ rest) cfg ≡ parse_args stoull stoul rest c
  unfolding parse_args
  parse_args-valued a v rest cfg c e = rw (e, parse_args) refl

  flags :
      (v : Bool) (m : BenchmarkMode) (c : BenchmarkConfig)
      → c.verify_invariants ≡ true
      → c.mode ≡ baseline
      → parse_args stoull stoul (verify_args v ++ mode_args m) c
        ≡ runs (record c { verify_invariants = v; mode = m })
  unfolding parse_args valued_option plain_option
  flags true baseline c a b = ap runs (
      ap (λ v. record c { verify_invariants = v }) a
      ∙ ap (λ m. record c { verify_invariants = true; mode = m }) b)
  flags true pool c a b = ap runs (ap (λ v. record c { verify_invariants = v; mode = pool }) a)
  flags true pipeline c a b =
      ap runs (ap (λ v. record c { verify_invariants = v; mode = pipeline }) a)
  flags false baseline c a b =
      ap runs (ap (λ m. record c { verify_invariants = false; mode = m }) b)
  flags false pool c a b = refl
  flags false pipeline c a b = refl

  -- A configuration of at least two symbols, in whose names no comma stands, is what the program reads from
  -- its arguments, where the library reads back the numbers that are printed, and these fit their words.
  pub parse_args-render :
      (print : ℕ → String) (cfg : BenchmarkConfig) (f g : String) (fs : List String)
      → ((n : ℕ) → n < u64_mod → stoull (print n) ≡ some n)
      → ((n : ℕ) → n < u64_mod → stoul (print n) ≡ some n)
      → cfg.symbols ≡ f ∷ g ∷ fs
      → All (λ s. Free "," s) (f ∷ g ∷ fs)
      → cfg.order_count < u64_mod
      → cfg.seed < 2 ^ 32
      → cfg.pipeline_capacity < u64_mod
      → parse_args stoull stoul (render print cfg) default_config ≡ runs cfg
  unfolding valued_option
  parse_args-render print cfg f g fs p q e h l m n =
      let s : symbols_of stoull stoul (join "," cfg.symbols) ≡ some cfg.symbols =
        subst (λ ss. symbols_of stoull stoul (join "," ss) ≡ some ss) (sym e)
          (symbols_of-join f g fs h) in
      let c1 = record default_config { order_count = cfg.order_count } in
      let c2 = record c1 { symbols = cfg.symbols } in
      let c3 = record c2 { seed = cfg.seed } in
      let c4 = record c3 { csv_output = cfg.csv_output } in
      let c5 = record c4 { pipeline_capacity = cfg.pipeline_capacity } in
      parse_args-valued "--orders" (print cfg.order_count) _ default_config c1
        (rw (p cfg.order_count l) refl)
      ∙ parse_args-valued "--symbols" (join "," cfg.symbols) _ c1 c2 (rw s refl)
      ∙ parse_args-valued "--seed" (print cfg.seed) _ c2 c3
          (rw (q cfg.seed (omega (arith, m)), mod-eq_of_lt m) refl)
      ∙ parse_args-valued "--csv" cfg.csv_output _ c3 c4 refl
      ∙ parse_args-valued "--ring-size" (print cfg.pipeline_capacity) _ c4 c5
          (rw (q cfg.pipeline_capacity n) refl)
      ∙ flags cfg.verify_invariants cfg.mode c5 refl refl
