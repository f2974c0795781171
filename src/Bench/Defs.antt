-- ===== src/Bench/Defs.antt =====
-- The arguments and the exit code. The conversions of the standard library are parameters, with `none` for an
-- exception.
use Prim.Native.Char.{code}
use astra_exchange.Base.{
  ℕ, ◌%◌, ◌^◌, ◌==◌, ◌>>=◌, ◌||◌, ◌⊎◌, inl, inr, String, Bool, true, false, Option, none, some,
  List, [], ◌∷◌, str_eq, if◌then◌else◌, take,
}
use astra_exchange.CsvParser.Defs.{push_front}
use astra_exchange.Benchmark.Defs.{BenchmarkConfig, BenchmarkResult, baseline, pool, pipeline}

-- Every comma ends a part, and the end of the text ends the last one.
unfoldable pub split_comma : String → List String
split_comma String.[] = "" ∷ []
split_comma (String.◌∷◌ c s) =
    let rest = split_comma s in if code c == code "," then "" ∷ rest else push_front c rest

unfoldable pub has_comma : String → Bool
has_comma String.[] = false
has_comma (String.◌∷◌ c s) = (code c == code ",") || has_comma s

-- The configuration before the first argument.
abbrev pub default_config : BenchmarkConfig
default_config = record {
  order_count = 1000000;
  symbols = "AAPL" ∷ "MSFT" ∷ "NVDA" ∷ "TSLA" ∷ [];
  seed = 42;
  csv_output = "benchmark-results.csv";
  verify_invariants = true;
  mode = baseline;
  pipeline_capacity = 0;
}

-- Why the program ends before a run: its help is wanted, or it does not know this option.
pub data Exit : Type 0 where
  helped : Exit
  unknown : String → Exit

-- How the reading of the arguments ends: with a run, an exit of the program, or an exception.
pub data Outcome : Type 0 where
  runs : BenchmarkConfig → Outcome
  exits : Exit → Outcome
  throws : Outcome

-- An option without a value.
unfoldable pub plain_option : String → BenchmarkConfig → BenchmarkConfig ⊎ Exit
plain_option a cfg =
    if str_eq a "--no-verify"
    then inl (record cfg { verify_invariants = false })
    else if str_eq a "--no-csv"
    then inl (record cfg { csv_output = "" })
    else if str_eq a "--pool"
    then inl (record cfg { mode = pool })
    else if str_eq a "--pipeline"
    then inl (record cfg { mode = pipeline })
    else if str_eq a "--help" || str_eq a "-h"
    then inr helped
    else inr (unknown a)

module _ (stoull stoul : String → Option ℕ) where
  unfoldable pub symbols_of : String → Option (List String)
  symbols_of v =
      if has_comma v
      then some (split_comma v)
      else (stoul v >>= λ n. some (take n ("AAPL" ∷ "MSFT" ∷ "NVDA" ∷ "TSLA" ∷ [])))

  -- An option with a value; `none` is another option, and `some none` an exception.
  unfoldable pub valued_option : String → String → BenchmarkConfig → Option (Option BenchmarkConfig)
  valued_option a v cfg =
      if str_eq a "--orders"
      then some (stoull v >>= λ n. some (record cfg { order_count = n }))
      else if str_eq a "--symbols"
      then some (symbols_of v >>= λ ss. some (record cfg { symbols = ss }))
      else if str_eq a "--seed"
      then some (stoul v >>= λ n. some (record cfg { seed = n % 2 ^ 32 }))
      else if str_eq a "--csv"
      then some (some (record cfg { csv_output = v }))
      else if str_eq a "--ring-size"
      then some (stoul v >>= λ n. some (record cfg { pipeline_capacity = n }))
      else none

  -- The loop over the arguments after the program's name.
  unfoldable pub parse_args : List String → BenchmarkConfig → Outcome
  parse_args [] cfg = runs cfg
  parse_args (a ∷ []) cfg = elim (plain_option a cfg) [ inl c ↦ runs c | inr x ↦ exits x ]
  parse_args (a ∷ v ∷ rest) cfg = elim (valued_option a v cfg) [
    | some (some c) ↦ parse_args rest c
    | some none ↦ throws
    | none ↦ elim (plain_option a cfg) [ inl c ↦ parse_args (v ∷ rest) c | inr x ↦ exits x ]
  ]

-- What `main` returns after a run.
abbrev pub exit_code : {L : Type 0} → BenchmarkResult L → ℕ
exit_code r = if r.invariants.passed then 0 else 1

abbrev pub exit_code_of : Exit → ℕ
exit_code_of helped = 0
exit_code_of (unknown a) = 1
