-- ===== src/Bench/Tests.antt =====
-- The arguments of one configuration, with a conversion that knows one number.
use astra_exchange.Base.{
  ℕ, zero, suc, ◌>>=◌, false, ◌≡◌, refl, String, Option, some, [], ◌∷◌, arith,
}
use astra_exchange.Benchmark.Defs.{BenchmarkConfig, pool}
use astra_exchange.Bench.Defs.{runs, parse_args, default_config}
use astra_exchange.Bench.Render.{render, parse_args-render}

-- Numbers as strokes.
abbrev print : ℕ → String
print zero = ""
print (suc n) = String.◌∷◌ "1" (print n)

abbrev count : String → Option ℕ
count String.[] = some 0
count (String.◌∷◌ c s) = count s >>= λ n. some (suc n)

count-print : (n : ℕ) → count (print n) ≡ some n
count-print zero = refl
count-print (suc n) = rw (count-print n) refl

abbrev config : BenchmarkConfig
config = record {
  order_count = 3;
  symbols = "AAPL" ∷ "IBM" ∷ [];
  seed = 7;
  csv_output = "out.csv";
  verify_invariants = false;
  mode = pool;
  pipeline_capacity = 4;
}

parse_args-render_example :
    parse_args count count (render print config) default_config ≡ runs config
parse_args-render_example =
    parse_args-render count count print config "AAPL" "IBM" [] (λ n l. count-print n)
      (λ n l. count-print n) refl
      ((refl, (refl, (refl, (refl, tt)))), ((refl, (refl, (refl, tt))), tt)) (omega arith)
      (omega arith) (omega arith)
