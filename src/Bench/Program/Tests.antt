-- ===== src/Bench/Program/Tests.antt =====
-- The program with the arguments of one configuration.
use astra_exchange.Base.{
  ℕ, zero, suc, ◌>>=◌, true, false, ◌≡◌, refl, String, Option, some, List, [], ◌∷◌, ◌++◌, arith,
}
use astra_exchange.Benchmark.Defs.{BenchmarkConfig, pool, pipeline}
use astra_exchange.Benchmark.Pipeline.Defs.{ring_slots}
use astra_exchange.Generator.Samples.{whole, counter, counter-InRange}
use astra_exchange.LatencyTimer.Defs.{Stats}
use astra_exchange.Bench.Render.{render}
use astra_exchange.Bench.Defs.{runs, plain_option, parse_args, default_config}
use astra_exchange.Bench.Arguments.{Unknown}
use astra_exchange.Bench.Program.Refuses.{OnlyEnds, Ends-refuses}
use astra_exchange.Bench.Program.Defs.{Ended, Ends, print_usage}
use astra_exchange.Bench.Program.Succeeds.{Succeeded, verdict, render-succeeds}

-- Numbers as strokes.
abbrev print : ℕ → String
print zero = ""
print (suc n) = String.◌∷◌ "1" (print n)

abbrev count : String → Option ℕ
count String.[] = some 0
count (String.◌∷◌ c s) = count s >>= λ n. some (suc n)

count-print : (n : ℕ) → count (print n) ≡ some n
count-print zero = refl
count-print (suc n) = rw (count-print n) refl

abbrev config : BenchmarkConfig
config = record {
  order_count = 3;
  symbols = "AAPL" ∷ "IBM" ∷ [];
  seed = 7;
  csv_output = "out.csv";
  verify_invariants = true;
  mode = pipeline;
  pipeline_capacity = 4;
}

abbrev text : {A : Type 0} → A → String
text x = "text"

abbrev fixed : ℕ → ℕ → String
fixed digits n = "number"

abbrev column : ℕ → String → String
column width s = s

abbrev clock : ℕ → ℕ → ℕ
clock call k = k

abbrev latency : Stats
latency = record {
  p50 = 1;
  p95 = 1;
  p99 = 2;
  max = 2;
  mean = 1;
  throughput_ops_per_sec = 2;
  wall_ns = 6;
  count = 3;
}

abbrev MainEnds : List String → Ended → Type 0
MainEnds args e =
    Ends whole counter print fixed column text text count count latency 9 clock false
      "exchange_bench" args e

render-succeeds_example :
    ((e : Ended) × MainEnds (render print config) e)
    × ((e : Ended)
        → MainEnds (render print config) e
        → Succeeded (verdict true) ("Warning: cannot write CSV to out.csv" ∷ []) e)
unfolding ring_slots
render-succeeds_example =
    render-succeeds whole counter print fixed column text text count count latency 9 clock false
      "exchange_bench" config "AAPL" "IBM" [] counter-InRange (λ n l. count-print n)
      (λ n l. count-print n) (λ e. cc) refl
      ((refl, (refl, (refl, (refl, tt)))), ((refl, (refl, (refl, tt))), tt)) (omega arith)
      (omega arith) (omega arith) (omega arith) (omega arith)

fast-Unknown : Unknown "fast"
fast-Unknown = (
  λ e. cc,
  (
    λ e. cc,
    (
      λ e. cc,
      (λ e. cc, (λ e. cc, (λ e. cc, (λ e. cc, (λ e. cc, (λ e. cc, (λ e. cc, (λ e. cc, tt)))))))),
    ),
  ),
)

pool_read :
    parse_args count count ("--pool" ∷ []) default_config
    ≡ runs (record default_config { mode = pool })
unfolding parse_args plain_option
pool_read = refl

abbrev OnlyMainEnds : List String → Ended → Type 0
OnlyMainEnds =
    OnlyEnds whole counter print fixed column text text count count latency 9 clock false
      "exchange_bench"

Ends-refuses_example :
    OnlyMainEnds
      (("--pool" ∷ []) ++ "fast" ∷ "--seed" ∷ [])
      (record { out = []; err = "Unknown option: fast" ∷ print_usage "exchange_bench"; status = 1 })
    × OnlyMainEnds
        (("--pool" ∷ []) ++ "--help" ∷ "--seed" ∷ [])
        (record { out = []; err = print_usage "exchange_bench"; status = 0 })
    × OnlyMainEnds
        (("--pool" ∷ []) ++ "-h" ∷ "--seed" ∷ [])
        (record { out = []; err = print_usage "exchange_bench"; status = 0 })
Ends-refuses_example =
    Ends-refuses whole counter print fixed column text text count count latency 9 clock false
      "exchange_bench" ("--pool" ∷ []) ("--seed" ∷ []) "fast"
      (record default_config { mode = pool }) pool_read fast-Unknown
