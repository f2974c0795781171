-- ===== src/Benchmark/Csv/Tests.antt =====
-- Two results saved one after the other.
use astra_exchange.Base.{ℕ, ◌≡◌, refl, String, true, false, none, some, [], ◌∷◌, map, zero, suc}
use astra_exchange.CsvParser.Defs.{split}
use astra_exchange.InvariantChecker.Defs.{passing}
use astra_exchange.Benchmark.Defs.{BenchmarkConfig, BenchmarkResult, BenchmarkMode, baseline, pool}
use astra_exchange.LatencyTimer.Defs.{Stats}
use astra_exchange.Benchmark.Csv.Defs.{save_csv, save_all}
use astra_exchange.Benchmark.Csv.Columns.{Readable, cells_of, csv_names, save_all-split}

-- One of three digits.
abbrev digit : ℕ → String
digit zero = "0"
digit (suc zero) = "1"
digit (suc (suc n)) = "2"

digit-Readable : Readable digit
digit-Readable zero = ((refl, tt), (refl, tt))
digit-Readable (suc zero) = ((refl, tt), (refl, tt))
digit-Readable (suc (suc n)) = ((refl, tt), (refl, tt))

abbrev two_symbols : BenchmarkConfig
two_symbols = record {
  order_count = 2;
  symbols = "A" ∷ "B" ∷ [];
  seed = 1;
  csv_output = "out.csv";
  verify_invariants = true;
  mode = baseline;
  pipeline_capacity = 4;
}

abbrev result_of : BenchmarkMode → BenchmarkResult Stats × BenchmarkConfig
result_of m = (
  record {
    orders_submitted = 2;
    orders_accepted = 1;
    orders_rejected = 1;
    cancels_processed = 0;
    trades_generated = 0;
    latency = record {
      p50 = 1;
      p95 = 1;
      p99 = 2;
      max = 2;
      mean = 1;
      throughput_ops_per_sec = 2;
      wall_ns = 2;
      count = 2;
    };
    memory_kb = 1;
    invariants = passing;
    mode = m;
  },
  two_symbols,
)

closed : save_csv digit false (result_of pool).0 two_symbols (some "x") ≡ some "x"
unfolding save_csv
closed = refl

appended :
    save_csv digit true (result_of pool).0 two_symbols (some "x,")
    ≡ some "x,pool,2,1,1,0,0,2,2,1,1,2,2,1,true\n"
unfolding save_csv
appended = refl

save_all-split_example :
    (text : String) × (save_all digit (result_of baseline ∷ result_of pool ∷ []) none ≡ some text)
    × (map (λ l. split l ",") (split text "\n")
        ≡ csv_names ∷ map (cells_of digit) (result_of baseline ∷ result_of pool ∷ []))
save_all-split_example =
    save_all-split digit digit-Readable (result_of baseline) (result_of pool ∷ [])
