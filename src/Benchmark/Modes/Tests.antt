-- ===== src/Benchmark/Modes/Tests.antt =====
-- A benchmark of two orders in the mode of two threads.
use astra_exchange.Base.{ℕ, ◌≡◌, String, true, some, List, [], ◌∷◌, arith}
use astra_exchange.Types.{Order}
use astra_exchange.Generator.Samples.{whole, counter, counter-InRange}
use astra_exchange.Generator.Loop.{generate}
use astra_exchange.Benchmark.Defs.{BenchmarkConfig, pipeline}
use astra_exchange.Benchmark.PoolRun.Defs.{RunEnd}
use astra_exchange.Benchmark.Pipeline.Defs.{ring_slots}
use astra_exchange.Benchmark.Modes.Defs.{generator_config, Runs}
use astra_exchange.Benchmark.Modes.Passes.{EndsWell, Runs-passes}
use astra_exchange.Benchmark.Modes.Agree.{ends_in, last_engine, baseline_marked, Runs-run_baseline}

abbrev text : {A : Type 0} → A → String
text x = "text"

abbrev clock : ℕ → ℕ → ℕ
clock call k = k

abbrev config : BenchmarkConfig
config = record {
  order_count = 2;
  symbols = "AAPL" ∷ [];
  seed = 42;
  csv_output = "";
  verify_invariants = true;
  mode = pipeline;
  pipeline_capacity = 0;
}

Runs-run_baseline_example :
    (orders : List Order) × (generate whole counter (generator_config whole config) ≡ some orders)
    × ((x : RunEnd ℕ) × Runs text text text 0 0 clock config orders x)
    × ((x : RunEnd ℕ)
        → Runs text text text 0 0 clock config orders x
        → x
          ≡ ends_in pipeline
              (last_engine clock config orders)
              (baseline_marked text text text 0 0 clock config orders))
unfolding ring_slots
Runs-run_baseline_example =
    Runs-run_baseline text text text 0 0 clock config whole counter counter-InRange (omega arith)
      (omega arith) (omega arith) (omega arith)

Runs-passes_example :
    (orders : List Order) × (generate whole counter (generator_config whole config) ≡ some orders)
    × ((x : RunEnd ℕ)
        → Runs text text text 0 0 clock config orders x
        → EndsWell clock config orders x)
unfolding ring_slots
Runs-passes_example =
    Runs-passes text text text 0 0 clock config whole counter counter-InRange (omega arith)
      (omega arith) (omega arith) (omega arith)
