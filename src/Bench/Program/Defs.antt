-- ===== src/Bench/Program/Defs.antt =====
-- What the program writes and returns. How it may end is a data type, since a run may have more than one result;
-- an exception from a number's conversion ends it in no way that is modelled.
use Prim.Native.String.{◌++◌ as str_append}
use astra_exchange.Base.{
  ℕ, ◌≡◌, Bool, String, Option, some, List, [], ◌∷◌, ◌++◌, length, str_eq, if◌then◌else◌,
}
use astra_exchange.Base.Int.{ℤ}
use astra_exchange.Types.{Order}
use astra_exchange.Floating.{Floating, Randomness}
use astra_exchange.Generator.Loop.{generate}
use astra_exchange.LatencyTimer.Defs.{Stats}
use astra_exchange.Feed.EventLog.{concat}
use astra_exchange.Benchmark.Defs.{
  BenchmarkConfig, BenchmarkResult, BenchmarkMode, baseline, pool, pipeline,
}
use astra_exchange.Benchmark.Modes.Defs.{generator_config, Runs}
use astra_exchange.Benchmark.PoolRun.Defs.{returned, undefined}
use astra_exchange.Benchmark.Csv.Defs.{save_warning}
use astra_exchange.Benchmark.Table.Defs.{print_table}
use astra_exchange.Bench.Defs.{
  Exit, helped, unknown, exit_code_of, runs, exits, parse_args, default_config, exit_code,
}

abbrev pub print_usage : String → List String
print_usage argv0 =
    concat ("Usage: " ∷ argv0 ∷ " [options]" ∷ [])
    ∷ ""
    ∷ "Options:"
    ∷ "  --orders N          Number of orders (default: 1000000)"
    ∷ "  --symbols SYM,...   Comma-separated symbols (default: AAPL,MSFT,NVDA,TSLA)"
    ∷ "  --symbols N         Number of symbols from default list"
    ∷ "  --seed N            RNG seed (default: 42)"
    ∷ "  --csv PATH          Append results to CSV (default: benchmark-results.csv)"
    ∷ "  --no-verify         Skip invariant checking"
    ∷ "  --no-csv            Disable CSV output"
    ∷ "  --pool              Use MemoryPool allocator (single-threaded)"
    ∷ "  --pipeline          Use SPSC ring-buffer pipeline (2 threads)"
    ∷ "  --ring-size N       Pipeline ring buffer capacity (default: 16384)"
    ∷ ""
    ∷ "Examples:"
    ∷ concat ("  " ∷ argv0 ∷ " --orders 1000000" ∷ [])
    ∷ concat ("  " ∷ argv0 ∷ " --orders 1000000 --pool" ∷ [])
    ∷ concat ("  " ∷ argv0 ∷ " --orders 1000000 --pipeline" ∷ [])
    ∷ concat ("  " ∷ argv0 ∷ " --orders 10000000 --no-verify --no-csv" ∷ [])
    ∷ []

-- What is written on the standard error before a run.
abbrev pub exit_lines : String → Exit → List String
exit_lines argv0 helped = print_usage argv0
exit_lines argv0 (unknown a) = str_append "Unknown option: " a ∷ print_usage argv0

abbrev pub mode_text : BenchmarkMode → String
mode_text pool = " [pool]"
mode_text pipeline = " [pipeline]"
mode_text baseline = ""

-- The standard output, the standard error and the exit code.
pub record Ended : Type 0 where
  pub out : List String
  pub err : List String
  pub status : ℕ

module _ {D R : Type 0} (fl : Floating D) (rn : Randomness D R) (print : ℕ → String)
    (fixed : ℕ → D → String) (column : ℕ → String → String) where
  abbrev pub running_line : BenchmarkConfig → String
  running_line cfg = concat (
      "Running benchmark"
      ∷ mode_text cfg.mode
      ∷ ": "
      ∷ print cfg.order_count
      ∷ " orders, "
      ∷ print (length cfg.symbols)
      ∷ " symbol(s)..."
      ∷ [])

  abbrev pub appended_lines : BenchmarkConfig → List String
  appended_lines cfg =
      if str_eq cfg.csv_output ""
      then []
      else str_append "Results appended to: " cfg.csv_output ∷ []

  -- `run` saves the result where a path is given.
  abbrev pub run_errors : Bool → BenchmarkConfig → List String
  run_errors is_open cfg =
      if str_eq cfg.csv_output "" then [] else save_warning is_open cfg.csv_output

  abbrev pub finished : Bool → BenchmarkConfig → BenchmarkResult Stats → Ended
  finished is_open cfg r = record {
    out = running_line cfg ∷ print_table fl print fixed column r cfg ++ appended_lines cfg;
    err = run_errors is_open cfg;
    status = exit_code r;
  }

  module _ (price_string : ℤ → String) (fixed_string : ℤ → String)
      (stoull stoul : String → Option ℕ) (latency : Stats) (memory : ℕ) (clock : ℕ → ℕ → ℕ)
      (is_open : Bool) (argv0 : String) (args : List String) where
    -- How `main` may end for these arguments; `is_open` tells whether the CSV file can be opened. After undefined
    -- behaviour it may end in any way.
    pub data Ends : Ended → Type 0 where
      ran :
          (cfg : BenchmarkConfig) (orders : List Order) (r : BenchmarkResult Stats)
          → parse_args stoull stoul args default_config ≡ runs cfg
          → generate fl rn (generator_config fl cfg) ≡ some orders
          → Runs price_string print fixed_string latency memory clock cfg orders (returned r)
          → Ends (finished is_open cfg r)
      anyhow :
          (cfg : BenchmarkConfig) (orders : List Order) (e : Ended)
          → parse_args stoull stoul args default_config ≡ runs cfg
          → generate fl rn (generator_config fl cfg) ≡ some orders
          → Runs price_string print fixed_string latency memory clock cfg orders undefined
          → Ends e
      explained :
          (x : Exit)
          → parse_args stoull stoul args default_config ≡ exits x
          → Ends (record { out = []; err = exit_lines argv0 x; status = exit_code_of x })
