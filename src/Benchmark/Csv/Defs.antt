-- ===== src/Benchmark/Csv/Defs.antt =====
-- The text that `saveCsv` adds to a file. A file that does not exist is `none`; that it can be opened is an
-- argument, and so is how the standard library prints an unsigned number.
use Prim.Native.String.{◌++◌ as str_append}
use astra_exchange.Base.{
  ℕ, String, Bool, true, false, Option, none, some, List, [], ◌∷◌, length, if◌then◌else◌,
}
use astra_exchange.Benchmark.Defs.{
  BenchmarkConfig, BenchmarkResult, BenchmarkMode, baseline, pool, pipeline,
}
use astra_exchange.LatencyTimer.Defs.{Stats}
use astra_exchange.CsvParser.Lines.{join}

abbrev pub mode_name : BenchmarkMode → String
mode_name pool = "pool"
mode_name pipeline = "pipeline"
mode_name baseline = "baseline"

abbrev pub csv_header : String
csv_header =
    "mode,orders_submitted,orders_accepted,orders_rejected,cancels_processed,trades_generated,symbols,throughput_ops_per_sec,p50_ns,p95_ns,p99_ns,max_ns,memory_kb,invariants_passed\n"

abbrev pub header_for : Option String → String
header_for none = csv_header
header_for (some text) = ""

abbrev pub text_of : Option String → String
text_of none = ""
text_of (some text) = text

abbrev pub passed_text : Bool → String
passed_text true = "true"
passed_text false = "false"

-- What `saveCsv` writes to the standard error.
abbrev pub save_warning : Bool → String → List String
save_warning true path = []
save_warning false path = str_append "Warning: cannot write CSV to " path ∷ []

module _ (print : ℕ → String) where
  abbrev pub csv_cells : BenchmarkResult Stats → BenchmarkConfig → List String
  csv_cells r cfg =
      mode_name r.mode
      ∷ print r.orders_submitted
      ∷ print r.orders_accepted
      ∷ print r.orders_rejected
      ∷ print r.cancels_processed
      ∷ print r.trades_generated
      ∷ print (length cfg.symbols)
      ∷ print r.latency.throughput_ops_per_sec
      ∷ print r.latency.p50
      ∷ print r.latency.p95
      ∷ print r.latency.p99
      ∷ print r.latency.max
      ∷ print r.memory_kb
      ∷ passed_text r.invariants.passed
      ∷ []

  unfoldable pub save_csv :
      Bool → BenchmarkResult Stats → BenchmarkConfig → Option String → Option String
  save_csv is_open r cfg file =
      if is_open
      then some (
          str_append (text_of file)
            (str_append (header_for file) (str_append (join "," (csv_cells r cfg)) "\n")))
      else file

  -- One run after another with the same file.
  unfoldable pub save_all :
      List (BenchmarkResult Stats × BenchmarkConfig) → Option String → Option String
  save_all [] file = file
  save_all ((r, cfg) ∷ rs) file = save_all rs (save_csv true r cfg file)
