-- ===== src/Benchmark/Table/Defs.antt =====
-- The lines of the table. How the standard library prints an unsigned number, a double with so many digits
-- after the point, and a text in a column is a parameter. A number's text has one byte for each character.
use Prim.Native.Char.{Char}
use Prim.Native.String.{count}
use Prim.Native.String.{◌++◌ as str_append}
use astra_exchange.Base.{
  ℕ, zero, suc, ◌-◌, String, Bool, List, [], ◌∷◌, ◌++◌, map, length, ltb, if◌then◌else◌,
}
use astra_exchange.Base.Int.{pos}
use astra_exchange.Floating.{Floating}
use astra_exchange.InvariantChecker.Defs.{InvariantViolation, Report}
use astra_exchange.LatencyTimer.Defs.{Stats}
use astra_exchange.Benchmark.Defs.{BenchmarkConfig, BenchmarkResult}
use astra_exchange.Benchmark.Csv.Defs.{mode_name}
use astra_exchange.Feed.EventLog.{concat}

-- `s.insert(pos, ",")`
unfoldable pub insert_at : ℕ → Char → String → String
insert_at zero d s = String.◌∷◌ d s
insert_at (suc n) d String.[] = ""
insert_at (suc n) d (String.◌∷◌ c s) = String.◌∷◌ c (insert_at n d s)

-- The loop of `fmt`, with a number of rounds. A position that is not positive ends it, so it may as well stop
-- at zero.
unfoldable pub insert_commas : ℕ → ℕ → String → String
insert_commas zero position s = s
insert_commas (suc rounds) position s =
    let rest = insert_commas rounds (position - 3) (insert_at position "," s) in
    if ltb 0 position then rest else s

unfoldable pub fmt : String → String
fmt s = insert_commas (count s) (count s - 3) s

abbrev pub bar : String
bar = "=================================================="

abbrev pub rule_line : String
rule_line = "  ----------------------------------------------"

module _ {D : Type 0} (fl : Floating D) (print : ℕ → String) (fixed : ℕ → D → String)
    (column : ℕ → String → String) where
  abbrev pub table_row : String → String → String
  table_row label value = concat ("  " ∷ column 28 label ∷ value ∷ [])

  abbrev pub throughput_text : ℕ → String
  throughput_text n =
      str_append (fixed 2 (fl.divided (fl.of_integer (pos n)) (fl.literal "1e6"))) " M orders/sec"

  abbrev pub us_row : String → ℕ → String
  us_row label ns =
      table_row label
        (str_append (fixed 2 (fl.divided (fl.of_integer (pos ns)) (fl.literal "1e3"))) " μs")

  abbrev pub memory_rows : ℕ → List String
  memory_rows kb =
      if ltb 0 kb
      then table_row "Memory usage:" (
          str_append (fixed 1 (fl.divided (fl.of_integer (pos kb)) (fl.literal "1024.0")))
            " MB (RSS)")
        ∷ []
      else []

  abbrev pub violation_line : InvariantViolation → String
  violation_line v = concat ("    [" ∷ v.symbol ∷ "] " ∷ v.rule ∷ ": " ∷ v.detail ∷ [])

  abbrev pub invariant_lines : Bool → Report → List String
  invariant_lines verify r =
      if r.passed
      then concat
          ("  Invariants: PASS (all " ∷ (if verify then "checked" else "skipped") ∷ ")" ∷ [])
        ∷ []
      else "  Invariants: FAIL" ∷ map violation_line r.violations

  abbrev pub count_rows : BenchmarkResult Stats → BenchmarkConfig → List String
  count_rows r cfg =
      table_row "Orders submitted:" (fmt (print r.orders_submitted))
      ∷ table_row "Orders accepted:" (fmt (print r.orders_accepted))
      ∷ table_row "Orders rejected:" (fmt (print r.orders_rejected))
      ∷ table_row "Cancels processed:" (fmt (print r.cancels_processed))
      ∷ table_row "Trades generated:" (fmt (print r.trades_generated))
      ∷ table_row "Symbols:" (print (length cfg.symbols))
      ∷ []

  abbrev pub latency_rows : Stats → List String
  latency_rows st =
      table_row "Throughput:" (throughput_text st.throughput_ops_per_sec)
      ∷ us_row "p50 latency:" st.p50
      ∷ us_row "p95 latency:" st.p95
      ∷ us_row "p99 latency:" st.p99
      ∷ us_row "Max latency:" st.max
      ∷ []

  unfoldable pub print_table : BenchmarkResult Stats → BenchmarkConfig → List String
  print_table r cfg =
      ""
        ∷ bar
        ∷ concat ("  AstraExchange Benchmark [" ∷ mode_name r.mode ∷ "]" ∷ [])
        ∷ bar
        ∷ count_rows r cfg
      ++ (rule_line ∷ latency_rows r.latency
          ++ (memory_rows r.memory_kb
              ++ (rule_line ∷ invariant_lines cfg.verify_invariants r.invariants
                  ++ (bar ∷ "" ∷ []))))
