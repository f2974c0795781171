-- ===== src/LatencyTimer/Report.antt =====
-- src/benchmark/LatencyTimer.cpp: `printReport`. How the standard library prints an unsigned number, and a double
-- with two digits, is a parameter. There is no report where `compute` reads beyond the end of the samples.
use astra_exchange.Base.{
  ℕ, ◌/◌, ◌>>=◌, String, Option, some, List, [], ◌∷◌, ◌++◌, ltb, if◌then◌else◌,
}
use astra_exchange.Base.Int.{pos}
use astra_exchange.Floating.{Floating}
use astra_exchange.Feed.EventLog.{concat}
use astra_exchange.LatencyTimer.Defs.{LatencyTimer, Stats, compute}

module _ {D : Type 0} (fl : Floating D) (print : ℕ → String) (fixed_double : D → String) where
  abbrev pub us_line : String → ℕ → String
  us_line label ns =
      concat
        (label ∷ fixed_double (fl.divided (fl.of_integer (pos ns)) (fl.literal "1e3")) ∷ " μs" ∷ [])

  abbrev pub throughput_lines : ℕ → List String
  throughput_lines n =
      if ltb 0 n
      then concat ("Throughput       : " ∷ print (n / 1000) ∷ " K orders/sec" ∷ []) ∷ []
      else []

  abbrev pub report_lines : String → Stats → List String
  report_lines label st =
      ""
        ∷ concat ("--- " ∷ label ∷ " ---" ∷ [])
        ∷ concat ("Orders processed : " ∷ print st.count ∷ [])
        ∷ us_line "Mean latency     : " st.mean
        ∷ us_line "p50  latency     : " st.p50
        ∷ us_line "p95  latency     : " st.p95
        ∷ us_line "p99  latency     : " st.p99
        ∷ us_line "Max  latency     : " st.max
        ∷ []
      ++ throughput_lines st.throughput_ops_per_sec

  unfoldable pub print_report : LatencyTimer → String → ℕ → Option (List String)
  print_report t label wall_ns = compute fl wall_ns t >>= λ st. some (report_lines label st)
