-- ===== src/Interactive/Replays/Defs.antt =====
-- The program's usage, and what it does with the arguments of a replay. How the standard library prints a double,
-- in the default format and with two digits, is a parameter.
use astra_exchange.Base.{
  ℕ, ◌/◌, ◌>>=◌, String, Bool, false, Option, some, List, [], ◌∷◌, ◌++◌, if◌then◌else◌,
}
use astra_exchange.Base.Int.{ℤ, pos}
use astra_exchange.Floating.{Floating}
use astra_exchange.LatencyTimer.Defs.{Stats}
use astra_exchange.Feed.EventLog.{concat}
use astra_exchange.Replay.Defs.{ReplayConfig, ReplayStats, Console, run_replay}
use astra_exchange.Interactive.Defs.{Arguments}

abbrev pub usage_lines : String → List String
usage_lines argv0 =
    "Usage:"
    ∷ concat ("  " ∷ argv0 ∷ " --replay <orders.csv> [options]" ∷ [])
    ∷ concat ("  " ∷ argv0 ∷ " --interactive" ∷ [])
    ∷ ""
    ∷ "Options:"
    ∷ "  --symbols SYM1,SYM2,...   Registered symbols (default: AAPL,MSFT,TSLA,NVDA)"
    ∷ "  --trades                  Print each trade"
    ∷ "  --book                    Print book after each trade"
    ∷ "  --verbose                 Print rejected orders"
    ∷ []

-- The depth of a book is the default.
abbrev pub replay_config : Arguments → ReplayConfig
replay_config args = record {
  csv_path = args.csv_path;
  print_trades = args.print_trades;
  print_book = args.print_book;
  verbose = args.verbose;
  book_depth = 5;
}

-- The streams before the program writes.
abbrev pub fresh_console : Console
fresh_console = record { out = []; err = []; two_digits = false }

module _ {D : Type 0} (fl : Floating D) (print : ℕ → String)
    (default_double fixed_double : D → String) where
  abbrev pub micros : Bool → ℕ → String
  micros two_digits ns =
      let us = fl.divided (fl.of_integer (pos ns)) (fl.literal "1e3") in
      if two_digits then fixed_double us else default_double us

  abbrev pub latency_line : Bool → String → ℕ → String
  latency_line two_digits label ns = concat (label ∷ micros two_digits ns ∷ " μs" ∷ [])

  -- The lines after a replay, on a stream that may have been set to two digits.
  unfoldable pub replay_report : Bool → ReplayStats Stats → List String
  replay_report two_digits st =
      ""
      ∷ "=== Replay Complete ==="
      ∷ concat ("Orders submitted : " ∷ print st.orders_submitted ∷ [])
      ∷ concat ("Orders accepted  : " ∷ print st.orders_accepted ∷ [])
      ∷ concat ("Orders rejected  : " ∷ print st.orders_rejected ∷ [])
      ∷ concat ("Trades generated : " ∷ print st.trade_count ∷ [])
      ∷ ""
      ∷ "--- Matching Latency ---"
      ∷ latency_line two_digits "Mean : " st.latency.mean
      ∷ latency_line two_digits "p50  : " st.latency.p50
      ∷ latency_line two_digits "p95  : " st.latency.p95
      ∷ latency_line two_digits "p99  : " st.latency.p99
      ∷ latency_line two_digits "max  : " st.latency.max
      ∷ concat (
          "Throughput : " ∷ print (st.latency.throughput_ops_per_sec / 1000) ∷ " K orders/sec" ∷ [])
      ∷ []

  module _ (default_string fixed_string : ℤ → String) (column : ℕ → String → String)
      (begins ends : ℕ → ℕ) (clock : ℕ → ℕ → ℕ) (stoull : String → Option ℕ)
      (fixed_price : String → Option ℤ) (wall_ns : ℕ) where
    -- The streams at the end; the exit code is 0.
    unfoldable pub replay_program : Arguments → Option (List String) → Option Console
    replay_program args file =
        let (stats, c) =
          run_replay print default_string fixed_string column begins ends clock (replay_config args)
            fl stoull fixed_price wall_ns args.symbols file fresh_console in
        stats >>= λ st. some (record c { out = c.out ++ replay_report c.two_digits st })
