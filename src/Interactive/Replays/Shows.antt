-- ===== src/Interactive/Replays/Shows.antt =====
-- What the program shows of a replay.
use astra_exchange.Base.{ℕ, ◌≡◌, String, false, Option, ◌++◌, length}
use astra_exchange.Base.Int.{ℤ}
use astra_exchange.Floating.{Floating}
use astra_exchange.LatencyTimer.Defs.{Stats}
use astra_exchange.CsvParser.Defs.{ParseResult}
use astra_exchange.Benchmark.Defs.{new_run, run_orders}
use astra_exchange.Replay.Defs.{ReplayStats, Console, show_errors}
use astra_exchange.Replay.Output.{replies, rejections, out_lines, err_lines}
use astra_exchange.Replay.Whole.{Reported}
use astra_exchange.Interactive.Defs.{Arguments}
use astra_exchange.Interactive.Replays.Defs.{replay_config, fresh_console, replay_report}

module _ {D : Type 0} (fl : Floating D) (print : ℕ → String)
    (default_double fixed_double : D → String) (default_string fixed_string : ℤ → String)
    (column : ℕ → String → String) (begins ends : ℕ → ℕ) (clock : ℕ → ℕ → ℕ)
    (stoull : String → Option ℕ) (fixed_price : String → Option ℤ) (wall_ns : ℕ) where
  -- What the program shows of a replay without books: the lines of the trades, if they are wanted, and the
  -- report of these statistics, all in the default format; and on the standard error the errors of a file
  -- without an order, and the rejected orders, if they are wanted.
  pub record Shown (args : Arguments) (parsed : ParseResult) (c : Console) : Type 0 where
    pub stats : ReplayStats Stats
    pub reported :
        Reported
          (length parsed.orders)
          (length (run_orders clock (new_run args.symbols) parsed.orders).all_trades)
          stats
    pub out :
        c.out
        ≡ out_lines print default_string fixed_string column begins ends clock
            (replay_config args)
            false
            args.print_trades
            (run_orders clock (new_run args.symbols) parsed.orders).all_trades
          ++ replay_report fl print default_double fixed_double false stats
    pub err :
        c.err
        ≡ (show_errors print parsed fresh_console).err
          ++ err_lines print default_string fixed_string column begins ends clock
              (replay_config args)
              args.verbose
              (rejections (replies clock (new_run args.symbols) parsed.orders))
