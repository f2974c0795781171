-- ===== src/Replay/Defs.antt =====
-- The run of a replay, with what it writes. The high resolution clock is a parameter, read by the number of the
-- samples before it; how the standard library prints an integer and a price, in the default format and with
-- two digits, is a parameter too.
use Prim.Native.String.{◌++◌ as str_append}
use astra_exchange.Base.{
  ℕ, ◌%◌, ◌>>=◌, ◌&&◌, not, String, Bool, true, false, Option, none, some, List, [], ◌∷◌, ◌++◌, map,
  length, add64, u64_mod, if◌then◌else◌, is_empty,
}
use astra_exchange.Base.Int.{ℤ}
use astra_exchange.Types.{OrderStatus, rejected, Order, Trade}
use astra_exchange.RiskValidator.{
  Reason, quantity_zero, limit_price, unknown_symbol, duplicate_id, no_book, unknown_cancel_symbol,
  order_not_found, fok_liquidity, ioc_no_fill,
}
use astra_exchange.MatchingEngine.Defs.{
  EngineResult, MatchingEngine, new_engine, find_book, submit_order,
}
use astra_exchange.Benchmark.Defs.{register_all}
use astra_exchange.CsvParser.Defs.{ParseError, ParseResult, parse_file}
use astra_exchange.Feed.EventLog.{concat}
use astra_exchange.Feed.MarketData.{publish}
use astra_exchange.Floating.{Floating}
use astra_exchange.LatencyTimer.Defs.{LatencyTimer, Stats, start, stop, compute}

pub record ReplayConfig : Type 0 where
  pub csv_path : String
  pub print_trades : Bool
  pub print_book : Bool
  pub verbose : Bool
  pub book_depth : ℕ

pub record ReplayStats (L : Type 0) : Type 0 where
  pub orders_submitted : ℕ
  pub orders_accepted : ℕ
  pub orders_rejected : ℕ
  pub trade_count : ℕ
  pub latency : L

-- The standard output and the standard error, line by line. Once a book has set the standard output to two
-- digits, it stays so.
pub record Console : Type 0 where
  pub out : List String
  pub err : List String
  pub two_digits : Bool

-- The engine, the counts, the timer and the streams while the loop goes through the orders.
pub record Replay : Type 0 where
  pub engine : MatchingEngine
  pub accepted : ℕ
  pub refused : ℕ
  pub trades : ℕ
  pub timer : LatencyTimer
  pub console : Console

abbrev pub no_samples : LatencyTimer
no_samples = record { t0 = 0; samples = [] }

-- The constructor registers the symbols.
unfoldable pub new_replay : List String → Console → Replay
new_replay symbols console = record {
  engine = register_all symbols new_engine;
  accepted = 0;
  refused = 0;
  trades = 0;
  timer = no_samples;
  console = console;
}

-- An order is submitted between two readings.
abbrev pub timed : (ℕ → ℕ) → (ℕ → ℕ) → LatencyTimer → LatencyTimer
timed begins ends t = stop (ends (length t.samples)) (start (begins (length t.samples)) t)

abbrev pub note : OrderStatus → Replay → Replay
note rejected p = record p { refused = add64 p.refused 1 }
note _ p = record p { accepted = add64 p.accepted 1 }

abbrev pub is_rejected : OrderStatus → Bool
is_rejected rejected = true
is_rejected _ = false

module _ (print : ℕ → String) where
  -- The texts of the results.
  abbrev pub reason_text : Option Reason → String
  reason_text none = ""
  reason_text (some quantity_zero) = "quantity must be > 0"
  reason_text (some limit_price) = "limit order price must be > 0"
  reason_text (some (unknown_symbol s)) = str_append "unknown symbol: " s
  reason_text (some (duplicate_id id)) = str_append "duplicate order id: " (print id)
  reason_text (some no_book) = "no book for symbol"
  reason_text (some unknown_cancel_symbol) = "unknown symbol"
  reason_text (some (order_not_found id)) = str_append "order not found: " (print id)
  reason_text (some fok_liquidity) = "FOK: insufficient liquidity"
  reason_text (some ioc_no_fill) = "IOC: no fill at limit price"

  abbrev pub reject_line : Order → EngineResult → String
  reject_line o r = concat ("REJECT id=" ∷ print o.id ∷ " " ∷ reason_text r.reject_reason ∷ [])

  abbrev pub error_line : ParseError → String
  error_line e = concat ("  line " ∷ print e.line ∷ ": " ∷ e.message ∷ [])

  -- Errors are shown only where the file has no order.
  unfoldable pub show_errors : ParseResult → Console → Console
  show_errors r c =
      if not (is_empty r.errors) && is_empty r.orders
      then record c { err = c.err ++ "Parse errors:" ∷ map error_line r.errors }
      else c

module _ (print : ℕ → String) (default_string fixed_string : ℤ → String)
    (column : ℕ → String → String) where
  -- A price as the standard output prints it.
  abbrev pub price_text : Bool → ℤ → String
  price_text two_digits p = if two_digits then fixed_string p else default_string p

  abbrev pub replay_line : Bool → Trade → String
  replay_line two_digits t = concat (
      "TRADE "
      ∷ t.symbol
      ∷ " price="
      ∷ price_text two_digits t.price
      ∷ " qty="
      ∷ print t.quantity
      ∷ [])

  -- Each of the three `if`s with its condition.
  abbrev pub show_rejection : Bool → Order → EngineResult → Console → Console
  show_rejection true o r c = record c { err = c.err ++ reject_line print o r ∷ [] }
  show_rejection false o r c = c

  abbrev pub show_trades : Bool → EngineResult → Console → Console
  show_trades true r c = record c { out = c.out ++ map (replay_line c.two_digits) r.trades }
  show_trades false r c = c

  -- The feed prints at least one trade, with two digits.
  abbrev pub show_book : Bool → ℕ → MatchingEngine → Order → EngineResult → Console → Console
  show_book true depth e o r c = elim (find_book o.symbol e.books) [
    | some b ↦ record c {
      out = c.out ++ publish print fixed_string column b r.trades depth;
      two_digits = true;
    }
    | none ↦ c
  ]
  show_book false depth e o r c = c

  unfoldable pub shown : ReplayConfig → MatchingEngine → Order → EngineResult → Console → Console
  shown cfg e o r c =
      show_book (cfg.print_book && not (is_empty r.trades)) cfg.book_depth e o r (
        show_trades cfg.print_trades r (show_rejection (is_rejected r.status && cfg.verbose) o r c))

  module _ (begins ends : ℕ → ℕ) (clock : ℕ → ℕ → ℕ) (cfg : ReplayConfig) where
    unfoldable pub replay_order : Replay → Order → Replay
    replay_order p o =
        let s = submit_order (clock p.engine.orders_processed) p.engine o in
        let p' =
          note s.result.status
            (record p { engine = s.engine; timer = timed begins ends p.timer }) in
        record p' {
          trades = add64 p'.trades (length s.result.trades);
          console = shown cfg s.engine o s.result p.console;
        }

    unfoldable pub replay_orders : Replay → List Order → Replay
    replay_orders p [] = p
    replay_orders p (o ∷ os) = replay_orders (replay_order p o) os

    -- `run`, of a replay with these symbols: the statistics, of which the timer's may not be there, and
    -- the streams.
    unfoldable pub run_replay :
        {D : Type 0}
        → Floating D
        → (stoull : String → Option ℕ) (fixed_price : String → Option ℤ) → ℕ
        → List String
        → Option (List String)
        → Console
        → Option (ReplayStats Stats) × Console
    run_replay fl stoull fixed_price wall_ns symbols file console =
        let parsed = parse_file stoull fixed_price cfg.csv_path file in
        let p =
          replay_orders (new_replay symbols (show_errors print parsed console)) parsed.orders in
        (
          compute fl wall_ns p.timer >>= λ latency. some (record {
            orders_submitted = length parsed.orders % u64_mod;
            orders_accepted = p.accepted;
            orders_rejected = p.refused;
            trade_count = p.trades;
            latency = latency;
          }),
          p.console,
        )
