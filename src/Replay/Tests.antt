-- ===== src/Replay/Tests.antt =====
-- Replays of two orders and of a file.
use astra_exchange.Base.{
  ℕ, ◌+◌, ◌≡◌, refl, String, Bool, true, false, not, ◌&&◌, ◌||◌, Option, none, some, List, [], ◌∷◌,
  length, str_eq, if◌then◌else◌, is_empty, arith, min,
}
use astra_exchange.Base.Int.{ℤ, pos}
use astra_exchange.Types.{buy, sell, limit, Order, new_order}
use astra_exchange.CsvParser.Defs.{
  parse_file, scan_lines, scan_line, parse_line, parse_fields, split,
}
use astra_exchange.LatencyTimer.Defs.{Stats}
use astra_exchange.LatencyTimer.Bounds.{Scales}
use astra_exchange.Generator.Samples.{whole}
use astra_exchange.Benchmark.Defs.{new_run, run_orders}
use astra_exchange.Replay.Defs.{ReplayConfig, ReplayStats, Console, new_replay, run_replay}
use astra_exchange.Replay.Same.{many, replay_orders-run_orders}
use astra_exchange.Replay.Digits.{replay_orders-digits}
use astra_exchange.Replay.Whole.{Reported, run_replay-stats}

abbrev clock : ℕ → ℕ → ℕ
clock call k = k

abbrev print : {A : Type 0} → A → String
print x = "number"

abbrev column : ℕ → String → String
column width s = s

abbrev begins : ℕ → ℕ
begins n = min n 100

abbrev ends : ℕ → ℕ
ends n = min (n + 1) 100

abbrev quiet : Console
quiet = record { out = []; err = []; two_digits = false }

abbrev shows : Bool → ReplayConfig
shows book = record {
  csv_path = "orders.csv";
  print_trades = true;
  print_book = book;
  verbose = true;
  book_depth = 5;
}

orders : List Order
unfolding new_order
orders =
    new_order 1 "AAPL" sell limit (pos 100) 5 0 ∷ new_order 2 "AAPL" buy limit (pos 101) 6 0 ∷ []

abbrev replayed : Bool → List Order → Console
replayed book os =
    (many print print print column begins ends clock (shows book) (new_replay ("AAPL" ∷ []) quiet)
      os).console

replay_orders-run_orders_example :
    let p =
      many print print print column begins ends clock
        (shows true)
        (new_replay ("AAPL" ∷ []) quiet)
        orders in
    let r = run_orders clock (new_run ("AAPL" ∷ [])) orders in
    (p.engine ≡ r.engine)
    × (p.accepted ≡ r.accepted)
    × (p.refused ≡ r.refused)
    × (p.trades ≡ r.trades)
    × (length p.timer.samples ≡ length orders)
replay_orders-run_orders_example =
    replay_orders-run_orders print print print column begins ends clock (shows true) ("AAPL" ∷ [])
      quiet orders

replay_orders-digits_example : (replayed true orders).two_digits ≡ (
    false || (true && not (is_empty (run_orders clock (new_run ("AAPL" ∷ [])) orders).all_trades)))
replay_orders-digits_example =
    replay_orders-digits print print print column begins ends clock (shows true) ("AAPL" ∷ []) quiet
      orders

abbrev stoull : String → Option ℕ
stoull s = if str_eq s "7" then some 7 else none

abbrev fixed_price : String → Option ℤ
fixed_price s = if str_eq s "100.5" then some (pos 1005000) else none

abbrev file : Option (List String)
file = some (
    "timestamp,order_id,symbol,side,type,price,quantity" ∷ "7,7,AAPL,BUY,LIMIT,100.5,7" ∷ "no order"
    ∷ [])

parsed : length (parse_file stoull fixed_price "orders.csv" file).orders ≡ 1
unfolding parse_file scan_lines scan_line parse_line parse_fields split new_order
parsed = refl

scales : Scales whole
scales n = (omega arith, omega arith, omega arith)

run_replay-stats_example :
    (st : ReplayStats Stats) × ((run_replay print print print column begins ends clock
        (shows true)
        whole
        stoull
        fixed_price
        9
        ("AAPL" ∷ [])
        file
        quiet).0
      ≡ some st)
    × Reported
        (length (parse_file stoull fixed_price "orders.csv" file).orders)
        (length
          (run_orders clock
            (new_run ("AAPL" ∷ []))
            (parse_file stoull fixed_price "orders.csv" file).orders).all_trades)
        st
run_replay-stats_example =
    run_replay-stats print print print column begins ends clock (shows true) whole stoull
      fixed_price 9 ("AAPL" ∷ []) file quiet scales (λ n. (omega arith, omega arith, omega arith))
      (omega (arith, parsed))
