-- ===== src/Benchmark/Defs.antt =====
-- The baseline run. What the timer and the operating system measure is a parameter.
use astra_exchange.Base.{
  ℕ, String, Bool, none, some, List, [], ◌∷◌, ◌++◌, length, add64, u64_mod, ◌%◌, if◌then◌else◌,
}
use astra_exchange.Base.Int.{ℤ}
use astra_exchange.Types.{OrderStatus, cancelled, rejected, Order, Trade}
use astra_exchange.MatchingEngine.Defs.{
  MatchingEngine, Books, new_engine, find_book, register, submit_order,
}
use astra_exchange.InvariantChecker.Defs.{
  Report, passing, check_book, check_trades, check_unique_ids, merge,
}

pub data BenchmarkMode : Type 0 where
  baseline pool pipeline : BenchmarkMode

pub record BenchmarkConfig : Type 0 where
  pub order_count : ℕ
  pub symbols : List String
  pub seed : ℕ
  pub csv_output : String
  pub verify_invariants : Bool
  pub mode : BenchmarkMode
  pub pipeline_capacity : ℕ

-- `L` is the type of the timer's statistics.
pub record BenchmarkResult (L : Type 0) : Type 0 where
  pub orders_submitted : ℕ
  pub orders_accepted : ℕ
  pub orders_rejected : ℕ
  pub cancels_processed : ℕ
  pub trades_generated : ℕ
  pub latency : L
  pub memory_kb : ℕ
  pub invariants : Report
  pub mode : BenchmarkMode

-- The local variables of a run while its loop goes through the orders.
pub record Run : Type 0 where
  pub engine : MatchingEngine
  pub accepted : ℕ
  pub refused : ℕ
  pub cancels : ℕ
  pub trades : ℕ
  pub all_trades : List Trade
  pub accepted_ids : List ℕ

unfoldable pub register_all : List String → MatchingEngine → MatchingEngine
register_all [] e = e
register_all (s ∷ ss) e = register_all ss (register s e)

unfoldable pub new_run : List String → Run
new_run symbols = record {
  engine = register_all symbols new_engine;
  accepted = 0;
  refused = 0;
  cancels = 0;
  trades = 0;
  all_trades = [];
  accepted_ids = [];
}

-- The three branches on the status of the result.
abbrev pub tally : OrderStatus → ℕ → Run → Run
tally rejected id r = record r { refused = add64 r.refused 1 }
tally cancelled id r = record r { cancels = add64 r.cancels 1; accepted = add64 r.accepted 1 }
tally _ id r = record r { accepted = add64 r.accepted 1; accepted_ids = r.accepted_ids ++ id ∷ [] }

-- The clock is read by the call and by the trades before it in the call.
unfoldable pub run_order : (ℕ → ℕ → ℕ) → Run → Order → Run
run_order clock r o =
    let s = submit_order (clock r.engine.orders_processed) r.engine o in
    tally s.result.status o.id (record r {
      engine = s.engine;
      trades = add64 r.trades (length s.result.trades);
      all_trades = r.all_trades ++ s.result.trades;
    })

unfoldable pub run_orders : (ℕ → ℕ → ℕ) → Run → List Order → Run
run_orders clock r [] = r
run_orders clock r (o ∷ os) = run_orders clock (run_order clock r o) os

module _ (price_string : ℤ → String) (id_string : ℕ → String) (fixed_string : ℤ → String) where
  -- The reports of the books of the configured symbols; a symbol without a book has none.
  unfoldable pub book_reports : List String → Books → List Report
  book_reports [] bs = []
  book_reports (s ∷ ss) bs =
      let rest = book_reports ss bs in
      elim (find_book s bs) [
        | none ↦ rest
        | some b ↦ check_book price_string id_string fixed_string b ∷ rest
      ]

  unfoldable pub final_report : BenchmarkConfig → Run → Report
  final_report cfg r =
      if cfg.verify_invariants
      then merge (
          book_reports cfg.symbols r.engine.books
          ++ check_trades price_string id_string fixed_string r.all_trades []
            ∷ check_unique_ids price_string id_string fixed_string r.accepted_ids
            ∷ [])
      else passing

  unfoldable pub run_baseline :
      {L : Type 0} → L → ℕ → (ℕ → ℕ → ℕ) → BenchmarkConfig → List Order → BenchmarkResult L
  run_baseline latency memory clock cfg orders =
      let r = run_orders clock (new_run cfg.symbols) orders in
      record {
        orders_submitted = length orders % u64_mod;
        orders_accepted = r.accepted;
        orders_rejected = r.refused;
        cancels_processed = r.cancels;
        trades_generated = r.trades;
        latency = latency;
        memory_kb = memory;
        invariants = final_report cfg r;
        mode = baseline;
      }
