-- ===== src/Benchmark/PoolRun/Defs.antt =====
-- The pool run. An object of the pool dies with the last pointer to it, which its order's book drops: that
-- may be any live object, at any moment between two submissions. The orders that no book drops while the run
-- lasts are dropped with the engine.
use astra_exchange.Base.{
  ℕ, ◌%◌, ◌≡◌, ◌||◌, Bool, false, not, some, List, [], ◌∷◌, String, length, u64_mod, add64,
  get_elem?, if◌then◌else◌,
}
use astra_exchange.Base.Int.{ℤ}
use astra_exchange.Types.{Order, new_order}
use astra_exchange.PriceLevel.{empty}
use astra_exchange.OrderBook.Defs.{Levels}
use astra_exchange.MatchingEngine.Defs.{MatchingEngine, Books}
use astra_exchange.MemoryPool.Defs.{MemoryPool, new_pool, alloc, dealloc}
use astra_exchange.Benchmark.Defs.{
  BenchmarkConfig, BenchmarkResult, baseline, Run, new_run, run_order, final_report,
}

-- The object that is constructed in the pool from the fields of the source order.
abbrev pub copied : Order → Order
copied o = new_order o.id o.symbol o.side o.type o.price o.quantity o.timestamp

pub record PoolRun : Type 0 where
  pub pool : MemoryPool Order
  pub run : Run
  pub todo : List Order

unfoldable pub new_pool_run : BenchmarkConfig → List Order → PoolRun
new_pool_run cfg orders = record {
  pool = new_pool (add64 (length orders) 1);
  run = new_run cfg.symbols;
  todo = orders;
}

pub data PoolStep (clock : ℕ → ℕ → ℕ) (p : PoolRun) : PoolRun → Type 0 where
  submitting :
      (o : Order) (todo : List Order) (i : ℕ) (q : MemoryPool Order)
      → p.todo ≡ o ∷ todo
      → alloc (copied o) p.pool ≡ some (i, q)
      → PoolStep clock p (record { pool = q; run = run_order clock p.run (copied o); todo = todo })
  -- The custom deleter.
  returning :
      (i : ℕ) (o : Order)
      → get_elem? p.pool.slots i ≡ some (some o)
      → PoolStep clock p (record p { pool = dealloc (some i) p.pool })

pub data PoolReach (clock : ℕ → ℕ → ℕ) : PoolRun → PoolRun → Type 0 where
  here : {p : PoolRun} → PoolReach clock p p
  step : {p q r : PoolRun} → PoolReach clock p q → PoolStep clock q r → PoolReach clock p r

unfoldable pub pool_result :
    (price_string : ℤ → String) (id_string : ℕ → String) (fixed_string : ℤ → String) {L : Type 0}
    → L
    → ℕ
    → BenchmarkConfig
    → List Order
    → Run
    → BenchmarkResult L
pool_result price_string id_string fixed_string latency memory cfg orders r = record {
  orders_submitted = length orders % u64_mod;
  orders_accepted = r.accepted;
  orders_rejected = r.refused;
  cancels_processed = r.cancels;
  trades_generated = r.trades;
  latency = latency;
  memory_kb = memory;
  invariants = final_report price_string id_string fixed_string cfg r;
  mode = baseline;
}

-- Whether an order rests on a side, or in a book.
unfoldable pub side_holds : Levels → Bool
side_holds [] = false
side_holds ((p, l) ∷ m) = not (empty l) || side_holds m

unfoldable pub books_hold : Books → Bool
books_hold [] = false
books_hold ((s, b) ∷ bs) = side_holds b.bids || side_holds b.asks || books_hold bs

-- How a run ends: with its result, or in what C++ leaves undefined.
pub data RunEnd (L : Type 0) : Type 0 where
  returned : BenchmarkResult L → RunEnd L
  undefined : RunEnd L

-- The end of the scope of `runPool`. The pool is declared after the engine and dies before it, and then the
-- engine drops the orders that still rest, whose deleter writes to the pool: with such an order the
-- behaviour is undefined.
unfoldable pub leave_scope : {L : Type 0} → MatchingEngine → BenchmarkResult L → RunEnd L
leave_scope e r = if books_hold e.books then undefined else returned r
