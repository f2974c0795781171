-- ===== src/Benchmark/Tests.antt =====
-- A run of two orders with the same id, on one symbol.
use astra_exchange.Base.{ℕ, ◌≡◌, ◌≤◌, ◌⊎◌, refl, String, true, [], ◌∷◌, arith, List}
use astra_exchange.Base.Int.{ℤ, pos}
use astra_exchange.Types.{buy, sell, limit, market, Order, new_order}
use astra_exchange.MatchingEngine.Defs.{new_engine}
use astra_exchange.MatchingEngine.Register.{new_engine-EngineValid, register-EngineValid}
use astra_exchange.Benchmark.Defs.{
  BenchmarkConfig, baseline, new_run, run_orders, register_all, final_report, run_baseline,
}
use astra_exchange.OrderBook.Shares.Defs.{traded_for}
use astra_exchange.Benchmark.Filled.{Admits, traded_for-run_orders}
use mathlib.Core.List.{Mem}
use astra_exchange.Benchmark.Passing.{run_baseline-passes}
use astra_exchange.Benchmark.Final.{final_report-passed}

abbrev price_string : ℤ → String
price_string p = "price"

abbrev id_string : ℕ → String
id_string id = "id"

abbrev clock : ℕ → ℕ → ℕ
clock call k = k

abbrev config : BenchmarkConfig
config = record {
  order_count = 2;
  symbols = "AAPL" ∷ [];
  seed = 42;
  csv_output = "";
  verify_invariants = true;
  mode = baseline;
  pipeline_capacity = 0;
}

orders : List Order
unfolding new_order
orders =
    new_order 1 "AAPL" sell limit (pos 100) 5 0 ∷ new_order 1 "AAPL" sell limit (pos 101) 6 0 ∷ []

empty_report_passed :
    (final_report price_string id_string price_string config (new_run ("AAPL" ∷ []))).passed ≡ true
unfolding new_run register_all
empty_report_passed =
    final_report-passed price_string id_string price_string config (new_run ("AAPL" ∷ []))
      (register-EngineValid "AAPL" new_engine new_engine-EngineValid) tt tt

run_baseline-passes_example :
    (run_baseline price_string id_string price_string {L = ℕ} 0 0 clock config
      orders).invariants.passed
    ≡ true
unfolding orders new_order
run_baseline-passes_example =
    run_baseline-passes {L = ℕ} price_string id_string price_string 0 0 clock config orders
      (refl, (refl, tt)) (omega arith)

met_twice : List Order
unfolding new_order
met_twice =
    new_order 1 "AAPL" sell limit (pos 100) 5 0
    ∷ new_order 2 "AAPL" buy limit (pos 100) 3 0
    ∷ new_order 2 "AAPL" buy limit (pos 100) 2 0
    ∷ new_order 3 "AAPL" buy market (pos 0) 9 0
    ∷ []

traded_for-run_orders_example :
    let k = traded_for 1 (run_orders clock (new_run ("AAPL" ∷ [])) met_twice).all_trades in
    (k ≡ 0) ⊎ ((o : Order) × Admits 1 (λ x. Mem x met_twice) o × (k ≤ o.quantity))
unfolding met_twice new_order
traded_for-run_orders_example =
    traded_for-run_orders clock ("AAPL" ∷ []) met_twice 1 (refl, (refl, (refl, (refl, tt))))
      (omega arith)
