-- ===== src/Benchmark/Accounts.antt =====
-- The counts of a run.
use astra_exchange.Base.{
  ℕ, ◌+◌, ◌<◌, ◌≤◌, ◌%◌, ◌≡◌, String, List, [], ◌∷◌, arith, length, length-append, u64_mod,
}
use mathlib.Core.Path.{subst}
use astra_exchange.MatchingEngine.Defs.{submit_order}
use astra_exchange.Base.Int.{ℤ}
use astra_exchange.Types.{
  OrderStatus, pending, accepted, partially_filled, filled, cancelled, rejected, Order,
}
use astra_exchange.Benchmark.Defs.{
  Run, BenchmarkConfig, BenchmarkResult, new_run, tally, run_order, run_orders, run_baseline,
}

-- `n` orders are counted, each as accepted or as rejected, and every trade.
pub record Counts (n : ℕ) (r : Run) : Type 0 where
  pub orders : r.accepted + r.refused ≡ n
  pub cancels : r.cancels ≤ r.accepted
  pub trades : r.trades ≡ length r.all_trades % u64_mod

tally-Counts :
    (n : ℕ) (s : OrderStatus) (id : ℕ) (r : Run)
    → n + 1 < u64_mod
    → Counts n r
    → Counts (n + 1) (tally s id r)
tally-Counts n pending id r h c = record {
  orders = omega (arith, c.orders);
  cancels = omega (arith, c.orders, c.cancels);
  trades = c.trades;
}
tally-Counts n accepted id r h c = record {
  orders = omega (arith, c.orders);
  cancels = omega (arith, c.orders, c.cancels);
  trades = c.trades;
}
tally-Counts n partially_filled id r h c = record {
  orders = omega (arith, c.orders);
  cancels = omega (arith, c.orders, c.cancels);
  trades = c.trades;
}
tally-Counts n filled id r h c = record {
  orders = omega (arith, c.orders);
  cancels = omega (arith, c.orders, c.cancels);
  trades = c.trades;
}
tally-Counts n cancelled id r h c = record {
  orders = omega (arith, c.orders);
  cancels = omega (arith, c.orders, c.cancels);
  trades = c.trades;
}
tally-Counts n rejected id r h c = record {
  orders = omega (arith, c.orders);
  cancels = omega (arith, c.orders, c.cancels);
  trades = c.trades;
}

run_order-Counts :
    (clock : ℕ → ℕ → ℕ) (n : ℕ) (r : Run) (o : Order)
    → n + 1 < u64_mod
    → Counts n r
    → Counts (n + 1) (run_order clock r o)
unfolding run_order
run_order-Counts clock n r o h c =
    let s = submit_order (clock r.engine.orders_processed) r.engine o in
    tally-Counts n s.result.status o.id _ h (record {
      orders = c.orders;
      cancels = c.cancels;
      trades = omega (arith, c.trades, length-append r.all_trades s.result.trades);
    })

run_orders-Counts :
    (clock : ℕ → ℕ → ℕ) (n : ℕ) (r : Run) (os : List Order)
    → n + length os < u64_mod
    → Counts n r
    → Counts (n + length os) (run_orders clock r os)
unfolding run_orders
run_orders-Counts clock n r [] h c = subst (λ k. Counts k r) (omega arith) c
run_orders-Counts clock n r (o ∷ os) h c =
    subst (λ k. Counts k (run_orders clock (run_order clock r o) os)) (omega arith)
      (run_orders-Counts clock (n + 1) (run_order clock r o) os (omega (arith, h))
        (run_order-Counts clock n r o (omega (arith, h)) c))

pub new_run-Counts :
    (clock : ℕ → ℕ → ℕ) (symbols : List String) (os : List Order)
    → length os < u64_mod
    → Counts (length os) (run_orders clock (new_run symbols) os)
unfolding new_run
new_run-Counts clock symbols os h =
    subst (λ k. Counts k (run_orders clock (new_run symbols) os)) (omega arith)
      (run_orders-Counts clock 0 (new_run symbols) os (omega (arith, h))
        (record { orders = omega arith; cancels = omega arith; trades = omega arith }))

-- What a run counts, of this many orders.
pub record Balanced {L : Type 0} (n : ℕ) (r : BenchmarkResult L) : Type 0 where
  pub submitted : r.orders_submitted ≡ n
  pub answered : r.orders_accepted + r.orders_rejected ≡ r.orders_submitted
  pub cancels : r.cancels_processed ≤ r.orders_accepted

-- A baseline run of fewer than 2^64 orders counts each of them once, as accepted or as rejected, and
-- the processed cancellations among the accepted.
pub run_baseline-Balanced :
    {L : Type 0} (p : ℤ → String) (i : ℕ → String) (f : ℤ → String) (latency : L) (memory : ℕ)
    (clock : ℕ → ℕ → ℕ) (cfg : BenchmarkConfig) (os : List Order)
    → length os < u64_mod
    → Balanced (length os) (run_baseline p i f latency memory clock cfg os)
unfolding run_baseline
run_baseline-Balanced p i f latency memory clock cfg os h =
    let c = new_run-Counts clock cfg.symbols os h in
    record {
      submitted = omega (arith, h);
      answered = omega (arith, h, c.orders);
      cancels = c.cancels;
    }
