-- ===== src/Benchmark/Passing.antt =====
-- The final checks of a run pass.
use astra_exchange.Base.{
  ℕ, ◌+◌, ◌<◌, ◌≡◌, refl, sym, String, true, List, [], ◌∷◌, ◌++◌, arith, All, All-append, u64_mod,
  sum_by, length, add64,
}
use mathlib.Core.Path.{subst}
use astra_exchange.Base.Int.{ℤ}
use astra_exchange.Types.{
  OrderStatus, pending, accepted, partially_filled, filled, cancelled, rejected, Order,
}
use astra_exchange.InvariantChecker.Reports.{Sound}
use astra_exchange.MatchingEngine.Defs.{MatchingEngine, new_engine, register, submit_order}
use astra_exchange.MatchingEngine.Valid.{EngineValid, submit_order-EngineValid}
use astra_exchange.MatchingEngine.Register.{new_engine-EngineValid, register-EngineValid}
use astra_exchange.MatchingEngine.Bounds.{
  Steady, Steady-HasRoom, submit_order-Leaves, register-Steady,
}
use astra_exchange.Benchmark.Defs.{
  BenchmarkConfig, Run, register_all, new_run, tally, run_order, run_orders, run_baseline,
}
use astra_exchange.Benchmark.Ids.{run_orders-Distinct}
use astra_exchange.Benchmark.Final.{final_report-passed}

-- The status of a result counts, and nothing else.
pub tally-kept :
    (s : OrderStatus) (id : ℕ) (r : Run)
    → ((tally s id r).engine ≡ r.engine) × ((tally s id r).all_trades ≡ r.all_trades)
tally-kept pending id r = (refl, refl)
tally-kept accepted id r = (refl, refl)
tally-kept partially_filled id r = (refl, refl)
tally-kept filled id r = (refl, refl)
tally-kept cancelled id r = (refl, refl)
tally-kept rejected id r = (refl, refl)

-- At most `n` units were submitted, and so far all is as the checks want it.
pub record Passing (n : ℕ) (r : Run) : Type 0 where
  pub valid : EngineValid r.engine
  pub steady : Steady n r.engine
  pub sound : All Sound r.all_trades

register_all-Steady :
    (ss : List String) (e : MatchingEngine)
    → EngineValid e
    → Steady 0 e
    → EngineValid (register_all ss e) × Steady 0 (register_all ss e)
unfolding register_all
register_all-Steady [] e v s = (v, s)
register_all-Steady (t ∷ ss) e v s =
    register_all-Steady ss (register t e) (register-EngineValid t e v) (register-Steady t e s)

pub new_run-Passing : (symbols : List String) → Passing 0 (new_run symbols)
unfolding new_run new_engine
new_run-Passing symbols =
    let (v, s) = register_all-Steady symbols new_engine new_engine-EngineValid tt in
    record { valid = v; steady = s; sound = tt }

pub run_order-Passing :
    (clock : ℕ → ℕ → ℕ) (n : ℕ) (r : Run) (o : Order)
    → o.filled_qty ≡ 0
    → n + o.quantity < u64_mod
    → Passing n r
    → Passing (n + o.quantity) (run_order clock r o)
unfolding run_order
run_order-Passing clock n r o z l p =
    let now = clock r.engine.orders_processed in
    let u = submit_order now r.engine o in
    let (e, f) = tally-kept u.result.status o.id (record r {
      engine = u.engine;
      trades = add64 r.trades (length u.result.trades);
      all_trades = r.all_trades ++ u.result.trades;
    }) in
    let (s, t) = submit_order-Leaves now n r.engine o p.valid z l p.steady in
    record {
      valid = subst EngineValid (sym e) (
          submit_order-EngineValid now r.engine o p.valid z (omega (arith, l))
            (Steady-HasRoom n r.engine o p.steady l));
      steady = subst (Steady (n + o.quantity)) (sym e) s;
      sound = subst (All Sound) (sym f) (All-append Sound r.all_trades u.result.trades p.sound t);
    }

abbrev pub submitted_qty : List Order → ℕ
submitted_qty os = sum_by (λ o. o.quantity) os

run_orders-Passing :
    (clock : ℕ → ℕ → ℕ) (n : ℕ) (r : Run) (os : List Order)
    → All (λ o. o.filled_qty ≡ 0) os
    → n + submitted_qty os < u64_mod
    → Passing n r
    → Passing (n + submitted_qty os) (run_orders clock r os)
unfolding run_orders
run_orders-Passing clock n r [] z l p = subst (λ k. Passing k r) (omega arith) p
run_orders-Passing clock n r (o ∷ os) z l p =
    subst (λ k. Passing k (run_orders clock (run_order clock r o) os)) (omega arith)
      (run_orders-Passing clock (n + o.quantity) (run_order clock r o) os z.1 (omega (arith, l))
        (run_order-Passing clock n r o z.0 (omega (arith, l)) p))

-- The invariants that a baseline run checks at its end pass, whatever the orders, where these come unfilled
-- and their quantities together fit a word.
pub run_baseline-passes :
    {L : Type 0} (p : ℤ → String) (i : ℕ → String) (f : ℤ → String) (latency : L) (memory : ℕ)
    (clock : ℕ → ℕ → ℕ) (cfg : BenchmarkConfig) (os : List Order)
    → All (λ o. o.filled_qty ≡ 0) os
    → submitted_qty os < u64_mod
    → (run_baseline p i f latency memory clock cfg os).invariants.passed ≡ true
unfolding run_baseline
run_baseline-passes p i f latency memory clock cfg os z l =
    let r = run_orders clock (new_run cfg.symbols) os in
    let q =
      run_orders-Passing clock 0 (new_run cfg.symbols) os z (omega (arith, l))
        (new_run-Passing cfg.symbols) in
    final_report-passed p i f cfg r q.valid (run_orders-Distinct p i f clock cfg.symbols os).0
      q.sound
