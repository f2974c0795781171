-- ===== src/Benchmark/PoolRun/Tests.antt =====
-- The pool run over two orders, of which the first is submitted, dropped by the engine, and then the second.
use astra_exchange.Base.{
  ℕ, ◌≡◌, refl, String, true, some, none, [], ◌∷◌, arith, get_elem?, ℕ_discrete,
}
use astra_exchange.Base.Int.{pos, ℤ_discrete}
use astra_exchange.Types.{buy, sell, limit, Order, new_order}
use astra_exchange.PriceMap
use astra_exchange.PriceLevel
use astra_exchange.PriceLevel.{empty, new_level}
use astra_exchange.Index
use astra_exchange.RiskValidator.{has_symbol, has_id, record_id, register_symbol, validate}
use astra_exchange.OrderBook.Defs.{new_book, drain_test, drain_side, rest_order}
use astra_exchange.OrderBook.Match
use astra_exchange.OrderBook.Match.{drain_for, finish_limit, match_by, match_limit, rest_in}
use astra_exchange.MatchingEngine.Defs.{
  new_engine, register, emplace_book, find_book, set_book, submit_order, submit_new, route,
  trade_in,
}
use astra_exchange.MemoryPool.Defs.{MemoryPool, new_pool, push_free, alloc, dealloc}
use astra_exchange.Benchmark.Defs.{BenchmarkConfig, pool, register_all, new_run, run_order}
use astra_exchange.Benchmark.PoolRun.Defs.{
  copied, PoolRun, new_pool_run, PoolStep, submitting, returning, PoolReach, here, step, side_holds,
  books_hold,
}
use astra_exchange.Benchmark.PoolRun.Same.{Fresh, new_pool_run-allocates}

abbrev text : {A : Type 0} → A → String
text x = "text"

abbrev clock : ℕ → ℕ → ℕ
clock call k = k

abbrev config : BenchmarkConfig
config = record {
  order_count = 2;
  symbols = "AAPL" ∷ [];
  seed = 42;
  csv_output = "";
  verify_invariants = true;
  mode = pool;
  pipeline_capacity = 0;
}

first : Order
unfolding new_order
first = new_order 1 "AAPL" sell limit (pos 100) 5 0

second : Order
unfolding new_order
second = new_order 2 "AAPL" buy limit (pos 101) 5 1

half :
    (p : PoolRun) × PoolReach clock (new_pool_run config (first ∷ second ∷ [])) p
    × (p.todo ≡ second ∷ [])
unfolding new_pool_run new_pool push_free alloc
half = (_, step here (submitting first (second ∷ []) 0 _ refl refl), refl)

ended :
    (p : PoolRun) × PoolReach clock (new_pool_run config (first ∷ second ∷ [])) p × (p.todo ≡ [])
unfolding half new_pool_run new_pool push_free alloc dealloc
ended = (
  _,
  step (step half.1 (returning 0 (copied first) refl)) (submitting second [] 0 _ refl refl),
  refl,
)

new_pool_run-allocates_example :
    (i : ℕ) × (q : MemoryPool Order) × (alloc (copied second) half.0.pool ≡ some (i, q))
    × (get_elem? half.0.pool.slots i ≡ some none)
    × PoolStep clock half.0
        (record { pool = q; run = run_order clock half.0.run (copied second); todo = [] })
new_pool_run-allocates_example =
    new_pool_run-allocates clock config (first ∷ second ∷ []) half.0 second [] (omega arith) half.1
      half.2

first-Fresh : Fresh first
unfolding first
first-Fresh = record { unfilled = refl; unanswered = refl }

second-Fresh : Fresh second
unfolding second
second-Fresh = record { unfilled = refl; unanswered = refl }

-- After the first order alone, the pool would die before an order that rests.
first_rests : books_hold (run_order clock (new_run ("AAPL" ∷ [])) first).engine.books ≡ true
unfolding books_hold side_holds new_run run_order first new_order register_all new_engine register
    emplace_book find_book set_book register_symbol new_book submit_order submit_new validate
    has_symbol has_id record_id route trade_in Match.add_order match_by match_limit drain_for
    drain_side finish_limit rest_in rest_order PriceMap.find PriceMap.emplace PriceMap.update
    new_level PriceLevel.add_order empty Index.assign Index.find drain_test ℤ_discrete ℕ_discrete
first_rests = refl
