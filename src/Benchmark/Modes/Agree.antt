-- ===== src/Benchmark/Modes/Agree.antt =====
-- The modes of the benchmark give one result.
use astra_exchange.Base.{
  ℕ, ◌^◌, ◌<◌, ◌≤◌, ◌≡◌, refl, ap, sym, ◌∙◌, String, some, List, [], ◌∷◌, arith, if◌then◌else◌,
  length, All, u64_mod,
}
use astra_exchange.Base.Int.{ℤ}
use astra_exchange.Types.{Order}
use astra_exchange.MatchingEngine.Defs.{MatchingEngine}
use astra_exchange.MemoryPool.Defs.{u32_mod}
use astra_exchange.Floating.{Floating, Randomness, InRange}
use astra_exchange.Generator.Loop.{generate}
use astra_exchange.Generator.Stream.{Entry, Stream, done, more}
use astra_exchange.Generator.Whole.{generate-Stream}
use astra_exchange.Benchmark.Defs.{
  BenchmarkConfig, BenchmarkResult, BenchmarkMode, baseline, pool, pipeline, run_baseline, new_run,
  run_order, run_orders,
}
use astra_exchange.Benchmark.PoolRun.Defs.{
  copied, PoolRun, new_pool_run, PoolReach, here, step, RunEnd, returned, undefined, leave_scope,
  books_hold,
}
use astra_exchange.Benchmark.PoolRun.Same.{
  Fresh, new_pool_run-allocates, PoolReach-run_orders, pool_result-run_baseline,
}
use astra_exchange.Benchmark.Pipeline.Defs.{ring_slots, new_pipeline, here as at_start}
use astra_exchange.Benchmark.Pipeline.Finish.{pipeline_result-run_baseline, new_pipeline-finishes}
use astra_exchange.Benchmark.Modes.Defs.{generator_config, Runs, in_baseline, in_pool, in_pipeline}

pub Stream-Fresh :
    {live live' : List Entry} {k k' i : ℕ} (os : List Order)
    → Stream live k i os live' k'
    → All Fresh os
Stream-Fresh _ done = tt
Stream-Fresh _ (more o os m s r) =
    (record { unfilled = m.unfilled; unanswered = m.unanswered }, Stream-Fresh os r)

module _ (clock : ℕ → ℕ → ℕ) (cfg : BenchmarkConfig) (orders : List Order) where
  -- From every state of the pool run, its end can be reached.
  pool-ends :
      (todo : List Order) (p : PoolRun)
      → length orders < u32_mod
      → PoolReach clock (new_pool_run cfg orders) p
      → p.todo ≡ todo
      → (q : PoolRun) × PoolReach clock (new_pool_run cfg orders) q × (q.todo ≡ [])
  pool-ends [] p l r e = (p, r, e)
  pool-ends (o ∷ todo) p l r e =
      let (i, q, a, b, m) = new_pool_run-allocates clock cfg orders p o todo l r e in
      pool-ends todo (record { pool = q; run = run_order clock p.run (copied o); todo = todo }) l
        (step r m) refl

-- The engine that the baseline run leaves.
abbrev pub last_engine : (ℕ → ℕ → ℕ) → BenchmarkConfig → List Order → MatchingEngine
last_engine clock cfg orders = (run_orders clock (new_run cfg.symbols) orders).engine

-- The end of a run in a mode, with this engine and this result: a run in a pool must not leave an order in a
-- book.
abbrev pub ends_in : {L : Type 0} → BenchmarkMode → MatchingEngine → BenchmarkResult L → RunEnd L
ends_in pool e r = if books_hold e.books then undefined else returned r
ends_in baseline e r = returned r
ends_in pipeline e r = returned r

module _ (price_string : ℤ → String) (id_string : ℕ → String) (fixed_string : ℤ → String)
    {L : Type 0} (latency : L) (memory : ℕ) (clock : ℕ → ℕ → ℕ) (cfg : BenchmarkConfig) where
  -- The result of the baseline run, with the mode.
  abbrev pub baseline_marked : List Order → BenchmarkResult L
  baseline_marked orders =
      record (run_baseline price_string id_string fixed_string latency memory clock cfg orders) {
        mode = cfg.mode;
      }

  Runs-some :
      (orders : List Order) (m : BenchmarkMode)
      → cfg.mode ≡ m
      → length orders < u32_mod
      → ring_slots cfg ≤ 2 ^ 63
      → (e : RunEnd L) × Runs price_string id_string fixed_string latency memory clock cfg orders e
  Runs-some orders baseline e l b = (_, in_baseline e)
  Runs-some orders pool e l b =
      let (p, r, d) =
        pool-ends clock cfg orders (new_pool_run cfg orders).todo (new_pool_run cfg orders) l here
          refl in
      (_, in_pool p e r d)
  Runs-some orders pipeline e l b =
      let (p, r, d) = new_pipeline-finishes clock cfg orders (new_pipeline cfg orders) b at_start in
      (_, in_pipeline p e r d)

  pub Runs-agrees :
      (orders : List Order) (x : RunEnd L)
      → length orders < u32_mod
      → ring_slots cfg ≤ 2 ^ 63
      → All Fresh orders
      → Runs price_string id_string fixed_string latency memory clock cfg orders x
      → x ≡ ends_in cfg.mode (last_engine clock cfg orders) (baseline_marked orders)
  unfolding leave_scope
  Runs-agrees orders x l b a (in_baseline e) =
      sym (ap (λ m. ends_in m (last_engine clock cfg orders) (baseline_marked orders)) e)
  Runs-agrees orders x l b a (in_pool p e h d) =
      ap (λ r. leave_scope p.run.engine (record r { mode = cfg.mode }))
        (pool_result-run_baseline clock cfg orders price_string id_string fixed_string latency
          memory p l a h d)
      ∙ ap (λ r. leave_scope r.engine (baseline_marked orders))
          (PoolReach-run_orders clock cfg orders p l a h d)
      ∙ sym (ap (λ m. ends_in m (last_engine clock cfg orders) (baseline_marked orders)) e)
  Runs-agrees orders x l b a (in_pipeline p e h d) =
      ap (λ r. returned (record r { mode = cfg.mode }))
        (pipeline_result-run_baseline clock cfg orders price_string id_string fixed_string latency
          memory p b h d)
      ∙ sym (ap (λ m. ends_in m (last_engine clock cfg orders) (baseline_marked orders)) e)

  -- A benchmark over the generated orders has an end in any mode, and whatever the order in which the pool gets
  -- its objects back and the two threads take their steps, it is one and the same: the result of the baseline run
  -- over these orders, marked with the mode, or, in the pool's mode and where the baseline run leaves an order
  -- in a book, undefined behaviour. There is at least one symbol, there are fewer than 2^32 orders, the
  -- ring's capacity is at most 2^63, and the random draws are within their bounds.
  pub Runs-run_baseline :
      {D R : Type 0} (fl : Floating D) (rn : Randomness D R)
      → InRange rn
      → 0 < length cfg.symbols
      → length cfg.symbols < u64_mod
      → cfg.order_count < u32_mod
      → ring_slots cfg ≤ 2 ^ 63
      → (orders : List Order) × (generate fl rn (generator_config fl cfg) ≡ some orders)
        × ((x : RunEnd L) × Runs price_string id_string fixed_string latency memory clock cfg orders
              x)
        × ((x : RunEnd L)
            → Runs price_string id_string fixed_string latency memory clock cfg orders x
            → x ≡ ends_in cfg.mode (last_engine clock cfg orders) (baseline_marked orders))
  unfolding generator_config
  Runs-run_baseline fl rn fair z w c b =
      let (orders, live, k, g, n, s) =
        generate-Stream fl rn fair (generator_config fl cfg) z w (omega (arith, c)) in
      let l : length orders < u32_mod = omega (arith, n, c) in
      (
        orders,
        g,
        Runs-some orders cfg.mode refl l b,
        λ x h. Runs-agrees orders x l b (Stream-Fresh orders s) h,
      )
