-- ===== src/Benchmark/Modes/Defs.antt =====
-- `run` in each of its modes. What a run may give is a data type, since the pool's and the threads' steps
-- come in more than one order, and a pool run may end in undefined behaviour. Writing the CSV file changes
-- nothing of the result.
use astra_exchange.Base.{ℕ, ◌≡◌, String, true, List, []}
use astra_exchange.Base.Int.{ℤ}
use astra_exchange.Types.{Order}
use astra_exchange.Floating.{Floating}
use astra_exchange.Generator.Defs.{GeneratorConfig}
use astra_exchange.Benchmark.Defs.{
  BenchmarkConfig, BenchmarkResult, baseline, pool, pipeline, run_baseline,
}
use astra_exchange.Benchmark.PoolRun.Defs.{
  PoolRun, new_pool_run, PoolReach, pool_result, RunEnd, returned, leave_scope,
}
use astra_exchange.Benchmark.Pipeline.Defs.{Pipeline, new_pipeline, PipelineReach, pipeline_result}

-- The count, the symbols and the seed are the benchmark's, the rest are the defaults.
unfoldable pub generator_config : {D : Type 0} → Floating D → BenchmarkConfig → GeneratorConfig D
generator_config fl cfg = record {
  count = cfg.order_count;
  symbols = cfg.symbols;
  seed = cfg.seed;
  frac_limit = fl.literal "0.55";
  frac_market = fl.literal "0.20";
  frac_cancel = fl.literal "0.15";
  frac_ioc = fl.literal "0.03";
  frac_fok = fl.literal "0.02";
  frac_invalid = fl.literal "0.05";
}

module _ (price_string : ℤ → String) (id_string : ℕ → String) (fixed_string : ℤ → String)
    {L : Type 0} (latency : L) (memory : ℕ) (clock : ℕ → ℕ → ℕ) (cfg : BenchmarkConfig) where
  -- The result is marked with the mode after the run.
  abbrev pub marked : BenchmarkResult L → BenchmarkResult L
  marked r = record r { mode = cfg.mode }

  -- The ways that `run` may end for these orders.
  pub data Runs (orders : List Order) : RunEnd L → Type 0 where
    in_baseline :
        cfg.mode ≡ baseline
        → Runs orders (
            returned (
              marked
                (run_baseline price_string id_string fixed_string latency memory clock cfg orders)))
    in_pool :
        (p : PoolRun)
        → cfg.mode ≡ pool
        → PoolReach clock (new_pool_run cfg orders) p
        → p.todo ≡ []
        → Runs orders (
            leave_scope p.run.engine (
              marked
                (pool_result price_string id_string fixed_string latency memory cfg orders p.run)))
    in_pipeline :
        (p : Pipeline)
        → cfg.mode ≡ pipeline
        → PipelineReach clock (new_pipeline cfg orders) p
        → p.finished ≡ true
        → Runs orders (
            returned (
              marked (
                pipeline_result price_string id_string fixed_string latency memory cfg orders
                  p.run)))
