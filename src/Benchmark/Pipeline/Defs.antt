-- ===== src/Benchmark/Pipeline/Defs.antt =====
-- The pipeline's two threads. The producer pushes the orders and then the null pointer, the sentinel; the
-- consumer pops, submits each order, and ends at the sentinel. What it does with an order touches nothing
-- that the producer sees, and is one step.
use astra_exchange.Base.{
  ℕ, ◌^◌, ◌%◌, ◌≡◌, Bool, true, false, Option, none, some, List, [], ◌∷◌, ◌++◌, String, length,
  u64_mod, ltb, if◌then◌else◌,
}
use astra_exchange.Base.Int.{ℤ}
use astra_exchange.Types.{Order}
use astra_exchange.Spsc.Defs.{new_ring}
use astra_exchange.Spsc.Threads.Defs.{Threads, Produces, Consumes, started}
use astra_exchange.Benchmark.Defs.{
  BenchmarkConfig, BenchmarkResult, baseline, Run, new_run, run_order, final_report,
}

-- An item of the ring: `none` is the null pointer.
abbrev pub Item : Type 0
Item = Option Order

abbrev pub items_of : List Order → List Item
items_of [] = none ∷ []
items_of (o ∷ os) = some o ∷ items_of os

-- `seen` are the items that the consumer has dealt with, `finished` says that it has left its loop.
pub record Pipeline : Type 0 where
  pub threads : Threads Item
  pub seen : List Item
  pub run : Run
  pub finished : Bool

unfoldable pub ring_slots : BenchmarkConfig → ℕ
ring_slots cfg = if ltb 0 cfg.pipeline_capacity then cfg.pipeline_capacity else 2 ^ 14

unfoldable pub new_pipeline : BenchmarkConfig → List Order → Pipeline
new_pipeline cfg orders = record {
  threads = started (new_ring (ring_slots cfg)) (items_of orders);
  seen = [];
  run = new_run cfg.symbols;
  finished = false;
}

-- The body of the consumer's loop after a `pop` that returned an item.
abbrev pub handle : (ℕ → ℕ → ℕ) → Item → Run → Run × Bool
handle clock none r = (r, true)
handle clock (some o) r = (run_order clock r o, false)

pub data PipelineStep (clock : ℕ → ℕ → ℕ) (p : Pipeline) : Pipeline → Type 0 where
  producing :
      (t : Threads Item) → Produces p.threads t → PipelineStep clock p (record p { threads = t })
  consuming :
      (t : Threads Item)
      → p.finished ≡ false
      → p.threads.got ≡ p.seen
      → Consumes p.threads t
      → PipelineStep clock p (record p { threads = t })
  handling :
      (x : Item)
      → p.finished ≡ false
      → p.threads.got ≡ p.seen ++ x ∷ []
      → PipelineStep clock p (record p {
        seen = p.seen ++ x ∷ [];
        run = (handle clock x p.run).0;
        finished = (handle clock x p.run).1;
      })

pub data PipelineReach (clock : ℕ → ℕ → ℕ) : Pipeline → Pipeline → Type 0 where
  here : {p : Pipeline} → PipelineReach clock p p
  step :
      {p q r : Pipeline}
      → PipelineStep clock p q
      → PipelineReach clock q r
      → PipelineReach clock p r

-- The result after `consumer.join()`.
unfoldable pub pipeline_result :
    (price_string : ℤ → String) (id_string : ℕ → String) (fixed_string : ℤ → String) {L : Type 0}
    → L
    → ℕ
    → BenchmarkConfig
    → List Order
    → Run
    → BenchmarkResult L
pipeline_result price_string id_string fixed_string latency memory cfg orders r = record {
  orders_submitted = length orders % u64_mod;
  orders_accepted = r.accepted;
  orders_rejected = r.refused;
  cancels_processed = r.cancels;
  trades_generated = r.trades;
  latency = latency;
  memory_kb = memory;
  invariants = final_report price_string id_string fixed_string cfg r;
  mode = baseline;
}
