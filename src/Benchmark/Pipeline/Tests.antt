-- ===== src/Benchmark/Pipeline/Tests.antt =====
-- The pipeline over no order, on a ring of two slots: the sentinel alone goes through.
use astra_exchange.Base.{ℕ, ◌≡◌, refl, String, true, none, [], ◌∷◌, arith}
use astra_exchange.Base.Loop.{while}
use astra_exchange.Spsc.Defs.{next_pow2, new_ring}
use astra_exchange.Spsc.Threads.Defs.{waiting, polling, clear, place, publish, find, take, release}
use astra_exchange.Benchmark.Defs.{BenchmarkConfig, pipeline, run_baseline}
use astra_exchange.Benchmark.Pipeline.Defs.{
  Pipeline, new_pipeline, ring_slots, producing, consuming, handling, PipelineReach, here, step,
  pipeline_result,
}
use astra_exchange.Benchmark.Pipeline.Finish.{pipeline_result-run_baseline, new_pipeline-finishes}

abbrev text : {A : Type 0} → A → String
text x = "text"

abbrev clock : ℕ → ℕ → ℕ
clock call k = k

abbrev config : BenchmarkConfig
config = record {
  order_count = 0;
  symbols = "AAPL" ∷ [];
  seed = 42;
  csv_output = "";
  verify_invariants = true;
  mode = pipeline;
  pipeline_capacity = 2;
}

ended : (p : Pipeline) × PipelineReach clock (new_pipeline config []) p
unfolding new_pipeline ring_slots new_ring next_pow2 while
ended = (
  _,
  step (producing _ (clear _ polling none [] [] (λ e. absurd (omega (arith, e))))) (
      step (producing _ (place _ polling none [] [])) (
        step (producing _ (publish _ polling none [] [])) (
          step (consuming _ refl refl (find _ waiting [] [] (λ e. absurd (omega (arith, e))))) (
            step (consuming _ refl refl (take _ waiting none [] [] refl)) (
              step (consuming _ refl refl (release _ waiting none [] []))
                (step (handling none refl refl) here)))))),
)

pipeline_result-run_baseline_example :
    pipeline_result text text text {L = ℕ} 0 0 config [] ended.0.run
    ≡ run_baseline text text text {L = ℕ} 0 0 clock config []
unfolding ended ring_slots
pipeline_result-run_baseline_example =
    pipeline_result-run_baseline clock config [] {L = ℕ} text text text 0 0 ended.0 (omega arith)
      ended.1 refl

new_pipeline-finishes_example : (q : Pipeline) × PipelineReach clock ended.0 q × (q.finished ≡ true)
unfolding ring_slots
new_pipeline-finishes_example = new_pipeline-finishes clock config [] ended.0 (omega arith) ended.1
