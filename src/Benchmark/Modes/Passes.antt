-- ===== src/Benchmark/Modes/Passes.antt =====
-- The invariants of a benchmark pass in every mode.
use astra_exchange.Base.{
  ℕ, ◌*◌, ◌^◌, ◌<◌, ◌≤◌, ◌≡◌, refl, ◌∙◌, ◌⊎◌, inl, inr, Bool-cases, String, true, some, List, arith,
  length, All-map, u64_mod,
}
use astra_exchange.Base.Int.{ℤ}
use astra_exchange.Types.{Order}
use astra_exchange.MemoryPool.Defs.{u32_mod}
use astra_exchange.Floating.{Floating, Randomness, InRange}
use astra_exchange.Generator.Loop.{generate}
use astra_exchange.Generator.Stream.{Entry, Stream, done, more}
use astra_exchange.Generator.Whole.{generate-Stream}
use astra_exchange.Benchmark.Defs.{
  BenchmarkConfig, BenchmarkResult, BenchmarkMode, baseline, pool, pipeline,
}
use astra_exchange.Benchmark.Passing.{submitted_qty, run_baseline-passes}
use astra_exchange.Benchmark.PoolRun.Same.{Fresh}
use astra_exchange.Benchmark.PoolRun.Defs.{books_hold, RunEnd, returned, undefined}
use astra_exchange.MatchingEngine.Defs.{MatchingEngine}
use astra_exchange.Benchmark.Pipeline.Defs.{ring_slots}
use astra_exchange.Benchmark.Modes.Defs.{generator_config, Runs}
use astra_exchange.Benchmark.Modes.Agree.{
  Stream-Fresh, ends_in, last_engine, baseline_marked, Runs-agrees,
}

Stream-submitted_qty :
    {live live' : List Entry} {k k' i : ℕ} (os : List Order)
    → Stream live k i os live' k'
    → submitted_qty os ≤ 500 * length os
Stream-submitted_qty _ done = omega arith
Stream-submitted_qty _ (more o os m s r) = omega (arith, m.small, Stream-submitted_qty os r)

-- Where nothing is undefined, the end of a run is its result.
ends_in-cases :
    {L : Type 0} (m : BenchmarkMode) (e : MatchingEngine) (r : BenchmarkResult L)
    → (ends_in m e r ≡ returned r)
      ⊎ ((ends_in m e r ≡ undefined) × (m ≡ pool) × (books_hold e.books ≡ true))
ends_in-cases baseline e r = inl refl
ends_in-cases pipeline e r = inl refl
ends_in-cases pool e r = elim (Bool-cases (books_hold e.books)) [
  | inl y ↦ inr (rw y refl, refl, y)
  | inr n ↦ inl (rw n refl)
]

-- The run returns, and its invariants hold; or it is one in the pool's mode that leaves an order in a book.
abbrev pub EndsWell : {L : Type 0} → (ℕ → ℕ → ℕ) → BenchmarkConfig → List Order → RunEnd L → Type 0
EndsWell {L} clock cfg orders x =
    ((r : BenchmarkResult L) × (x ≡ returned r) × (r.invariants.passed ≡ true))
    ⊎ ((x ≡ undefined)
        × (cfg.mode ≡ pool)
        × (books_hold (last_engine clock cfg orders).books ≡ true))

module _ (price_string : ℤ → String) (id_string : ℕ → String) (fixed_string : ℤ → String)
    {L : Type 0} (latency : L) (memory : ℕ) (clock : ℕ → ℕ → ℕ) (cfg : BenchmarkConfig) where
  -- A benchmark over the generated orders returns and reports that its invariants hold, in any order of the
  -- pool's and the threads' steps, unless it is in the pool's mode and an order rests in a book at its end, where
  -- its behaviour is undefined. There is at least one symbol, there are fewer than 2^32 orders, the ring's
  -- capacity is at most 2^63, and the random draws are within their bounds.
  pub Runs-passes :
      {D R : Type 0} (fl : Floating D) (rn : Randomness D R)
      → InRange rn
      → 0 < length cfg.symbols
      → length cfg.symbols < u64_mod
      → cfg.order_count < u32_mod
      → ring_slots cfg ≤ 2 ^ 63
      → (orders : List Order) × (generate fl rn (generator_config fl cfg) ≡ some orders)
        × ((x : RunEnd L)
            → Runs price_string id_string fixed_string latency memory clock cfg orders x
            → EndsWell clock cfg orders x)
  unfolding generator_config
  Runs-passes fl rn fair z w c b =
      let (orders, live, k, g, n, s) =
        generate-Stream fl rn fair (generator_config fl cfg) z w (omega (arith, c)) in
      let l : length orders < u32_mod = omega (arith, n, c) in
      let a = Stream-Fresh orders s in
      let e = last_engine clock cfg orders in
      let r = baseline_marked price_string id_string fixed_string latency memory clock cfg orders in
      let p =
        run_baseline-passes price_string id_string fixed_string latency memory clock cfg orders
          (All-map Fresh (λ o. o.filled_qty ≡ 0) orders (λ o f. f.unfilled) a)
          (omega (arith, l, Stream-submitted_qty orders s)) in
      (
        orders,
        g,
        λ x h.
            let q =
              Runs-agrees price_string id_string fixed_string latency memory clock cfg orders x l b
                a h in
            elim (ends_in-cases cfg.mode e r) [
              | inl f ↦ inl (r, q ∙ f, p)
              | inr (f, m, y) ↦ inr (q ∙ f, m, y)
            ],
      )
