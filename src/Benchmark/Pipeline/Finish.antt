-- ===== src/Benchmark/Pipeline/Finish.antt =====
-- What the pipeline gives at its end, and that its end stays in reach.
use mathlib.Core.List.{append_assoc}
use astra_exchange.Base.{
  ℕ, zero, suc, ◌+◌, ◌-◌, ◌*◌, ◌^◌, ◌<◌, ◌≤◌, ◌≡◌, refl, ap, ◌∙◌, sym, ◌⊎◌, inl, inr, Bool, true,
  false, List, [], ◌∷◌, ◌++◌, arith, length, length-append, String, Bool-cases,
}
use astra_exchange.Base.Int.{ℤ}
use astra_exchange.Types.{Order}
use astra_exchange.Spsc.New.{new_ring-Models}
use astra_exchange.Spsc.Threads.Defs.{produces, consumes}
use astra_exchange.Spsc.Threads.Inv.{taken_of, flying}
use astra_exchange.Spsc.Threads.Progress.{left, Advances, advance}
use astra_exchange.Benchmark.Defs.{
  BenchmarkConfig, Run, new_run, run_order, run_orders, run_baseline,
}
use astra_exchange.Benchmark.Pipeline.Defs.{
  Item, items_of, Pipeline, new_pipeline, ring_slots, handle, PipelineStep, producing, consuming,
  handling, PipelineReach, here, step, pipeline_result,
}
use astra_exchange.Benchmark.Pipeline.Inv.{
  replay, Follows, PInv, Produces-got, Consumes-got, new_pipeline-PInv, PipelineStep-PInv,
  PipelineReach-PInv,
}

uncons {ℓ} : {A : Type ℓ} {x y : A} {xs ys : List A} → x ∷ xs ≡ y ∷ ys → (x ≡ y) × (xs ≡ ys)
uncons e = (cc, cc)

-- A replay that has ended is that of every order.
replay-run_orders :
    (clock : ℕ → ℕ → ℕ) (os : List Order) (seen rest : List Item) (r run : Run)
    → seen ++ rest ≡ items_of os
    → replay clock (r, false) seen ≡ (run, true)
    → run ≡ run_orders clock r os
unfolding run_orders
replay-run_orders clock os [] rest r run e f = absurd cc
replay-run_orders clock [] (x ∷ []) rest r run e f =
    sym (ap (λ s. s.0) f) ∙ ap (λ y. (handle clock y r).0) (uncons e).0
replay-run_orders clock [] (x ∷ y ∷ seen) rest r run e f = absurd (omega (arith, ap length e))
replay-run_orders clock (o ∷ os) (x ∷ seen) rest r run e f =
    let (a, b) = uncons e in
    replay-run_orders clock os seen rest (run_order clock r o) run b
      (ap (λ y. replay clock (handle clock y r) seen) (sym a) ∙ f)

items_of-ends :
    (clock : ℕ → ℕ → ℕ) (os : List Order) (s : Run × Bool) → (replay clock s (items_of os)).1 ≡ true
items_of-ends clock [] s = refl
items_of-ends clock (o ∷ os) s = items_of-ends clock os (run_order clock s.0 o, false)

Follows-rest :
    (got seen more all : List Item)
    → Follows got seen
    → got ++ more ≡ all
    → (rest : List Item) × (seen ++ rest ≡ all)
Follows-rest got seen more all (inl e) m = (more, ap (λ l. l ++ more) (sym e) ∙ m)
Follows-rest got seen more all (inr (x, e)) m =
    (x ∷ more, sym (append_assoc seen (x ∷ []) more) ∙ ap (λ l. l ++ more) (sym e) ∙ m)

-- The steps that are left, for the threads and for the item that is not dealt with.
abbrev remaining : ℕ → Pipeline → ℕ
remaining n p = 2 * left n p.threads + (length p.threads.got - length p.seen)

module _ (clock : ℕ → ℕ → ℕ) (cfg : BenchmarkConfig) (orders : List Order) where
  abbrev Nearer : Pipeline → Type 0
  Nearer p =
      (q : Pipeline) × PipelineStep clock p q
      × (remaining (length (items_of orders)) q < remaining (length (items_of orders)) p)

  Nearer-step :
      (p : Pipeline)
      → PInv clock cfg orders p
      → p.finished ≡ false
      → p.threads.got ≡ p.seen
      → Advances (length (items_of orders)) p.threads ⊎ (p.threads.got ≡ items_of orders)
      → Nearer p
  Nearer-step p i f e (inl (t, produces m, l)) =
      (_, producing t m, omega (arith, l, ap length (Produces-got m)))
  Nearer-step p i f e (inl (t, consumes m, l)) = elim (Consumes-got m) [
    | inl g ↦ (_, consuming t f e m, omega (arith, l, ap length g))
    | inr (x, g) ↦ (
      _,
      consuming t f e m,
      omega (arith, l, ap length g, length-append p.threads.got (x ∷ []), ap length e),
    )
  ]
  Nearer-step p i f e (inr a) =
      let s : replay clock (new_run cfg.symbols, false) (items_of orders) ≡ (p.run, p.finished) =
        ap (λ l. replay clock (new_run cfg.symbols, false) l) (sym a ∙ e) ∙ i.replayed in
      let z = sym (items_of-ends clock orders (new_run cfg.symbols, false)) ∙ ap (λ y. y.1) s ∙ f in
      absurd cc

  nearer : (p : Pipeline) → PInv clock cfg orders p → p.finished ≡ false → Nearer p
  nearer p i f = elim i.follows [
    | inl e ↦ Nearer-step p i f e (advance (items_of orders) p.threads i.threads)
    | inr (x, e) ↦ (_, handling x f e, omega (arith, ap length e, length-append p.seen (x ∷ [])))
  ]

  finishes :
      (rounds : ℕ) (p : Pipeline)
      → PInv clock cfg orders p
      → remaining (length (items_of orders)) p < rounds
      → (q : Pipeline) × PipelineReach clock p q × (q.finished ≡ true)
  finishes zero p i l = absurd (omega (arith, l))
  finishes (suc rounds) p i l = elim (Bool-cases p.finished) [
    | inl y ↦ (p, here, y)
    | inr n ↦
        let (q, m, k) = nearer p i n in
        let (r, h, d) =
          finishes rounds q (PipelineStep-PInv clock cfg orders i m) (omega (arith, l, k)) in
        (r, step m h, d)
  ]

  -- In whatever order the steps of the two threads come, a pipeline that has finished has the result of the
  -- baseline run over the same orders; the capacity of the ring is at most 2^63.
  pub pipeline_result-run_baseline :
      {L : Type 0} (price_string : ℤ → String) (id_string : ℕ → String) (fixed_string : ℤ → String)
      (latency : L) (memory : ℕ) (p : Pipeline)
      → ring_slots cfg ≤ 2 ^ 63
      → PipelineReach clock (new_pipeline cfg orders) p
      → p.finished ≡ true
      → pipeline_result price_string id_string fixed_string latency memory cfg orders p.run
        ≡ run_baseline price_string id_string fixed_string latency memory clock cfg orders
  unfolding pipeline_result run_baseline
  pipeline_result-run_baseline ps is fs latency memory p b h f =
      let m = (new_ring-Models (ring_slots cfg) b).0 in
      let i = PipelineReach-PInv clock cfg orders (new_pipeline-PInv clock cfg orders m) h in
      let t = p.threads in
      let j = i.threads in
      let (rest, e) =
        Follows-rest t.got p.seen (taken_of t.consumer ++ (j.body ++ (flying t.producer ++ t.todo)))
          (items_of orders) i.follows j.order in
      let s = i.replayed ∙ ap (λ y. (p.run, y)) f in
      ap (λ r. pipeline_result ps is fs latency memory cfg orders r)
        (replay-run_orders clock orders p.seen rest (new_run cfg.symbols) p.run e s)

  -- From every state that the pipeline reaches, some order of the steps leads to its end, so that the two
  -- threads never block each other for good; the capacity of the ring is at most 2^63.
  pub new_pipeline-finishes :
      (p : Pipeline)
      → ring_slots cfg ≤ 2 ^ 63
      → PipelineReach clock (new_pipeline cfg orders) p
      → (q : Pipeline) × PipelineReach clock p q × (q.finished ≡ true)
  new_pipeline-finishes p b h =
      let m = (new_ring-Models (ring_slots cfg) b).0 in
      let i = PipelineReach-PInv clock cfg orders (new_pipeline-PInv clock cfg orders m) h in
      finishes (suc (remaining (length (items_of orders)) p)) p i (omega arith)
