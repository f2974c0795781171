-- ===== src/Benchmark/PoolRun/Same.antt =====
-- The pool run never runs out of slots, and its result is that of the baseline run.
use mathlib.Core.Path.{subst}
use astra_exchange.Base.{
  ℕ, ◌+◌, ◌<◌, ◌≡◌, refl, ap, ◌∙◌, sym, inl, inr, none, some, List, [], ◌∷◌, arith, length, map,
  String, All, sum_by, get_elem?, length-set, add64,
}
use astra_exchange.Base.Int.{ℤ}
use astra_exchange.Types.{Order, pending, new_order}
use astra_exchange.MemoryPool.Defs.{MemoryPool, u32_mod, new_pool, alloc, dealloc}
use astra_exchange.MemoryPool.Valid.{
  PoolValid, occupied, occupied-set, alloc-Allocates, dealloc-PoolValid, new_pool-PoolValid,
}
use astra_exchange.Benchmark.Defs.{BenchmarkConfig, new_run, run_order, run_orders, run_baseline}
use astra_exchange.Benchmark.PoolRun.Defs.{
  copied, PoolRun, new_pool_run, PoolStep, submitting, returning, PoolReach, here, step,
  pool_result,
}

-- An order as it is constructed: nothing of it is filled.
pub record Fresh (o : Order) : Type 0 where
  pub unfilled : o.filled_qty ≡ 0
  pub unanswered : o.status ≡ pending

abbrev copied_all : List Order → List Order
copied_all os = map copied os

copied-Fresh : (o : Order) → Fresh o → copied o ≡ o
unfolding new_order
copied-Fresh o f =
    ap (λ n. record o { filled_qty = n; status = pending }) (sym f.unfilled)
    ∙ ap (λ a. record o { status = a }) (sym f.unanswered)

copied_all-Fresh : (os : List Order) → All Fresh os → copied_all os ≡ os
copied_all-Fresh [] a = refl
copied_all-Fresh (o ∷ os) a =
    ap (λ p. p ∷ copied_all os) (copied-Fresh o a.0) ∙ ap (λ l. o ∷ l) (copied_all-Fresh os a.1)

record RunInv (clock : ℕ → ℕ → ℕ) (cfg : BenchmarkConfig) (orders : List Order) (p : PoolRun)
    : Type 0 where
  valid : PoolValid p.pool
  roomy : p.pool.allocated + length p.todo < p.pool.capacity
  replayed :
      run_orders clock p.run (copied_all p.todo)
      ≡ run_orders clock (new_run cfg.symbols) (copied_all orders)

-- A call of `alloc` that succeeds adds one object.
alloc-adds :
    (o : Order) (p : MemoryPool Order) (i : ℕ) (q : MemoryPool Order)
    → PoolValid p
    → alloc o p ≡ some (i, q)
    → PoolValid q × (q.allocated ≡ p.allocated + 1) × (q.capacity ≡ p.capacity)
alloc-adds o p i q v e = elim (alloc-Allocates o p v) [
  | inl (n, f) ↦ absurd cc
  | inr (j, r, f, h, s, w) ↦
      let g : r ≡ q = cc in
      let k = occupied-set p.slots j none (some o) h in
      subst (λ t. PoolValid t × (t.allocated ≡ p.allocated + 1) × (t.capacity ≡ p.capacity)) g
        (
          w,
          omega (arith, w.counted, v.counted, ap (sum_by occupied) s, k.0),
          sym w.storage ∙ ap length s ∙ length-set p.slots j (some o) ∙ v.storage,
        )
]

dealloc-drops :
    (i : ℕ) (o : Order) (p : MemoryPool Order)
    → PoolValid p
    → get_elem? p.slots i ≡ some (some o)
    → (dealloc (some i) p).allocated < p.allocated
unfolding dealloc
dealloc-drops i o p v e =
    let w = (dealloc-PoolValid i o p v e).0 in
    omega (arith, v.counted, w.counted, (occupied-set p.slots i (some o) none e).0)

module _ (clock : ℕ → ℕ → ℕ) (cfg : BenchmarkConfig) (orders : List Order) where
  new_pool_run-RunInv : length orders < u32_mod → RunInv clock cfg orders (new_pool_run cfg orders)
  unfolding new_pool_run new_pool
  new_pool_run-RunInv l =
      let e : add64 (length orders) 1 ≡ length orders + 1 = omega (arith, l) in
      record {
        valid = new_pool-PoolValid (add64 (length orders) 1) (omega (arith, e, l));
        roomy = omega (arith, e);
        replayed = refl;
      }

  PoolStep-RunInv :
      {p q : PoolRun} → RunInv clock cfg orders p → PoolStep clock p q → RunInv clock cfg orders q
  unfolding run_orders dealloc
  PoolStep-RunInv {p} i (submitting o todo j q e a) =
      let (v, c, d) = alloc-adds (copied o) p.pool j q i.valid a in
      record {
        valid = v;
        roomy = omega (arith, i.roomy, c, d, ap length e);
        replayed = sym (ap (λ l. run_orders clock p.run (copied_all l)) e) ∙ i.replayed;
      }
  PoolStep-RunInv {p} i (returning j o e) = record {
    valid = (dealloc-PoolValid j o p.pool i.valid e).0;
    roomy = omega (arith, i.roomy, dealloc-drops j o p.pool i.valid e);
    replayed = i.replayed;
  }

  PoolReach-RunInv :
      {p q : PoolRun} → RunInv clock cfg orders p → PoolReach clock p q → RunInv clock cfg orders q
  PoolReach-RunInv i here = i
  PoolReach-RunInv i (step r m) = PoolStep-RunInv (PoolReach-RunInv i r) m

  -- The pool of `orders.size() + 1` slots always has a slot for the next order, in whatever order the engine
  -- drops its orders; there are fewer than 2^32 orders.
  pub new_pool_run-allocates :
      (p : PoolRun) (o : Order) (todo : List Order)
      → length orders < u32_mod
      → PoolReach clock (new_pool_run cfg orders) p
      → p.todo ≡ o ∷ todo
      → (i : ℕ) × (q : MemoryPool Order) × (alloc (copied o) p.pool ≡ some (i, q))
        × (get_elem? p.pool.slots i ≡ some none)
        × PoolStep clock p
            (record { pool = q; run = run_order clock p.run (copied o); todo = todo })
  new_pool_run-allocates p o todo l h e =
      let i = PoolReach-RunInv (new_pool_run-RunInv l) h in
      elim (alloc-Allocates (copied o) p.pool i.valid) [
        | inl (n, f) ↦ absurd (omega (arith, f, i.roomy))
        | inr (j, q, a, b, c, d) ↦ (j, q, a, b, submitting o todo j q e a)
      ]

  -- A pool run that has submitted every order is where the loop of the baseline run is.
  pub PoolReach-run_orders :
      (p : PoolRun)
      → length orders < u32_mod
      → All Fresh orders
      → PoolReach clock (new_pool_run cfg orders) p
      → p.todo ≡ []
      → p.run ≡ run_orders clock (new_run cfg.symbols) orders
  unfolding run_orders
  PoolReach-run_orders p l a h e =
      let i = PoolReach-RunInv (new_pool_run-RunInv l) h in
      sym (ap (λ t. run_orders clock p.run (copied_all t)) e)
      ∙ i.replayed
      ∙ ap (λ t. run_orders clock (new_run cfg.symbols) t) (copied_all-Fresh orders a)

  -- A pool run that has submitted every order has computed the result of the baseline run over them, in whatever order
  -- the engine drops its orders; there are fewer than 2^32 orders, and nothing of them is filled yet.
  pub pool_result-run_baseline :
      {L : Type 0} (price_string : ℤ → String) (id_string : ℕ → String) (fixed_string : ℤ → String)
      (latency : L) (memory : ℕ) (p : PoolRun)
      → length orders < u32_mod
      → All Fresh orders
      → PoolReach clock (new_pool_run cfg orders) p
      → p.todo ≡ []
      → pool_result price_string id_string fixed_string latency memory cfg orders p.run
        ≡ run_baseline price_string id_string fixed_string latency memory clock cfg orders
  unfolding pool_result run_baseline
  pool_result-run_baseline ps is fs latency memory p l a h e =
      ap (λ r. pool_result ps is fs latency memory cfg orders r) (PoolReach-run_orders p l a h e)
