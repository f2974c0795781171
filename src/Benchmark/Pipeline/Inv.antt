-- ===== src/Benchmark/Pipeline/Inv.antt =====
-- What holds between the steps of the pipeline: the consumer has replayed the orders that it has seen.
use mathlib.Core.Path.{subst}
use astra_exchange.Base.{
  ℕ, ◌≡◌, refl, ap, ◌∙◌, sym, ◌⊎◌, inl, inr, Bool, false, List, [], ◌∷◌, ◌++◌,
}
use astra_exchange.Types.{Order}
use astra_exchange.Spsc.Fifo.{Models}
use astra_exchange.Spsc.Defs.{new_ring}
use astra_exchange.Spsc.Threads.Defs.{
  Threads, Produces, refuse, clear, place, publish, Consumes, miss, find, take, release,
}
use astra_exchange.Spsc.Threads.Inv.{Inv, started-Inv}
use astra_exchange.Spsc.Threads.Producing.{Produces-Inv}
use astra_exchange.Spsc.Threads.Consuming.{Consumes-Inv}
use astra_exchange.Benchmark.Defs.{BenchmarkConfig, Run, new_run}
use astra_exchange.Benchmark.Pipeline.Defs.{
  Item, items_of, Pipeline, new_pipeline, ring_slots, handle, PipelineStep, producing, consuming,
  handling, PipelineReach, here, step,
}

-- The run and the end of the loop after the items in order.
abbrev pub replay : (ℕ → ℕ → ℕ) → Run × Bool → List Item → Run × Bool
replay clock s [] = s
replay clock s (x ∷ xs) = replay clock (handle clock x s.0) xs

-- Of the items that `pop` has returned, at most the last is not dealt with.
abbrev pub Follows : List Item → List Item → Type 0
Follows got seen = (got ≡ seen) ⊎ ((x : Item) × (got ≡ seen ++ x ∷ []))

pub record PInv (clock : ℕ → ℕ → ℕ) (cfg : BenchmarkConfig) (orders : List Order) (p : Pipeline)
    : Type 0 where
  pub threads : Inv (items_of orders) p.threads
  pub follows : Follows p.threads.got p.seen
  pub replayed : replay clock (new_run cfg.symbols, false) p.seen ≡ (p.run, p.finished)

replay-snoc :
    (clock : ℕ → ℕ → ℕ) (s : Run × Bool) (xs : List Item) (x : Item)
    → replay clock s (xs ++ x ∷ []) ≡ handle clock x (replay clock s xs).0
replay-snoc clock s [] x = refl
replay-snoc clock s (y ∷ xs) x = replay-snoc clock (handle clock y s.0) xs x

pub Produces-got : {s t : Threads Item} → Produces s t → t.got ≡ s.got
Produces-got (refuse r c y todo got e) = refl
Produces-got (clear r c y todo got e) = refl
Produces-got (place r c y todo got) = refl
Produces-got (publish r c y todo got) = refl

pub Consumes-got : {s t : Threads Item} → Consumes s t → Follows t.got s.got
Consumes-got (miss r p todo got e) = inl refl
Consumes-got (find r p todo got e) = inl refl
Consumes-got (take r p x todo got e) = inl refl
Consumes-got (release r p x todo got) = inr (x, refl)

module _ (clock : ℕ → ℕ → ℕ) (cfg : BenchmarkConfig) (orders : List Order) where
  pub new_pipeline-PInv :
      Models (new_ring {A = Item} (ring_slots cfg)) []
      → PInv clock cfg orders (new_pipeline cfg orders)
  unfolding new_pipeline
  new_pipeline-PInv m = record {
    threads = started-Inv (new_ring (ring_slots cfg)) (items_of orders) m;
    follows = inl refl;
    replayed = refl;
  }

  pub PipelineStep-PInv :
      {p q : Pipeline} → PInv clock cfg orders p → PipelineStep clock p q → PInv clock cfg orders q
  PipelineStep-PInv {p} i (producing t m) = record {
    threads = Produces-Inv (items_of orders) m i.threads;
    follows = subst (λ l. Follows l p.seen) (sym (Produces-got m)) i.follows;
    replayed = i.replayed;
  }
  PipelineStep-PInv {p} i (consuming t f e m) = record {
    threads = Consumes-Inv (items_of orders) m i.threads;
    follows = subst (λ l. Follows t.got l) e (Consumes-got m);
    replayed = i.replayed;
  }
  PipelineStep-PInv {p} i (handling x f e) = record {
    threads = i.threads;
    follows = inl e;
    replayed =
        replay-snoc clock (new_run cfg.symbols, false) p.seen x
        ∙ ap (λ s. handle clock x s.0) i.replayed;
  }

  pub PipelineReach-PInv :
      {p q : Pipeline} → PInv clock cfg orders p → PipelineReach clock p q → PInv clock cfg orders q
  PipelineReach-PInv i here = i
  PipelineReach-PInv i (step m r) = PipelineReach-PInv (PipelineStep-PInv i m) r
