-- ===== src/Benchmark/Filled.antt =====
-- The loop over the orders: what it trades under one id, against the orders it was given.
use mathlib.Core.List.{Mem, mem-cons_self, mem-cons_of_mem}
use astra_exchange.Base.{
  ℕ, ◌+◌, ◌≤◌, ◌<◌, ◌≡◌, ◌≢◌, refl, ap, if◌then◌else◌, ◌∙◌, ◌⊎◌, inl, inr, String, ◌||◌, ◌==◌, true,
  false, List, [], ◌∷◌, ◌++◌, arith, All, All-map, u64_mod, add64, length, sum_by-append,
  Bool-cases, Option-cases,
}
use astra_exchange.Types.{cancel, Order, Trade}
use astra_exchange.RiskValidator.{has_id, register_symbol}
use astra_exchange.OrderBook.Defs.{new_book}
use astra_exchange.OrderBook.Shares.Defs.{traded_for, share}
use astra_exchange.MatchingEngine.Defs.{
  MatchingEngine, Books, new_engine, find_book, emplace_book, register, submit_order,
}
use astra_exchange.MatchingEngine.Shares.{books_share, submit_order-Spends}
use astra_exchange.Benchmark.Defs.{Run, register_all, new_run, run_order, run_orders}
use astra_exchange.Benchmark.Passing.{
  Passing, new_run-Passing, run_order-Passing, submitted_qty, tally-kept,
}

module _ (i : ℕ) where
  traded_for-append :
      (xs ys : List Trade) → traded_for i (xs ++ ys) ≡ traded_for i xs + traded_for i ys
  traded_for-append xs ys =
      sum_by-append
        (λ t.
          (if t.maker_order_id == i then t.quantity else 0)
          + (if t.taker_order_id == i then t.quantity else 0))
        xs ys

  emplace_book-share :
      (s : String) (bs : Books) → books_share i (emplace_book s bs) ≡ books_share i bs
  unfolding emplace_book new_book
  emplace_book-share s bs = elim (Option-cases (find_book s bs)) [
    | inl n ↦ rw (n, emplace_book) (omega arith)
    | inr (b, f) ↦ rw (f, emplace_book) refl
  ]

  register_all-share :
      (ss : List String) (e : MatchingEngine)
      → (books_share i (register_all ss e).books ≡ books_share i e.books)
        × ((register_all ss e).validator.used_ids ≡ e.validator.used_ids)
  unfolding register_all register register_symbol
  register_all-share [] e = (refl, refl)
  register_all-share (s ∷ ss) e =
      let r = register_all-share ss (register s e) in (r.0 ∙ emplace_book-share s e.books, r.1)

  -- The orders that may trade under the id, of those with `P`.
  pub record Admits (P : Order → Type 0) (o : Order) : Type 0 where
    pub given : P o
    pub named : o.id ≡ i
    pub is_new : o.type ≢ cancel

  -- Traded so far, and at rest.
  abbrev held : Run → ℕ
  held r = traded_for i r.all_trades + books_share i r.engine.books

  abbrev used : Run → List ℕ
  used r = r.engine.validator.used_ids

  -- An id that is new has nothing, and one that is used has no more than an order with it brought.
  abbrev Filled : (Order → Type 0) → ℕ → List ℕ → Type 0
  Filled P h u =
      ((has_id i u ≡ false) × (h ≡ 0))
      ⊎ ((has_id i u ≡ true) × ((o : Order) × Admits P o × (h ≤ o.quantity)))

  keeps-Filled :
      (P : Order → Type 0) (h k : ℕ) (u w : List ℕ) → k ≤ h → w ≡ u → Filled P h u → Filled P k w
  keeps-Filled P h k u w l e (inl (n, z)) = inl (rw e n, omega (arith, z, l))
  keeps-Filled P h k u w l e (inr (y, (o, a, b))) = inr (rw e y, (o, a, omega (arith, b, l)))

  takes-Filled :
      (P : Order → Type 0) (h k : ℕ) (u w : List ℕ) (o : Order)
      → P o
      → o.type ≢ cancel
      → has_id o.id u ≡ false
      → k ≤ h + share i o
      → has_id i w ≡ (o.id == i || has_id i u)
      → Filled P h u
      → Filled P k w
  takes-Filled P h k u w o p c n l e (inl (m, z)) = elim (Bool-cases (o.id == i)) [
    | inl y ↦ inr (
      rw (e, y) refl,
      (o, record { given = p; named = ground (arith, y); is_new = c }, ground (arith, l, z)),
    )
    | inr d ↦ inl (rw (e, d) m, ground (arith, d, l, z))
  ]
  takes-Filled P h k u w o p c n l e (inr (y, (x, a, b))) =
      let d : (o.id == i) ≡ false = ground (arith, y, n) in
      inr (rw (e, d) y, (x, a, ground (arith, d, l, b)))

  new_run-Filled :
      (P : Order → Type 0) (symbols : List String)
      → let r = new_run symbols in Filled P (held r) (used r)
  unfolding new_run new_engine has_id
  new_run-Filled P symbols =
      let r = register_all-share symbols new_engine in inl (rw r.1 refl, rw r.0 refl)

  module _ (P : Order → Type 0) (clock : ℕ → ℕ → ℕ) where
    run_order-Filled :
        (n : ℕ) (r : Run) (o : Order)
        → P o
        → o.filled_qty ≡ 0
        → n + o.quantity < u64_mod
        → Passing n r
        → Filled P (held r) (used r)
        → let r' = run_order clock r o in Filled P (held r') (used r')
    unfolding run_order
    run_order-Filled n r o p z l v f =
        let u = submit_order (clock r.engine.orders_processed) r.engine o in
        let (e, g) = tally-kept u.result.status o.id (record r {
          engine = u.engine;
          trades = add64 r.trades (length u.result.trades);
          all_trades = r.all_trades ++ u.result.trades;
        }) in
        let h = traded_for-append r.all_trades u.result.trades in
        let r' = run_order clock r o in
        let w' : used r' ≡ u.engine.validator.used_ids = ap (λ x. x.validator.used_ids) e in
        let h' : held r'
            ≡ traded_for i (r.all_trades ++ u.result.trades) + books_share i u.engine.books =
          ap (λ x. traded_for i x + books_share i r'.engine.books) g
          ∙ ap (λ x. traded_for i (r.all_trades ++ u.result.trades) + books_share i x.books) e in
        elim (submit_order-Spends i (clock r.engine.orders_processed) r.engine o v.valid z
          (omega (arith, l))) [
            | inl (k, w) ↦
                keeps-Filled P (held r) (held r') (used r) (used r') (omega (arith, h, h', k))
                  (w' ∙ w) f
            | inr (k, q, w, c) ↦
                takes-Filled P (held r) (held r') (used r) (used r') o p c q
                  (omega (arith, h, h', k)) (rw w' w) f
          ]

    run_orders-Filled :
        (n : ℕ) (r : Run) (os : List Order)
        → All P os
        → All (λ o. o.filled_qty ≡ 0) os
        → n + submitted_qty os < u64_mod
        → Passing n r
        → Filled P (held r) (used r)
        → let r' = run_orders clock r os in Filled P (held r') (used r')
    unfolding run_orders
    run_orders-Filled n r [] p z l v f = f
    run_orders-Filled n r (o ∷ os) p z l v f =
        run_orders-Filled (n + o.quantity) (run_order clock r o) os p.1 z.1 (omega (arith, l))
          (run_order-Passing clock n r o z.0 (omega (arith, l)) v)
          (run_order-Filled n r o p.0 z.0 (omega (arith, l)) v f)

All-Mem : (os : List Order) → All (λ o. Mem o os) os
All-Mem [] = tt
All-Mem (o ∷ os) = (mem-cons_self, All-map _ _ os (λ x m. mem-cons_of_mem o m) (All-Mem os))

-- No order is overfilled: what a run trades under an id, as maker and as taker, is nothing, or at most
-- the quantity of one order with that id among those it was given, and not one of type `CANCEL`. The
-- orders come unfilled, and their quantities together fit a word.
pub traded_for-run_orders :
    (clock : ℕ → ℕ → ℕ) (symbols : List String) (os : List Order) (i : ℕ)
    → All (λ o. o.filled_qty ≡ 0) os
    → submitted_qty os < u64_mod
    → let k = traded_for i (run_orders clock (new_run symbols) os).all_trades in
      (k ≡ 0) ⊎ ((o : Order) × Admits i (λ x. Mem x os) o × (k ≤ o.quantity))
traded_for-run_orders clock symbols os i z l =
    elim (run_orders-Filled i (λ x. Mem x os) clock 0 (new_run symbols) os (All-Mem os) z
      (omega (arith, l)) (new_run-Passing symbols) (new_run-Filled i _ symbols)) [
        | inl (n, h) ↦ inl (omega (arith, h))
        | inr (n, (o, a, h)) ↦ inr (o, a, omega (arith, h))
      ]
