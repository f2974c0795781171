-- ===== src/MatchingEngine/Shares.antt =====
-- What a call of the engine trades and leaves for one id, over all of its books.
use astra_exchange.Base.{
  ℕ, ◌+◌, ◌≤◌, ◌≡◌, ◌≢◌, refl, ◌⊎◌, inl, inr, String, ◌||◌, ◌==◌, false, some, [], ◌∷◌, arith,
  u64_mod, add64, sum_by, Bool-cases, Option-cases, ◌<◌,
}
use astra_exchange.Types.{cancel, Order}
use astra_exchange.RiskValidator.{validate, has_id, has_id-record_id}
use astra_exchange.OrderBook.Defs.{OrderBook}
use astra_exchange.OrderBook.Match.{add_order, cancel_order}
use astra_exchange.OrderBook.Valid.{BookValid, Fresh}
use astra_exchange.OrderBook.Shares.Defs.{traded_for, share, book_share}
use astra_exchange.OrderBook.Shares.Calls.{add_order-spent, cancel_order-share}
use astra_exchange.MatchingEngine.Defs.{
  MatchingEngine, Books, Reply, find_book, set_book, cancel_in, trade_in, route, submit_new,
  submit_order, is_cancel,
}
use astra_exchange.MatchingEngine.Valid.{EngineValid, find_book-All, validate-passed}

module _ (i : ℕ) where
  abbrev pub books_share : Books → ℕ
  books_share bs = sum_by (λ x. book_share i x.1) bs

  set_book-share :
      (s : String) (b c : OrderBook) (bs : Books)
      → find_book s bs ≡ some c
      → books_share (set_book s b bs) + book_share i c ≡ books_share bs + book_share i b
  unfolding find_book set_book
  set_book-share s b c [] e = cc
  set_book-share s b c ((t, d) ∷ bs) e = ground (arith, set_book-share s b c bs)

  -- What a call trades for the id and leaves at rest.
  abbrev pub spent : Reply → ℕ
  spent r = traded_for i r.result.trades + books_share r.engine.books

  -- A call for an order takes it under a new id, and spends no more than the order brings; or it takes
  -- none, and spends only what rested.
  abbrev pub Spends : MatchingEngine → Order → Reply → Type 0
  Spends e o r =
      ((spent r ≤ books_share e.books) × (r.engine.validator.used_ids ≡ e.validator.used_ids))
      ⊎ ((spent r ≤ books_share e.books + share i o)
          × (has_id o.id e.validator.used_ids ≡ false)
          × (has_id i r.engine.validator.used_ids ≡ (o.id == i || has_id i e.validator.used_ids))
          × (o.type ≢ cancel))

  cancel_in-share :
      (e : MatchingEngine) (s : String) (id : ℕ)
      → EngineValid e
      → let r = cancel_in e s id in
        (traded_for i r.1.trades + books_share r.0.books ≤ books_share e.books)
        × (r.0.validator.used_ids ≡ e.validator.used_ids)
  unfolding cancel_in
  cancel_in-share e s id v = elim (Option-cases (find_book s e.books)) [
    | inl m ↦ rw (m, cancel_in) (omega arith, refl)
    | inr (b, g) ↦
        let b' : OrderBook = (cancel_order b id).1 in
        let w = cancel_order-share i b id (find_book-All BookValid s b e.books v.books_valid g) in
        let h = set_book-share s b' b e.books g in
        elim (Bool-cases (cancel_order b id).0) [
          | inl y ↦ rw (g, cancel_in, y) (omega (arith, w, h), refl)
          | inr y ↦ rw (g, cancel_in, y) (omega (arith, w, h), refl)
        ]
  ]

  route-Spends :
      (now : ℕ → ℕ) (e : MatchingEngine) (o : Order)
      → EngineValid e
      → Fresh o
      → has_id o.id e.validator.used_ids ≡ false
      → o.type ≢ cancel
      → Spends e o (route now e o)
  unfolding route trade_in
  route-Spends now e o v f n k = elim (Option-cases (find_book o.symbol e.books)) [
    | inl m ↦ rw (m, route) (inr (omega arith, n, has_id-record_id i o.id e.validator, k))
    | inr (b, g) ↦
        let w =
          add_order-spent i now b o (find_book-All BookValid o.symbol b e.books v.books_valid g)
            f in
        let h = set_book-share o.symbol (add_order now b o).book b e.books g in
        rw (g, route) (inr (omega (arith, w, h), n, has_id-record_id i o.id e.validator, k))
  ]

  submit_new-Spends :
      (now : ℕ → ℕ) (e : MatchingEngine) (o : Order)
      → EngineValid e
      → o.filled_qty ≡ 0
      → o.quantity < u64_mod
      → o.type ≢ cancel
      → Spends e o (submit_new now e o)
  unfolding submit_new
  submit_new-Spends now e o v z q k = elim (Option-cases (validate e.validator o)) [
    | inl p ↦
        let (a, n, _) = validate-passed e.validator o p in
        rw (p, submit_new)
          (route-Spends now e o v (record { unfilled = z; nonzero = a; in_word = q }) n k)
    | inr (why, y) ↦ rw (y, submit_new) (inl (omega arith, refl))
  ]

  pub submit_order-Spends :
      (now : ℕ → ℕ) (e : MatchingEngine) (o : Order)
      → EngineValid e
      → o.filled_qty ≡ 0
      → o.quantity < u64_mod
      → Spends e o (submit_order now e o)
  unfolding submit_order
  submit_order-Spends now e o v z q =
      let e' : MatchingEngine = record e { orders_processed = add64 e.orders_processed 1 } in
      let v' : EngineValid e' = record {
        books_valid = v.books_valid;
        known = v.known;
        paired = v.paired;
      } in
      elim (Bool-cases (is_cancel o.type)) [
        | inl y ↦ rw y (inl (cancel_in-share e' o.symbol o.id v'))
        | inr n ↦ rw n (submit_new-Spends now e' o v' z q (λ k. ground (arith, k, n)))
      ]
