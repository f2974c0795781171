-- ===== src/Replay/Digits.antt =====
-- How many digits a price has on the standard output.
use astra_exchange.Base.{
  ℕ, ◌≡◌, refl, ◌∙◌, ap, sym, String, Bool, true, false, not, ◌&&◌, ◌||◌, ◌⊎◌, inl, inr, List, [],
  ◌∷◌, ◌++◌, some, is_empty, Bool-cases, Option-cases, arith,
}
use astra_exchange.Base.Int.{ℤ}
use astra_exchange.Types.{Order, Trade}
use astra_exchange.RiskValidator.{validate}
use astra_exchange.OrderBook.Defs.{OrderBook}
use astra_exchange.OrderBook.Match.{add_order, cancel_order}
use astra_exchange.MatchingEngine.Defs.{
  EngineResult, MatchingEngine, find_book, cancel_in, trade_in, route, submit_new, submit_order,
  is_cancel,
}
use astra_exchange.MatchingEngine.Valid.{find_book-set_book_self}
use astra_exchange.Benchmark.Defs.{Run, new_run, run_order, run_orders}
use astra_exchange.Replay.Defs.{
  ReplayConfig, Console, show_rejection, show_trades, show_book, shown, is_rejected, no_samples,
  new_replay,
}
use astra_exchange.Replay.Same.{many, shown_all, replay_orders-replay_of}
use astra_exchange.Replay.Output.{replies, traded, run_orders-Told}

-- An order with a trade finds its book after the call.
Shows : Order → EngineResult → MatchingEngine → Type 0
Shows o x e = (x.trades ≡ []) ⊎ ((b : OrderBook) × (find_book o.symbol e.books ≡ some b))

cancel_in-quiet : (e : MatchingEngine) (s : String) (id : ℕ) → (cancel_in e s id).1.trades ≡ []
unfolding cancel_in
cancel_in-quiet e s id = elim (Option-cases (find_book s e.books)) [
  | inl n ↦ rw (n, cancel_in) refl
  | inr (b, y) ↦ elim (Bool-cases (cancel_order b id).0) [
    | inl z ↦ rw (y, z, cancel_in) refl
    | inr z ↦ rw (y, z, cancel_in) refl
  ]
]

submit_order-Shows :
    (now : ℕ → ℕ) (e : MatchingEngine) (o : Order)
    → let u = submit_order now e o in Shows o u.result u.engine
unfolding submit_order submit_new route trade_in Shows
submit_order-Shows now e o = elim (Bool-cases (is_cancel o.type)) [
  | inl y ↦ rw y (inl (cancel_in-quiet _ o.symbol o.id))
  | inr n ↦ elim (Option-cases (validate e.validator o)) [
    | inr (why, v) ↦ rw (n, v, submit_new) (inl refl)
    | inl v ↦ elim (Option-cases (find_book o.symbol e.books)) [
      | inl m ↦ rw (n, v, submit_new, m, route) (inl refl)
      | inr (b, g) ↦
          rw (n, v, submit_new, g, route)
            (inr (
              (add_order now b o).book,
              find_book-set_book_self o.symbol (add_order now b o).book b e.books g,
            ))
    ]
  ]
]

not_empty-append :
    {A : Type 0} (a p : Bool) (xs ys : List A)
    → ((a || (p && not (is_empty xs))) || (p && not (is_empty ys)))
      ≡ (a || (p && not (is_empty (xs ++ ys))))
not_empty-append true p xs ys = refl
not_empty-append false false xs ys = refl
not_empty-append false true [] ys = refl
not_empty-append false true (x ∷ xs) ys = refl

module _ (print : ℕ → String) (default_string fixed_string : ℤ → String)
    (column : ℕ → String → String) (begins ends : ℕ → ℕ) (clock : ℕ → ℕ → ℕ)
    (cfg : ReplayConfig) where
  show_trades-digits :
      (b : Bool) (x : EngineResult) (c : Console)
      → (show_trades print default_string fixed_string column b x c).two_digits ≡ c.two_digits
  show_trades-digits true x c = refl
  show_trades-digits false x c = refl

  show_rejection-digits :
      (b : Bool) (o : Order) (x : EngineResult) (c : Console)
      → (show_rejection print default_string fixed_string column b o x c).two_digits ≡ c.two_digits
  show_rejection-digits true o x c = refl
  show_rejection-digits false o x c = refl

  show_book-digits :
      (b : Bool) (e : MatchingEngine) (o : Order) (x : EngineResult) (ts : List Trade) (c : Console)
      → x.trades ≡ ts
      → Shows o x e
      → (show_book print default_string fixed_string column
          (b && not (is_empty ts))
          cfg.book_depth
          e
          o
          x
          c).two_digits
        ≡ (c.two_digits || (b && not (is_empty ts)))
  unfolding Shows
  show_book-digits false e o x ts c q h = ground arith
  show_book-digits true e o x [] c q h = ground arith
  show_book-digits true e o x (t ∷ ts) c q (inl z) = absurd (cc)
  show_book-digits true e o x (t ∷ ts) c q (inr (b, g)) = rw (g, show_book) (ground arith)

  shown-digits :
      (e : MatchingEngine) (o : Order) (x : EngineResult) (c : Console)
      → Shows o x e
      → (shown print default_string fixed_string column cfg e o x c).two_digits
        ≡ (c.two_digits || (cfg.print_book && not (is_empty x.trades)))
  unfolding shown
  shown-digits e o x c h =
      show_book-digits cfg.print_book e o x x.trades _ refl h
      ∙ ap (λ d. d || (cfg.print_book && not (is_empty x.trades)))
          (show_trades-digits cfg.print_trades x _
            ∙ show_rejection-digits (is_rejected x.status && cfg.verbose) o x c)

  shown_all-digits :
      (r : Run) (os : List Order) (c : Console)
      → (shown_all print default_string fixed_string column begins ends clock cfg r os c).two_digits
        ≡ (c.two_digits || (cfg.print_book && not (is_empty (traded (replies clock r os)))))
  unfolding replies
  shown_all-digits r [] c = ground arith
  shown_all-digits r (o ∷ os) c =
      let now = clock r.engine.orders_processed in
      let u = submit_order now r.engine o in
      shown_all-digits (run_order clock r o) os _
      ∙ ap
          (λ d.
            d
            || (cfg.print_book && not (is_empty (traded (replies clock (run_order clock r o) os)))))
          (shown-digits u.engine o u.result c (submit_order-Shows now r.engine o))
      ∙ not_empty-append c.two_digits cfg.print_book u.result.trades
          (traded (replies clock (run_order clock r o) os))

  -- A replay leaves the standard output set to two digits exactly where it was set so before, or where it
  -- prints books and the orders make a trade.
  pub replay_orders-digits :
      (symbols : List String) (c : Console) (os : List Order)
      → (many print default_string fixed_string column begins ends clock cfg
          (new_replay symbols c)
          os).console.two_digits
        ≡ (c.two_digits
            || (cfg.print_book
                && not (is_empty (run_orders clock (new_run symbols) os).all_trades)))
  unfolding new_replay new_run
  replay_orders-digits symbols c os =
      let r0 = new_run symbols in
      let (h, _) = run_orders-Told clock r0 os (omega arith) in
      ap (λ p. p.console.two_digits)
        (replay_orders-replay_of print default_string fixed_string column begins ends clock cfg r0
          no_samples c os)
      ∙ shown_all-digits r0 os c
      ∙ ap (λ ts. c.two_digits || (cfg.print_book && not (is_empty ts))) (sym h)
