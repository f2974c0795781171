-- ===== src/Benchmark/Final.antt =====
-- The checks at the end of a run.
use astra_exchange.Base.{
  ℕ, ◌≡◌, refl, ap, inl, inr, String, true, List, [], ◌∷◌, All, All-append, Option-cases,
  Bool-cases,
}
use astra_exchange.Base.Int.{ℤ}
use astra_exchange.OrderBook.Valid.{BookValid}
use astra_exchange.InvariantChecker.Passes.{check_book-BookValid}
use astra_exchange.InvariantChecker.Reports.{
  Distinct, Sound, check_unique_ids-Distinct, check_trades-Sound, merge-passed,
}
use astra_exchange.MatchingEngine.Defs.{Books, find_book}
use astra_exchange.MatchingEngine.Valid.{EngineValid, find_book-All}
use astra_exchange.Benchmark.Defs.{Run, BenchmarkConfig, book_reports, final_report}

module _ (p : ℤ → String) (i : ℕ → String) (f : ℤ → String) where
  book_reports-passed :
      (ss : List String) (bs : Books)
      → All (λ x. BookValid x.1) bs
      → All (λ r. r.passed ≡ true) (book_reports p i f ss bs)
  unfolding book_reports
  book_reports-passed [] bs a = tt
  book_reports-passed (s ∷ ss) bs a = elim (Option-cases (find_book s bs)) [
    | inl n ↦ rw (book_reports, n) (book_reports-passed ss bs a)
    | inr (b, e) ↦
        rw (book_reports, e)
          (
            ap (λ r. r.passed) (check_book-BookValid p i f b (find_book-All BookValid s b bs a e)),
            book_reports-passed ss bs a,
          )
  ]

  -- The final report passes where the engine is valid, no accepted id stands twice, and each trade
  -- has a positive price and a nonzero quantity.
  pub final_report-passed :
      (cfg : BenchmarkConfig) (r : Run)
      → EngineValid r.engine
      → Distinct r.accepted_ids
      → All Sound r.all_trades
      → (final_report p i f cfg r).passed ≡ true
  unfolding final_report
  final_report-passed cfg r v d a = elim (Bool-cases cfg.verify_invariants) [
    | inl y ↦ rw y (
        (merge-passed _).1 (
          All-append (λ r. r.passed ≡ true) (book_reports p i f cfg.symbols r.engine.books) _
            (book_reports-passed cfg.symbols r.engine.books v.books_valid)
            (
              (check_trades-Sound p i f r.all_trades).1 a,
              ((check_unique_ids-Distinct p i f r.accepted_ids).1 d, tt),
            )))
    | inr n ↦ rw n refl
  ]
