-- ===== src/Interactive/Program/Talks.antt =====
-- The interactive mode of the program.
use mathlib.Core.List.{append_assoc, append-nil}
use astra_exchange.Base.{
  ℕ, ◌||◌, ◌≡◌, refl, ap, ◌∙◌, sym, inl, inr, String, Option, some, List, [], ◌∷◌, ◌++◌, map,
  str_eq, Bool-cases, Option-cases,
}
use astra_exchange.Base.Int.{ℤ}
use astra_exchange.Floating.{Floating}
use astra_exchange.Types.{Order, Trade}
use astra_exchange.MatchingEngine.Defs.{find_book, submit_order}
use astra_exchange.CsvParser.Defs.{parse_line}
use astra_exchange.Benchmark.Defs.{new_run, run_orders}
use astra_exchange.Feed.EventLog.{trade_detail, log_trade}
use astra_exchange.Interactive.Defs.{
  Arguments, Output, text, Session, interactive, choose_action, log_trades, enter_order, enter_line,
  run_lines,
}
use astra_exchange.Interactive.Session.{
  details, orders_of, details-append, details-text, run_lines-Ends,
}
use astra_exchange.Interactive.Program.Defs.{greeting, greeted, talked, main_program}

-- The second screen is the first with more after it.
record Extends (before after : List Output) : Type 0 where
  more : List Output
  whole : after ≡ before ++ more

append-Extends : (xs ys : List Output) → Extends xs (xs ++ ys)
append-Extends xs ys = record { more = ys; whole = refl }

Extends-refl : (xs : List Output) → Extends xs xs
Extends-refl xs = record { more = []; whole = sym (append-nil xs) }

Extends-trans : (xs ys zs : List Output) → Extends xs ys → Extends ys zs → Extends xs zs
Extends-trans xs ys zs a b = record {
  more = a.more ++ b.more;
  whole = b.whole ∙ ap (λ l. l ++ b.more) a.whole ∙ append_assoc xs a.more b.more;
}

module _ (stoull : String → Option ℕ) (fixed_price : String → Option ℤ) (print : ℕ → String)
    (print_price : ℤ → String) (fixed_string : ℤ → String) (column : ℕ → String → String)
    (clock : ℕ → ℕ → ℕ) (now : ℕ → ℕ) where
  log_trades-Extends :
      (ts : List Trade) (screen : List Output)
      → Extends screen
          (log_trades stoull fixed_price print print_price fixed_string column clock now ts screen)
  unfolding log_trades log_trade
  log_trades-Extends [] screen = Extends-refl screen
  log_trades-Extends (t ∷ ts) screen =
      Extends-trans screen _ _ (append-Extends screen _) (log_trades-Extends ts _)

  enter_order-Extends :
      (o : Order) (s : Session)
      → Extends s.screen
          (enter_order stoull fixed_price print print_price fixed_string column clock now o
            s).screen
  unfolding enter_order
  enter_order-Extends o s =
      let u = submit_order (clock s.engine.orders_processed) s.engine o in
      let h = log_trades-Extends u.result.trades s.screen in
      elim (Option-cases (find_book o.symbol u.engine.books)) [
        | inl n ↦ rw (n, enter_order) h
        | inr (b, y) ↦ rw (y, enter_order) (Extends-trans s.screen _ _ h (append-Extends _ _))
      ]

  run_lines-Extends :
      (lines : List String) (s : Session)
      → Extends s.screen
          (run_lines stoull fixed_price print print_price fixed_string column clock now lines
            s).screen
  unfolding run_lines enter_line
  run_lines-Extends [] s = Extends-refl s.screen
  run_lines-Extends (line ∷ lines) s =
      elim (Bool-cases (str_eq line "QUIT" || str_eq line "quit")) [
        | inl y ↦ rw y (Extends-refl s.screen)
        | inr n ↦ elim (Option-cases (parse_line stoull fixed_price line)) [
          | inl e ↦
              rw (n, enter_line, e)
                (Extends-trans s.screen _ _ (append-Extends s.screen _) (run_lines-Extends lines _))
          | inr (o, e) ↦
              rw (n, enter_line, e)
                (Extends-trans s.screen _ _ (enter_order-Extends o s) (run_lines-Extends lines _))
        ]
      ]

module _ {D : Type 0} (fl : Floating D) (print : ℕ → String)
    (default_double fixed_double : D → String)
    (default_string fixed_string print_price : ℤ → String) (column : ℕ → String → String)
    (begins ends : ℕ → ℕ) (clock : ℕ → ℕ → ℕ) (now : ℕ → ℕ) (stoull : String → Option ℕ)
    (fixed_price : String → Option ℤ) (wall_ns : ℕ) where
  -- Called for a session, the program shows its greeting, and after it the log has the trades of the baseline
  -- run over the orders that the lines of the input hold up to the one that quits, each once, in their
  -- order.
  pub main_program-run_orders :
      (argv0 : String) (args : List String) (a : Arguments) (file : Option (List String))
      (input : List String)
      → choose_action args ≡ interactive a
      → (screen : List Output) × (main_program fl print default_double fixed_double default_string
            fixed_string print_price column begins ends clock now stoull fixed_price wall_ns argv0
            args file input
          ≡ some (talked (map text greeting ++ screen)))
        × (details screen
            ≡ map
                (trade_detail print print_price)
                (run_orders clock
                  (new_run a.symbols)
                  (orders_of (parse_line stoull fixed_price) input)).all_trades)
  unfolding main_program new_run
  main_program-run_orders argv0 args a file input e =
      let x =
        run_lines-Extends stoull fixed_price print print_price fixed_string column clock now input
          (greeted a.symbols) in
      let h =
        run_lines-Ends stoull fixed_price print print_price fixed_string column clock now input
          (new_run a.symbols) (map text greeting) (details-text greeting) in
      (
        x.more,
        rw (e, main_program) (ap (λ s. some (talked s)) x.whole),
        sym (details-append (map text greeting) x.more) ∙ ap details (sym x.whole) ∙ h.1,
      )
