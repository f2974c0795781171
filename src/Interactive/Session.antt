-- ===== src/Interactive/Session.antt =====
-- A session next to a baseline run over the orders that its lines hold.
use mathlib.Core.List.{append_assoc, append-nil, map-append}
use astra_exchange.Base.{
  ℕ, ◌||◌, ◌≡◌, refl, ap, ◌∙◌, sym, inl, inr, String, Option, none, some, List, [], ◌∷◌, ◌++◌, map,
  length, add64, str_eq, if◌then◌else◌, Bool-cases, Option-cases,
}
use astra_exchange.Base.Int.{ℤ}
use astra_exchange.Types.{Order, Trade}
use astra_exchange.MatchingEngine.Defs.{MatchingEngine, find_book, submit_order}
use astra_exchange.CsvParser.Defs.{parse_line}
use astra_exchange.Benchmark.Defs.{Run, new_run, tally, run_order, run_orders}
use astra_exchange.Benchmark.Passing.{tally-kept}
use astra_exchange.Feed.EventLog.{trade_detail, log_trade}
use astra_exchange.Feed.MarketData.{publish}
use astra_exchange.Interactive.Defs.{
  Output, event, text, error_text, Session, new_session, log_trades, enter_order, enter_line,
  run_lines,
}

-- The details of the events among the outputs.
abbrev pub details : List Output → List String
details [] = []
details (event e ∷ os) = e.detail ∷ details os
details (text t ∷ os) = details os
details (error_text t ∷ os) = details os

-- The orders of the lines up to the one that ends the session; a line without an order is passed over.
abbrev pub orders_of : (String → Option Order) → List String → List Order
orders_of parse [] = []
orders_of parse (line ∷ lines) =
    let rest = orders_of parse lines in
    if str_eq line "QUIT" || str_eq line "quit"
    then []
    else elim (parse line) [ some o ↦ o ∷ rest | none ↦ rest ]

pub details-append : (xs ys : List Output) → details (xs ++ ys) ≡ details xs ++ details ys
details-append [] ys = refl
details-append (event e ∷ xs) ys = ap (λ l. e.detail ∷ l) (details-append xs ys)
details-append (text t ∷ xs) ys = details-append xs ys
details-append (error_text t ∷ xs) ys = details-append xs ys

pub details-text : (ts : List String) → details (map text ts) ≡ []
details-text [] = refl
details-text (t ∷ ts) = details-text ts

module _ (stoull : String → Option ℕ) (fixed_price : String → Option ℤ) (print : ℕ → String)
    (print_price : ℤ → String) (fixed_string : ℤ → String) (column : ℕ → String → String)
    (clock : ℕ → ℕ → ℕ) (now : ℕ → ℕ) where
  abbrev log : List Trade → List Output → List Output
  log = log_trades stoull fixed_price print print_price fixed_string column clock now

  details-log_trades :
      (ts : List Trade) (screen : List Output)
      → details (log ts screen) ≡ details screen ++ map (trade_detail print print_price) ts
  unfolding log_trades log_trade
  details-log_trades [] screen = sym (append-nil (details screen))
  details-log_trades (t ∷ ts) screen =
      details-log_trades ts _
      ∙ ap (λ l. l ++ map (trade_detail print print_price) ts) (details-append screen (_ ∷ []))
      ∙ append_assoc (details screen) (trade_detail print print_price t ∷ [])
          (map (trade_detail print print_price) ts)

  -- The session at the point of a run.
  abbrev at_run : Run → List Output → Session
  at_run r screen = record { engine = r.engine; screen = screen }

  abbrev with_screen : List Output → MatchingEngine → Session
  with_screen screen e = record { engine = e; screen = screen }

  abbrev Logged : Run → List Output → Type 0
  Logged r screen = details screen ≡ map (trade_detail print print_price) r.all_trades

  abbrev enter : Order → Session → Session
  enter = enter_order stoull fixed_price print print_price fixed_string column clock now

  abbrev enters : List String → Session → Session
  enters = run_lines stoull fixed_price print print_price fixed_string column clock now

  enter_order-run_order :
      (o : Order) (r : Run) (screen : List Output)
      → Logged r screen
      → (screen' : List Output) × (enter o (at_run r screen) ≡ at_run (run_order clock r o) screen')
        × Logged (run_order clock r o) screen'
  unfolding enter_order run_order
  enter_order-run_order o r screen h =
      let u = submit_order (clock r.engine.orders_processed) r.engine o in
      let d = map (trade_detail print print_price) in
      let next = record r {
        engine = u.engine;
        trades = add64 r.trades (length u.result.trades);
        all_trades = r.all_trades ++ u.result.trades;
      } in
      let (e, f) = tally-kept u.result.status o.id next in
      let g : details (log u.result.trades screen)
          ≡ d (tally u.result.status o.id next).all_trades =
        details-log_trades u.result.trades screen
        ∙ ap (λ l. l ++ d u.result.trades) h
        ∙ sym (map-append (trade_detail print print_price) r.all_trades u.result.trades)
        ∙ ap d (sym f) in
      elim (Option-cases (find_book o.symbol u.engine.books)) [
        | inl n ↦ (
          log u.result.trades screen,
          rw n (ap (λ e. with_screen (log u.result.trades screen) e) (sym e)),
          g,
        )
        | inr (b, y) ↦
            let feed = publish print fixed_string column b u.result.trades 5 in
            (
              log u.result.trades screen ++ map text feed,
              rw y (ap (λ e. with_screen (log u.result.trades screen ++ map text feed) e) (sym e)),
              details-append (log u.result.trades screen) (map text feed)
                  ∙ ap (λ l. details (log u.result.trades screen) ++ l) (details-text feed)
                  ∙ append-nil (details (log u.result.trades screen))
                  ∙ g,
            )
      ]

  abbrev pub Ends : List String → Run → List Output → Type 0
  Ends lines r screen =
      let r' = run_orders clock r (orders_of (parse_line stoull fixed_price) lines) in
      ((enters lines (at_run r screen)).engine ≡ r'.engine)
      × Logged r' (enters lines (at_run r screen)).screen

  pub run_lines-Ends :
      (lines : List String) (r : Run) (screen : List Output) → Logged r screen → Ends lines r screen
  unfolding run_lines run_orders enter_line
  run_lines-Ends [] r screen h = (refl, h)
  run_lines-Ends (line ∷ lines) r screen h =
      elim (Bool-cases (str_eq line "QUIT" || str_eq line "quit")) [
        | inl y ↦ rw y (refl, h)
        | inr n ↦ elim (Option-cases (parse_line stoull fixed_price line)) [
          | inl e ↦
              rw (n, enter_line, e)
                (run_lines-Ends lines r (screen ++ error_text "parse error" ∷ [])
                  (details-append screen _ ∙ append-nil (details screen) ∙ h))
          | inr (o, e) ↦
              let (screen', q, h') = enter_order-run_order o r screen h in
              rw (n, enter_line, e, q) (run_lines-Ends lines (run_order clock r o) screen' h')
        ]
      ]

  -- A session over any lines ends with the engine of the baseline run over the orders that its lines hold up to
  -- the one that quits, and its log has the trades of that run, each once, in their order.
  pub run_lines-run_orders :
      (symbols : List String) (lines : List String)
      → let s =
          run_lines stoull fixed_price print print_price fixed_string column clock now lines
            (new_session symbols) in
        let r =
          run_orders clock (new_run symbols) (orders_of (parse_line stoull fixed_price) lines) in
        (s.engine ≡ r.engine)
        × (details s.screen ≡ map (trade_detail print print_price) r.all_trades)
  unfolding new_run
  run_lines-run_orders symbols lines = run_lines-Ends lines (new_run symbols) [] refl
