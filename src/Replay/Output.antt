-- ===== src/Replay/Output.antt =====
-- What a replay writes.
use mathlib.Core.List.{append_assoc, append-nil, map-append}
use astra_exchange.Base.{
  ℕ, ◌≡◌, refl, ◌∙◌, ap, sym, String, Bool, true, false, ◌&&◌, List, [], ◌∷◌, ◌++◌, map, length,
  add64, u64_mod, ◌%◌, ◌+◌, ◌<◌, if◌then◌else◌, Bool-cases, inl, inr, arith,
}
use astra_exchange.Base.Int.{ℤ}
use astra_exchange.Types.{
  OrderStatus, pending, accepted, partially_filled, filled, cancelled, rejected, Order, Trade,
}
use astra_exchange.MatchingEngine.Defs.{EngineResult, MatchingEngine, submit_order}
use astra_exchange.Benchmark.Defs.{Run, new_run, tally, run_order, run_orders}
use astra_exchange.Benchmark.Passing.{tally-kept}
use astra_exchange.Replay.Defs.{
  ReplayConfig, Console, no_samples, new_replay, reject_line, replay_line, is_rejected, shown,
  show_trades, show_rejection,
}
use astra_exchange.Replay.Same.{shown_all, many, replay_orders-replay_of}

-- The orders with the results of their calls.
unfoldable pub replies : (ℕ → ℕ → ℕ) → Run → List Order → List (Order × EngineResult)
replies clock r [] = []
replies clock r (o ∷ os) =
    (o, (submit_order (clock r.engine.orders_processed) r.engine o).result)
    ∷ replies clock (run_order clock r o) os

tally-refused :
    (s : OrderStatus) (id : ℕ) (r : Run)
    → (tally s id r).refused ≡ (if is_rejected s then add64 r.refused 1 else r.refused)
tally-refused pending id r = refl
tally-refused accepted id r = refl
tally-refused partially_filled id r = refl
tally-refused filled id r = refl
tally-refused cancelled id r = refl
tally-refused rejected id r = refl

-- Those that are rejected.
abbrev pub rejections : List (Order × EngineResult) → List (Order × EngineResult)
rejections [] = []
rejections ((o, x) ∷ xs) =
    let rest = rejections xs in if is_rejected x.status then (o, x) ∷ rest else rest

abbrev pub traded : List (Order × EngineResult) → List Trade
traded [] = []
traded ((o, x) ∷ xs) = x.trades ++ traded xs

module _ (clock : ℕ → ℕ → ℕ) where
  abbrev pub Told : Run → List Order → Type 0
  Told r os =
      ((run_orders clock r os).all_trades ≡ r.all_trades ++ traded (replies clock r os))
      × ((run_orders clock r os).refused
          ≡ (r.refused + length (rejections (replies clock r os))) % u64_mod)

  -- The results tell the trades of a run, and how many of its orders are rejected.
  pub run_orders-Told : (r : Run) (os : List Order) → r.refused < u64_mod → Told r os
  unfolding run_orders replies run_order
  run_orders-Told r [] b = (sym (append-nil r.all_trades), omega (arith, b))
  run_orders-Told r (o ∷ os) b =
      let s = submit_order (clock r.engine.orders_processed) r.engine o in
      let r0 : Run = record r {
        engine = s.engine;
        trades = add64 r.trades (length s.result.trades);
        all_trades = r.all_trades ++ s.result.trades;
      } in
      let (_, f) = tally-kept s.result.status o.id r0 in
      let g = tally-refused s.result.status o.id r0 in
      let r' = tally s.result.status o.id r0 in
      elim (Bool-cases (is_rejected s.result.status)) [
        | inl y ↦
            let k : r'.refused ≡ add64 r.refused 1 = g ∙ rw y refl in
            let (h, c) = run_orders-Told r' os (omega (arith, k)) in
            (
              h
                  ∙ ap (λ l. l ++ traded (replies clock r' os)) f
                  ∙ append_assoc r.all_trades s.result.trades (traded (replies clock r' os)),
              rw y (omega (arith, c, k, b)),
            )
        | inr n ↦
            let k : r'.refused ≡ r.refused = g ∙ rw n refl in
            let (h, c) = run_orders-Told r' os (omega (arith, k, b)) in
            (
              h
                  ∙ ap (λ l. l ++ traded (replies clock r' os)) f
                  ∙ append_assoc r.all_trades s.result.trades (traded (replies clock r' os)),
              rw n (omega (arith, c, k, b)),
            )
      ]

module _ (print : ℕ → String) (default_string fixed_string : ℤ → String)
    (column : ℕ → String → String) (begins ends : ℕ → ℕ) (clock : ℕ → ℕ → ℕ)
    (cfg : ReplayConfig) where
  abbrev pub line : Bool → Trade → String
  line = replay_line print default_string fixed_string column

  abbrev all_shown : Run → List Order → Console → Console
  all_shown = shown_all print default_string fixed_string column begins ends clock cfg

  abbrev pub out_lines : Bool → Bool → List Trade → List String
  out_lines two_digits true ts = map (line two_digits) ts
  out_lines two_digits false ts = []

  abbrev pub err_lines : Bool → List (Order × EngineResult) → List String
  err_lines true xs = map (λ x. reject_line print x.0 x.1) xs
  err_lines false xs = []

  -- What is written for these results where no book is.
  abbrev written : List (Order × EngineResult) → Console → Console
  written xs c = record c {
    out = c.out ++ out_lines c.two_digits cfg.print_trades (traded xs);
    err = c.err ++ err_lines cfg.verbose (rejections xs);
  }

  nil-out : (b : Bool) (c : Console) → c.out ++ out_lines c.two_digits b [] ≡ c.out
  nil-out true c = append-nil c.out
  nil-out false c = append-nil c.out

  nil-err : (b : Bool) (c : Console) → c.err ++ err_lines b [] ≡ c.err
  nil-err true c = append-nil c.err
  nil-err false c = append-nil c.err

  out_lines-append :
      (two_digits b : Bool) (xs ys : List Trade)
      → out_lines two_digits b (xs ++ ys) ≡ out_lines two_digits b xs ++ out_lines two_digits b ys
  out_lines-append two_digits true xs ys = map-append (line two_digits) xs ys
  out_lines-append two_digits false xs ys = refl

  err_lines-append :
      (b : Bool) (xs ys : List (Order × EngineResult))
      → err_lines b (xs ++ ys) ≡ err_lines b xs ++ err_lines b ys
  err_lines-append true xs ys = map-append (λ x. reject_line print x.0 x.1) xs ys
  err_lines-append false xs ys = refl

  -- One order, its flags given.
  abbrev alone : Bool → Order → EngineResult → List (Order × EngineResult)
  alone r o x = if r then (o, x) ∷ [] else []

  shown-flags :
      (t v r : Bool) (o : Order) (x : EngineResult) (c : Console)
      → show_trades print default_string fixed_string column t x
          (show_rejection print default_string fixed_string column (r && v) o x c)
        ≡ record c {
          out = c.out ++ out_lines c.two_digits t x.trades;
          err = c.err ++ err_lines v (alone r o x);
        }
  shown-flags true true true o x c = refl
  shown-flags true true false o x c = rw (append-nil c.err) refl
  shown-flags true false true o x c = rw (append-nil c.err) refl
  shown-flags true false false o x c = rw (append-nil c.err) refl
  shown-flags false true true o x c = rw (append-nil c.out) refl
  shown-flags false true false o x c = rw (append-nil c.out, append-nil c.err) refl
  shown-flags false false true o x c = rw (append-nil c.out, append-nil c.err) refl
  shown-flags false false false o x c = rw (append-nil c.out, append-nil c.err) refl

  rejections-cons :
      (o : Order) (x : EngineResult) (xs : List (Order × EngineResult))
      → alone (is_rejected x.status) o x ++ rejections xs ≡ rejections ((o, x) ∷ xs)
  rejections-cons o x xs = elim (Bool-cases (is_rejected x.status)) [
    | inl y ↦ rw y refl
    | inr n ↦ rw n refl
  ]

  shown-written :
      (e : MatchingEngine) (o : Order) (x : EngineResult) (c : Console)
      (xs : List (Order × EngineResult))
      → cfg.print_book ≡ false
      → written xs (shown print default_string fixed_string column cfg e o x c)
        ≡ written ((o, x) ∷ xs) c
  unfolding shown
  shown-written e o x c xs n =
      let r = is_rejected x.status in
      let f = shown-flags cfg.print_trades cfg.verbose r o x c in
      let outs =
        append_assoc c.out (out_lines c.two_digits cfg.print_trades x.trades) _
        ∙ ap (λ l. c.out ++ l)
            (sym (out_lines-append c.two_digits cfg.print_trades x.trades (traded xs))) in
      let errs =
        append_assoc c.err (err_lines cfg.verbose (alone r o x)) _
        ∙ ap (λ l. c.err ++ l)
            (sym (err_lines-append cfg.verbose (alone r o x) (rejections xs))
              ∙ ap (err_lines cfg.verbose) (rejections-cons o x xs)) in
      rw (n, f) (λ i. record c { out = outs i; err = errs i })

  all_shown-written :
      (r : Run) (os : List Order) (c : Console)
      → cfg.print_book ≡ false
      → all_shown r os c ≡ written (replies clock r os) c
  unfolding replies
  all_shown-written r [] c n = λ i. record c {
    out = sym (nil-out cfg.print_trades c) i;
    err = sym (nil-err cfg.verbose c) i;
  }
  all_shown-written r (o ∷ os) c n =
      let s = submit_order (clock r.engine.orders_processed) r.engine o in
      all_shown-written (run_order clock r o) os _ n
      ∙ shown-written s.engine o s.result c (replies clock (run_order clock r o) os) n

  -- A replay that prints no book writes, after what stood there, where trades are wanted, a line for each
  -- trade of the baseline run, in order, and, where it is verbose, a line for each order that the engine
  -- rejects, in order; as many as it counts as rejected, modulo 2^64.
  pub replay_orders-prints :
      (symbols : List String) (c : Console) (os : List Order)
      → cfg.print_book ≡ false
      → let p =
          many print default_string fixed_string column begins ends clock cfg
            (new_replay symbols c)
            os in
        let xs = replies clock (new_run symbols) os in
        (p.console.out
          ≡ c.out
            ++ out_lines c.two_digits cfg.print_trades
                (run_orders clock (new_run symbols) os).all_trades)
        × (p.console.err ≡ c.err ++ err_lines cfg.verbose (rejections xs))
        × (p.refused ≡ length (rejections xs) % u64_mod)
  unfolding new_replay new_run
  replay_orders-prints symbols c os n =
      let r0 = new_run symbols in
      let e =
        replay_orders-replay_of print default_string fixed_string column begins ends clock cfg r0
          no_samples c os in
      let w = all_shown-written r0 os c n in
      let (h, k) = run_orders-Told clock r0 os (omega arith) in
      (
        ap (λ p. p.console.out) e
            ∙ ap (λ d. d.out) w
            ∙ ap (λ ts. c.out ++ out_lines c.two_digits cfg.print_trades ts) (sym h),
        ap (λ p. p.console.err) e ∙ ap (λ d. d.err) w,
        ap (λ p. p.refused) e ∙ omega (arith, k),
      )
