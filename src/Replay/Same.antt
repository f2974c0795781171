-- ===== src/Replay/Same.antt =====
-- A replay next to a baseline run of the same orders.
use astra_exchange.Base.{
  ℕ, ◌≡◌, refl, ◌∙◌, ap, String, List, [], ◌∷◌, ◌++◌, length, add64, arith, length-append, ◌+◌,
}
use astra_exchange.Base.Int.{ℤ}
use astra_exchange.Types.{
  OrderStatus, pending, accepted, partially_filled, filled, cancelled, rejected, Order, Trade,
}
use astra_exchange.MatchingEngine.Defs.{MatchingEngine, submit_order}
use astra_exchange.LatencyTimer.Defs.{LatencyTimer}
use astra_exchange.Benchmark.Defs.{Run, new_run, tally, run_order, run_orders}
use astra_exchange.Replay.Defs.{
  ReplayConfig, Console, Replay, no_samples, new_replay, note, timed, shown, replay_order,
  replay_orders,
}

-- What a replay has of a run, with its timer and streams.
abbrev pub replay_of : Run → LatencyTimer → Console → Replay
replay_of r timer console = record {
  engine = r.engine;
  accepted = r.accepted;
  refused = r.refused;
  trades = r.trades;
  timer = timer;
  console = console;
}

-- What a replay does with the result of a call is what a run does.
note-tally :
    (s : OrderStatus) (id : ℕ) (e : MatchingEngine) (ts : List Trade) (r : Run) (t : LatencyTimer)
    (c d : Console)
    → (let p = note s (replay_of (record r { engine = e }) t c) in
        record p { trades = add64 p.trades (length ts); console = d })
      ≡ replay_of
          (tally s id (record r {
            engine = e;
            trades = add64 r.trades (length ts);
            all_trades = r.all_trades ++ ts;
          }))
          t
          d
note-tally pending id e ts r t c d = refl
note-tally accepted id e ts r t c d = refl
note-tally partially_filled id e ts r t c d = refl
note-tally filled id e ts r t c d = refl
note-tally cancelled id e ts r t c d = refl
note-tally rejected id e ts r t c d = refl

module _ (print : ℕ → String) (default_string fixed_string : ℤ → String)
    (column : ℕ → String → String) (begins ends : ℕ → ℕ) (clock : ℕ → ℕ → ℕ)
    (cfg : ReplayConfig) where
  -- The streams after an order.
  abbrev pub shown_at : Run → Order → Console → Console
  shown_at r o c =
      let s = submit_order (clock r.engine.orders_processed) r.engine o in
      shown print default_string fixed_string column cfg s.engine o s.result c

  abbrev pub timed_at : LatencyTimer → LatencyTimer
  timed_at = timed begins ends

  abbrev pub one : Replay → Order → Replay
  one = replay_order print default_string fixed_string column begins ends clock cfg

  abbrev pub many : Replay → List Order → Replay
  many = replay_orders print default_string fixed_string column begins ends clock cfg

  pub replay_order-run_order :
      (r : Run) (t : LatencyTimer) (c : Console) (o : Order)
      → one (replay_of r t c) o ≡ replay_of (run_order clock r o) (timed_at t) (shown_at r o c)
  unfolding replay_order run_order
  replay_order-run_order r t c o =
      let s = submit_order (clock r.engine.orders_processed) r.engine o in
      note-tally s.result.status o.id s.engine s.result.trades r (timed_at t) c (shown_at r o c)

  -- The timer and the streams after a list of orders.
  abbrev pub timed_all : List Order → LatencyTimer → LatencyTimer
  timed_all [] t = t
  timed_all (o ∷ os) t = timed_all os (timed_at t)

  abbrev pub shown_all : Run → List Order → Console → Console
  shown_all r [] c = c
  shown_all r (o ∷ os) c = shown_all (run_order clock r o) os (shown_at r o c)

  pub replay_orders-replay_of :
      (r : Run) (t : LatencyTimer) (c : Console) (os : List Order)
      → many (replay_of r t c) os
        ≡ replay_of (run_orders clock r os) (timed_all os t) (shown_all r os c)
  unfolding replay_orders run_orders
  replay_orders-replay_of r t c [] = refl
  replay_orders-replay_of r t c (o ∷ os) =
      ap (λ p. many p os) (replay_order-run_order r t c o)
      ∙ replay_orders-replay_of (run_order clock r o) (timed_at t) (shown_at r o c) os

  length-timed_all :
      (os : List Order) (t : LatencyTimer)
      → length (timed_all os t).samples ≡ length t.samples + length os
  length-timed_all [] t = omega arith
  length-timed_all (o ∷ os) t =
      omega (arith, length-timed_all os (timed_at t), length-append t.samples (_ ∷ []))

  -- From the same symbols and orders, a replay ends with the engine of a baseline run, and with the
  -- same counts of accepted and rejected orders and of trades; its timer has a sample for each order.
  pub replay_orders-run_orders :
      (symbols : List String) (c : Console) (os : List Order)
      → let p = many (new_replay symbols c) os in
        let r = run_orders clock (new_run symbols) os in
        (p.engine ≡ r.engine)
        × (p.accepted ≡ r.accepted)
        × (p.refused ≡ r.refused)
        × (p.trades ≡ r.trades)
        × (length p.timer.samples ≡ length os)
  unfolding new_replay new_run
  replay_orders-run_orders symbols c os =
      let e = replay_orders-replay_of (new_run symbols) no_samples c os in
      (
        ap (λ p. p.engine) e,
        ap (λ p. p.accepted) e,
        ap (λ p. p.refused) e,
        ap (λ p. p.trades) e,
        ap (λ p. length p.timer.samples) e ∙ omega (arith, length-timed_all os no_samples),
      )
