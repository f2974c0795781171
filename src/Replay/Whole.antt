-- ===== src/Replay/Whole.antt =====
-- The statistics that a replay returns.
use astra_exchange.Base.{
  ℕ, suc, ◌+◌, ◌<◌, ◌≤◌, ◌≡◌, refl, ◌∙◌, ap, String, Option, some, List, [], ◌∷◌, length, sum_by,
  sum_by-append, length-append, sub64, sub64_lem, u64_mod, ◌++◌, Bool-cases, inl, inr, ◌==◌, ◌%◌,
  ◌>>=◌, arith,
}
use astra_exchange.Base.Int.{ℤ}
use astra_exchange.Types.{Order}
use astra_exchange.Floating.{Floating}
use astra_exchange.LatencyTimer.Defs.{LatencyTimer, Stats, compute}
use astra_exchange.LatencyTimer.Bounds.{Scales, compute-Summary}
use astra_exchange.CsvParser.Defs.{parse_file}
use astra_exchange.Benchmark.Defs.{new_run, run_orders}
use astra_exchange.Benchmark.Accounts.{new_run-Counts}
use astra_exchange.Replay.Defs.{
  ReplayConfig, ReplayStats, Console, no_samples, new_replay, timed, show_errors, run_replay,
}
use astra_exchange.Replay.Same.{many, timed_all, replay_orders-replay_of, replay_orders-run_orders}

-- The readings of the clock go up, and fit a word.
abbrev pub Ticks : (ℕ → ℕ) → (ℕ → ℕ) → Type 0
Ticks begins ends = (n : ℕ) → (begins n ≤ ends n) × (ends n ≤ begins (suc n)) × (ends n < u64_mod)

-- How the latencies of a replay lie to each other.
abbrev pub Ordered : Stats → Type 0
Ordered st = (st.p50 ≤ st.p95) × (st.p95 ≤ st.p99) × (st.p99 ≤ st.max) × (st.mean ≤ st.max)

compute-Ordered :
    {D : Type 0} (fl : Floating D) (wall_ns : ℕ) (t : LatencyTimer)
    → Scales fl
    → sum_by (λ s. s) t.samples < u64_mod
    → (st : Stats) × (compute fl wall_ns t ≡ some st) × (st.count ≡ length t.samples) × Ordered st
unfolding compute
compute-Ordered fl wall_ns t sc w = elim (Bool-cases (length t.samples == 0)) [
  | inl y ↦ (
    record {
      p50 = 0;
      p95 = 0;
      p99 = 0;
      max = 0;
      mean = 0;
      throughput_ops_per_sec = 0;
      wall_ns = 0;
      count = 0;
    },
    rw y refl,
    ground (arith, y),
    omega arith,
  )
  | inr n ↦
      let (st, e, s) = compute-Summary fl wall_ns t sc (ground (arith, n)) w in
      let (a, b, c) = s.percentiles in (st, e, s.counted, (a, b, c, s.averaged))
]

-- What a replay reports of so many orders and trades.
pub record Reported (orders trades : ℕ) (st : ReplayStats Stats) : Type 0 where
  pub submitted : st.orders_submitted ≡ orders
  pub answered : st.orders_accepted + st.orders_rejected ≡ st.orders_submitted
  pub traded : st.trade_count ≡ trades % u64_mod
  pub counted : st.latency.count ≡ st.orders_submitted
  pub ordered : Ordered st.latency

module _ (print : ℕ → String) (default_string fixed_string : ℤ → String)
    (column : ℕ → String → String) (begins ends : ℕ → ℕ) (clock : ℕ → ℕ → ℕ)
    (cfg : ReplayConfig) where
  abbrev all_timed : List Order → LatencyTimer → LatencyTimer
  all_timed = timed_all print default_string fixed_string column begins ends clock cfg

  all_timed-sum :
      (os : List Order) (t : LatencyTimer)
      → Ticks begins ends
      → sum_by (λ s. s) t.samples ≤ begins (length t.samples)
      → let t' = all_timed os t in sum_by (λ s. s) t'.samples ≤ begins (length t'.samples)
  all_timed-sum [] t k h = h
  all_timed-sum (o ∷ os) t k h =
      let n = length t.samples in
      let s = sub64 (ends n) (begins n) in
      let (a, b, c) = k n in
      let l : length (t.samples ++ s ∷ []) ≡ suc n =
        omega (arith, length-append t.samples (s ∷ [])) in
      all_timed-sum os (timed begins ends t) k (
        omega (
          arith,
          h,
          a,
          b,
          c,
          sub64_lem (ends n) (begins n) a c,
          ap begins l,
          sum_by-append (λ s. s) t.samples (s ∷ []),
        ))

  samples-sum :
      (symbols : List String) (c : Console) (os : List Order)
      → Ticks begins ends
      → sum_by
          (λ s. s)
          (many print default_string fixed_string column begins ends clock cfg
            (new_replay symbols c)
            os).timer.samples
        < u64_mod
  unfolding new_replay new_run
  samples-sum symbols c os k =
      let e =
        replay_orders-replay_of print default_string fixed_string column begins ends clock cfg
          (new_run symbols) no_samples c os in
      let n = length (all_timed os no_samples).samples in
      let (a, b, d) = k n in
      let s = all_timed-sum os no_samples k (omega arith) in
      omega (arith, ap (λ p. sum_by (λ s. s) p.timer.samples) e, s, a, d)

  -- A replay of fewer than 2^64 orders returns its statistics: every order of the file is counted once, as
  -- accepted or as rejected, and each trade of the baseline run, modulo 2^64; the timer counts every order,
  -- and its percentiles ascend to the maximum, which the mean does not exceed. The clock's readings go up,
  -- and a product with a percentile's literal is within its factor and grows with it.
  pub run_replay-stats :
      {D : Type 0} (fl : Floating D) (stoull : String → Option ℕ) (fixed_price : String → Option ℤ)
      (wall_ns : ℕ) (symbols : List String) (file : Option (List String)) (c : Console)
      → Scales fl
      → Ticks begins ends
      → length (parse_file stoull fixed_price cfg.csv_path file).orders < u64_mod
      → (st : ReplayStats Stats) × ((run_replay print default_string fixed_string column begins ends
            clock cfg fl stoull fixed_price wall_ns symbols file c).0
          ≡ some st)
        × Reported
            (length (parse_file stoull fixed_price cfg.csv_path file).orders)
            (length
              (run_orders clock
                (new_run symbols)
                (parse_file stoull fixed_price cfg.csv_path file).orders).all_trades)
            st
  unfolding run_replay
  run_replay-stats fl stoull fixed_price wall_ns symbols file c sc k l =
      let parsed = parse_file stoull fixed_price cfg.csv_path file in
      let os = parsed.orders in
      let d = show_errors print parsed c in
      let (_, ea, er, et, en) =
        replay_orders-run_orders print default_string fixed_string column begins ends clock cfg
          symbols d os in
      let n = new_run-Counts clock symbols os l in
      let p =
        many print default_string fixed_string column begins ends clock cfg (new_replay symbols d)
          os in
      let s : sum_by (λ s. s) p.timer.samples < u64_mod = samples-sum symbols d os k in
      let report : Stats → ReplayStats Stats = λ latency. record {
        orders_submitted = length os % u64_mod;
        orders_accepted = p.accepted;
        orders_rejected = p.refused;
        trade_count = p.trades;
        latency = latency;
      } in
      let (latency, e, f, o) = compute-Ordered fl wall_ns p.timer sc s in
      (
        report latency,
        ap (λ m. m >>= λ latency. some (report latency)) e,
        record {
          submitted = omega (arith, l);
          answered = omega (arith, l, ea, er, n.orders);
          traded = et ∙ n.trades;
          counted = omega (arith, l, f, en);
          ordered = o;
        },
      )
