-- ===== src/Bench/Program/Succeeds.antt =====
-- A benchmark succeeds.
use mathlib.Core.Path.{subst}
use mathlib.Core.Bool.{true≢false}
use mathlib.Core.Option.{some-injective}
use astra_exchange.Base.{
  ℕ, ◌^◌, ◌<◌, ◌≤◌, ◌≡◌, ◌≢◌, refl, ap, sym, ◌∙◌, String, Bool, true, false, Option, some, List, [],
  ◌∷◌, ◌++◌, All, length, u64_mod, arith, if◌then◌else◌, Bool-cases, inl, inr, ltb,
}
use astra_exchange.Base.Int.{ℤ}
use astra_exchange.Types.{Order}
use astra_exchange.MemoryPool.Defs.{u32_mod}
use astra_exchange.Floating.{Floating, Randomness, InRange}
use astra_exchange.Generator.Loop.{generate}
use astra_exchange.LatencyTimer.Defs.{Stats}
use astra_exchange.CsvParser.Lines.{Free}
use astra_exchange.Feed.EventLog.{concat}
use astra_exchange.Benchmark.Defs.{BenchmarkConfig, BenchmarkResult, pool}
use astra_exchange.Benchmark.PoolRun.Defs.{RunEnd, returned, undefined}
use astra_exchange.Benchmark.Pipeline.Defs.{ring_slots}
use astra_exchange.Benchmark.Modes.Defs.{generator_config, Runs}
use astra_exchange.Benchmark.Modes.Agree.{Runs-run_baseline}
use astra_exchange.Benchmark.Modes.Passes.{Runs-passes}
use astra_exchange.Benchmark.Table.Defs.{
  print_table, bar, rule_line, memory_rows, count_rows, latency_rows,
}
use astra_exchange.Benchmark.Csv.Defs.{mode_name}
use astra_exchange.Bench.Defs.{Outcome, runs, exits, throws, parse_args, default_config}
use astra_exchange.Bench.Render.{render, parse_args-render}
use astra_exchange.Bench.Program.Defs.{
  Ended, Ends, ran, anyhow, explained, finished, run_errors, running_line, appended_lines,
}

abbrev pub verdict : Bool → String
verdict verify =
    concat ("  Invariants: PASS (all " ∷ (if verify then "checked" else "skipped") ∷ ")" ∷ [])

-- The exit code is that of success, this line is in the output, and these are all the errors.
pub record Succeeded (line : String) (errors : List String) (e : Ended) : Type 0 where
  pub status : e.status ≡ 0
  pub err : e.err ≡ errors
  pub before : List String
  pub after : List String
  pub told : e.out ≡ before ++ line ∷ after

abbrev config_or : BenchmarkConfig → Outcome → BenchmarkConfig
config_or d (runs cfg) = cfg
config_or d (exits x) = d
config_or d throws = d

abbrev pub is_run : Outcome → Bool
is_run (runs cfg) = true
is_run (exits x) = false
is_run throws = false

abbrev result_or : BenchmarkResult Stats → RunEnd Stats → BenchmarkResult Stats
result_or r (returned s) = s
result_or r undefined = r

abbrev is_undefined : RunEnd Stats → Bool
is_undefined (returned r) = false
is_undefined undefined = true

module _ {D R : Type 0} (fl : Floating D) (rn : Randomness D R) (print : ℕ → String)
    (fixed : ℕ → D → String) (column : ℕ → String → String) where
  abbrev errors : Bool → BenchmarkConfig → List String
  errors is_open cfg = run_errors fl rn print fixed column is_open cfg

  finished-Succeeded :
      (is_open : Bool) (cfg : BenchmarkConfig) (r : BenchmarkResult Stats)
      → r.invariants.passed ≡ true
      → Succeeded
          (verdict cfg.verify_invariants)
          (errors is_open cfg)
          (finished fl rn print fixed column is_open cfg r)
  unfolding print_table
  finished-Succeeded is_open cfg r p =
      let memory = memory_rows fl print fixed column r.memory_kb in
      record {
        status = rw p refl;
        err = refl;
        before =
            running_line fl rn print fixed column cfg
              ∷ ""
              ∷ bar
              ∷ concat ("  AstraExchange Benchmark [" ∷ mode_name r.mode ∷ "]" ∷ [])
              ∷ bar
              ∷ count_rows fl print fixed column r cfg
            ++ (rule_line ∷ latency_rows fl print fixed column r.latency
                ++ (memory ++ rule_line ∷ []));
        after = bar ∷ "" ∷ appended_lines fl rn print fixed column cfg;
        told = elim (Bool-cases (ltb 0 r.memory_kb)) [
          | inl y ↦ rw (y, p, print_table) refl
          | inr n ↦ rw (n, p, print_table) refl
        ];
      }

  module _ (price_string : ℤ → String) (fixed_string : ℤ → String)
      (stoull stoul : String → Option ℕ) (latency : Stats) (memory : ℕ) (clock : ℕ → ℕ → ℕ)
      (is_open : Bool) (argv0 : String) where
    abbrev MainEnds : List String → Ended → Type 0
    MainEnds args e =
        Ends fl rn print fixed column price_string fixed_string stoull stoul latency memory clock
          is_open argv0 args e

    same_config :
        (args : List String) (cfg cfg' : BenchmarkConfig)
        → parse_args stoull stoul args default_config ≡ runs cfg
        → parse_args stoull stoul args default_config ≡ runs cfg'
        → cfg' ≡ cfg
    same_config args cfg cfg' q q' = ap (config_or cfg) (sym q' ∙ q)

    same_run :
        (args : List String) (x : RunEnd Stats) (cfg cfg' : BenchmarkConfig)
        (orders orders' : List Order)
        → parse_args stoull stoul args default_config ≡ runs cfg
        → parse_args stoull stoul args default_config ≡ runs cfg'
        → generate fl rn (generator_config fl cfg) ≡ some orders
        → generate fl rn (generator_config fl cfg') ≡ some orders'
        → Runs price_string print fixed_string latency memory clock cfg' orders' x
        → Runs price_string print fixed_string latency memory clock cfg orders x
    same_run args x cfg cfg' orders orders' q q' g g' m =
        let c = same_config args cfg cfg' q q' in
        let o : orders' ≡ orders =
          some-injective orders' orders
            (sym g' ∙ ap (λ c. generate fl rn (generator_config fl c)) c ∙ g) in
        subst (λ o. Runs price_string print fixed_string latency memory clock cfg o x) o
          (subst (λ c. Runs price_string print fixed_string latency memory clock c orders' x) c m)

    -- Over these orders, the program ends as some run over them does.
    Ends-runs :
        (args : List String) (cfg : BenchmarkConfig) (orders : List Order) (e : Ended)
        → parse_args stoull stoul args default_config ≡ runs cfg
        → generate fl rn (generator_config fl cfg) ≡ some orders
        → MainEnds args e
        → (x : RunEnd Stats) × Runs price_string print fixed_string latency memory clock cfg orders
            x
          × ((r : BenchmarkResult Stats)
              → x ≡ returned r
              → e ≡ finished fl rn print fixed column is_open cfg r)
    Ends-runs args cfg orders _ q g (ran cfg' orders' r q' g' m) = (
      returned r,
      same_run args (returned r) cfg cfg' orders orders' q q' g g' m,
      λ s f.
          let h : r ≡ s = ap (result_or r) f in
          ap (λ c. finished fl rn print fixed column is_open c r) (same_config args cfg cfg' q q')
          ∙ ap (λ r. finished fl rn print fixed column is_open cfg r) h,
    )
    Ends-runs args cfg orders e q g (anyhow cfg' orders' _ q' g' m) = (
      undefined,
      same_run args undefined cfg cfg' orders orders' q q' g g' m,
      λ s f. absurd (true≢false (ap is_undefined f)),
    )
    Ends-runs args cfg orders _ q g (explained x q') = absurd (true≢false (ap is_run (sym q ∙ q')))

    -- The benchmark, called with the arguments of a configuration in another mode than the pool's, ends, and
    -- however its threads are scheduled, it exits with 0, tells that the invariants hold, and writes no
    -- error but the warning for a CSV file that is wanted and cannot be opened. The configuration has at
    -- least two symbols, in whose names no comma stands, fewer than 2^32 orders, and a ring of at most 2^63
    -- slots; the library reads back the numbers that are printed, and the random draws are within their
    -- bounds.
    pub render-succeeds :
        (cfg : BenchmarkConfig) (f g : String) (fs : List String)
        → InRange rn
        → ((n : ℕ) → n < u64_mod → stoull (print n) ≡ some n)
        → ((n : ℕ) → n < u64_mod → stoul (print n) ≡ some n)
        → cfg.mode ≢ pool
        → cfg.symbols ≡ f ∷ g ∷ fs
        → All (λ s. Free "," s) (f ∷ g ∷ fs)
        → length cfg.symbols < u64_mod
        → cfg.order_count < u32_mod
        → cfg.seed < 2 ^ 32
        → cfg.pipeline_capacity < u64_mod
        → ring_slots cfg ≤ 2 ^ 63
        → ((e : Ended) × MainEnds (render print cfg) e)
          × ((e : Ended)
              → MainEnds (render print cfg) e
              → Succeeded
                  (verdict cfg.verify_invariants)
                  (run_errors fl rn print fixed column is_open cfg)
                  e)
    render-succeeds cfg f g fs fair p q o e h w c s n b =
        let z : 0 < length cfg.symbols = omega (arith, ap length e) in
        let a = parse_args-render stoull stoul print cfg f g fs p q e h (omega (arith, c)) s n in
        let (orders, d, (x, m), _) =
          Runs-run_baseline price_string print fixed_string latency memory clock cfg fl rn fair z w
            c b in
        let (orders', d', k) =
          Runs-passes price_string print fixed_string latency memory clock cfg fl rn fair z w c b in
        let same : orders ≡ orders' = some-injective orders orders' (sym d ∙ d') in
        let m' =
          subst (λ o. Runs price_string print fixed_string latency memory clock cfg o x) same m in
        (
          elim (k x m') [
            | inl (r, j, t) ↦ (
              _,
              ran cfg orders' r a d' (
                  subst (Runs price_string print fixed_string latency memory clock cfg orders') j
                    m'),
            )
            | inr (j, u, t) ↦ absurd (o u)
          ],
          λ e y.
              let (x, m, told) = Ends-runs (render print cfg) cfg orders' e a d' y in
              elim (k x m) [
                | inl (r, j, t) ↦
                    subst (Succeeded (verdict cfg.verify_invariants) (errors is_open cfg))
                      (sym (told r j)) (finished-Succeeded is_open cfg r t)
                | inr (j, u, t) ↦ absurd (o u)
              ],
        )
