-- ===== src/Bench/Program/Refuses.antt =====
-- The benchmark ends before a run.
use mathlib.Core.Bool.{true≢false}
use Prim.Native.String.{◌++◌ as str_append}
use astra_exchange.Base.{ℕ, ◌≡◌, ap, sym, ◌∙◌, Bool, String, Option, List, [], ◌∷◌, ◌++◌}
use astra_exchange.Base.Int.{ℤ}
use astra_exchange.Floating.{Floating, Randomness}
use astra_exchange.LatencyTimer.Defs.{Stats}
use astra_exchange.Benchmark.Defs.{BenchmarkConfig}
use astra_exchange.Bench.Defs.{
  Exit, helped, unknown, exit_code_of, Outcome, runs, exits, throws, parse_args, default_config,
}
use astra_exchange.Bench.Arguments.{Unknown, parse_args-exits}
use astra_exchange.Bench.Program.Defs.{Ended, Ends, ran, anyhow, explained, print_usage, exit_lines}
use astra_exchange.Bench.Program.Succeeds.{is_run}

abbrev exit_or : Exit → Outcome → Exit
exit_or x (runs cfg) = x
exit_or x (exits y) = y
exit_or x throws = x

module _ {D R : Type 0} (fl : Floating D) (rn : Randomness D R) (print : ℕ → String)
    (fixed : ℕ → D → String) (column : ℕ → String → String) (price_string : ℤ → String)
    (fixed_string : ℤ → String) (stoull stoul : String → Option ℕ) (latency : Stats) (memory : ℕ)
    (clock : ℕ → ℕ → ℕ) (is_open : Bool) (argv0 : String) where
  abbrev pub Main : List String → Ended → Type 0
  Main =
      Ends fl rn print fixed column price_string fixed_string stoull stoul latency memory clock
        is_open argv0

  -- The arguments end the program in this one way.
  abbrev pub OnlyEnds : List String → Ended → Type 0
  OnlyEnds args e = Main args e × ((f : Ended) → Main args f → f ≡ e)

  abbrev pub left_with : Exit → Ended
  left_with x = record { out = []; err = exit_lines argv0 x; status = exit_code_of x }

  Ends-left_with :
      (args : List String) (x : Exit) (e : Ended)
      → parse_args stoull stoul args default_config ≡ exits x
      → Main args e
      → e ≡ left_with x
  Ends-left_with args x _ q (ran cfg orders r q' g m) = absurd (true≢false (ap is_run (sym q' ∙ q)))
  Ends-left_with args x e q (anyhow cfg orders _ q' g m) =
      absurd (true≢false (ap is_run (sym q' ∙ q)))
  Ends-left_with args x _ q (explained y q') = ap left_with (ap (exit_or x) (sym q' ∙ q))

  exits-OnlyEnds :
      (args : List String) (x : Exit)
      → parse_args stoull stoul args default_config ≡ exits x
      → OnlyEnds args (left_with x)
  exits-OnlyEnds args x q = (explained x q, λ e h. Ends-left_with args x e q h)

  -- After arguments that are read to their end, an argument that is no option of the program ends it with code
  -- 1 and a line with that name before the usage, and each of `--help` and `-h` ends it with code 0 and the usage alone;
  -- all is written to the standard error, and no benchmark runs.
  pub Ends-refuses :
      (args rest : List String) (a : String) (c : BenchmarkConfig)
      → parse_args stoull stoul args default_config ≡ runs c
      → Unknown a
      → OnlyEnds (args ++ a ∷ rest) (record {
        out = [];
        err = str_append "Unknown option: " a ∷ print_usage argv0;
        status = 1;
      })
        × OnlyEnds
            (args ++ "--help" ∷ rest)
            (record { out = []; err = print_usage argv0; status = 0 })
        × OnlyEnds (args ++ "-h" ∷ rest) (record { out = []; err = print_usage argv0; status = 0 })
  Ends-refuses args rest a c e k =
      let (u, h, s) = parse_args-exits stoull stoul args rest a default_config c e in
      (
        exits-OnlyEnds (args ++ a ∷ rest) (unknown a) (u k),
        exits-OnlyEnds _ helped h,
        exits-OnlyEnds _ helped s,
      )
