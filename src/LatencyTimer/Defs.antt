-- ===== src/LatencyTimer/Defs.antt =====
-- The timer's state and statistics. A reading of the clock is a count of nanoseconds, and `none` is a read beyond
-- the end of the samples.
use astra_exchange.Base.{
  ℕ, ◌-◌, ◌/◌, ◌==◌, ◌>>=◌, String, Option, some, List, [], ◌∷◌, ◌++◌, length, get_elem?, add64,
  sub64, leb, ltb, if◌then◌else◌,
}
use astra_exchange.Base.Int.{pos, pos_part}
use astra_exchange.Floating.{Floating}

pub record LatencyTimer : Type 0 where
  pub t0 : ℕ
  pub samples : List ℕ

pub record Stats : Type 0 where
  pub p50 : ℕ
  pub p95 : ℕ
  pub p99 : ℕ
  pub max : ℕ
  pub mean : ℕ
  pub throughput_ops_per_sec : ℕ
  pub wall_ns : ℕ
  pub count : ℕ

abbrev pub start : ℕ → LatencyTimer → LatencyTimer
start now t = record t { t0 = now }

abbrev pub stop : ℕ → LatencyTimer → LatencyTimer
stop now t = record t { samples = t.samples ++ sub64 now t.t0 ∷ [] }

-- `std::sort`.
abbrev pub insert : ℕ → List ℕ → List ℕ
insert x [] = x ∷ []
insert x (y ∷ ys) = let rest = insert x ys in if leb x y then x ∷ y ∷ ys else y ∷ rest

abbrev pub sort : List ℕ → List ℕ
sort [] = []
sort (x ∷ xs) = insert x (sort xs)

abbrev pub total : ℕ → List ℕ → ℕ
total sum [] = sum
total sum (s ∷ ss) = total (add64 sum s) ss

-- `back`, of samples that are not empty.
abbrev pub largest : List ℕ → ℕ
largest [] = 0
largest (x ∷ []) = x
largest (x ∷ y ∷ xs) = largest (y ∷ xs)

module _ {D : Type 0} (fl : Floating D) where
  abbrev pub percentile_index : String → ℕ → ℕ
  percentile_index pct last =
      pos_part (fl.truncate (fl.times (fl.literal pct) (fl.of_integer (pos last))))

  unfoldable pub percentile : String → List ℕ → Option ℕ
  percentile pct sorted = get_elem? sorted (percentile_index pct (length sorted - 1))

  abbrev pub throughput : ℕ → ℕ → ℕ
  throughput count wall_ns =
      if ltb 0 wall_ns
      then pos_part (
          fl.truncate (
            fl.times (fl.divided (fl.of_integer (pos count)) (fl.of_integer (pos wall_ns)))
              (fl.literal "1e9")))
      else 0

  abbrev pub stats_of : ℕ → List ℕ → ℕ → ℕ → ℕ → Stats
  stats_of wall_ns sorted p50 p95 p99 = record {
    p50 = p50;
    p95 = p95;
    p99 = p99;
    max = largest sorted;
    mean = total 0 sorted / length sorted;
    throughput_ops_per_sec = throughput (length sorted) wall_ns;
    wall_ns = wall_ns;
    count = length sorted;
  }

  unfoldable pub compute : ℕ → LatencyTimer → Option Stats
  compute wall_ns t =
      if length t.samples == 0
      then some (record {
        p50 = 0;
        p95 = 0;
        p99 = 0;
        max = 0;
        mean = 0;
        throughput_ops_per_sec = 0;
        wall_ns = 0;
        count = 0;
      })
      else (do
        p50 ← percentile "0.50" (sort t.samples)
        p95 ← percentile "0.95" (sort t.samples)
        p99 ← percentile "0.99" (sort t.samples)
        some (stats_of wall_ns (sort t.samples) p50 p95 p99))
