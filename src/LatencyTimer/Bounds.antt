-- ===== src/LatencyTimer/Bounds.antt =====
-- How the statistics of a run lie to each other.
use native.Mathlib.Nat.{div-le_of_le-mul}
use astra_exchange.Base.{
  ℕ, suc, ◌-◌, ◌≤◌, ◌<◌, ◌≡◌, refl, ap, ◌∙◌, String, some, List, arith, length, get_elem?,
  get_elem?-some, sum_by, All, u64_mod, false, if◌then◌else◌, ◌==◌,
}
use astra_exchange.Floating.{Floating}
use astra_exchange.LatencyTimer.Defs.{
  LatencyTimer, Stats, sort, largest, percentile_index, percentile, stats_of, compute,
}
use astra_exchange.LatencyTimer.Sorting.{
  sort-Sorted, sum_by-sort, length-sort, Sorted-le, largest-last, largest-All, total-sum, sum-le,
  sort-All_back, Among, get_elem?-Among,
}

-- A product with a literal below 1, cut to an integer, grows with the literal and stays within the factor.
abbrev pub Scales : {D : Type 0} → Floating D → Type 0
Scales fl =
    (n : ℕ)
    → (percentile_index fl "0.50" n ≤ percentile_index fl "0.95" n)
      × (percentile_index fl "0.95" n ≤ percentile_index fl "0.99" n)
      × (percentile_index fl "0.99" n ≤ n)

pub record Summary (samples : List ℕ) (st : Stats) : Type 0 where
  pub counted : st.count ≡ length samples
  pub percentiles : (st.p50 ≤ st.p95) × (st.p95 ≤ st.p99) × (st.p99 ≤ st.max)
  pub sampled :
      Among st.p50 samples × Among st.p95 samples × Among st.p99 samples × Among st.max samples
  pub topped : All (λ s. s ≤ st.max) samples
  pub averaged : st.mean ≤ st.max

module _ {D : Type 0} (fl : Floating D) where
  -- The place that a percentile reads.
  percentile-some :
      (pct : String) (xs : List ℕ) (n : ℕ)
      → length xs ≡ suc n
      → percentile_index fl pct n ≤ n
      → (a : ℕ) × (percentile fl pct xs ≡ some a)
        × (get_elem? xs (percentile_index fl pct n) ≡ some a)
  unfolding percentile
  percentile-some pct xs n l b =
      let (a, e) = get_elem?-some xs (percentile_index fl pct n) (omega (arith, l, b)) in
      let q : length xs - 1 ≡ n = omega (arith, l) in
      (a, ap (λ m. get_elem? xs (percentile_index fl pct m)) q ∙ e, e)

  Among-sort : (xs : List ℕ) (i a : ℕ) → get_elem? (sort xs) i ≡ some a → Among a xs
  Among-sort xs i a e =
      omega (arith, get_elem?-Among (sort xs) i a e, sum_by-sort (λ x. if x == a then 1 else 0) xs)

  -- The statistics of at least one sample, whose sum fits a word, are there: the percentiles are samples and
  -- ascend to the maximum, no sample is above it, and neither is the mean. The product with a percentile's
  -- literal is within its factor and grows with it.
  pub compute-Summary :
      (wall_ns : ℕ) (t : LatencyTimer)
      → Scales fl
      → 0 < length t.samples
      → sum_by (λ s. s) t.samples < u64_mod
      → (st : Stats) × (compute fl wall_ns t ≡ some st) × Summary t.samples st
  unfolding compute
  compute-Summary wall_ns t sc z w =
      let xs = sort t.samples in
      let n = length t.samples - 1 in
      let l : length xs ≡ suc n = omega (arith, length-sort t.samples, z) in
      let (b, c, d) = sc n in
      let (p50, e, e') = percentile-some "0.50" xs n l (omega (arith, b, c, d)) in
      let (p95, f, f') = percentile-some "0.95" xs n l (omega (arith, c, d)) in
      let (p99, g, g') = percentile-some "0.99" xs n l d in
      let s = sort-Sorted t.samples in
      let last = largest-last xs n l in
      let q : (length t.samples == 0) ≡ false = ground (arith, z) in
      (
        stats_of fl wall_ns xs p50 p95 p99,
        rw (q, e, f, g) refl,
        record {
          counted = length-sort t.samples;
          percentiles = (
            Sorted-le xs (percentile_index fl "0.50" n) (percentile_index fl "0.95" n) p50 p95 s b
                e' f',
            Sorted-le xs (percentile_index fl "0.95" n) (percentile_index fl "0.99" n) p95 p99 s c
                f' g',
            Sorted-le xs (percentile_index fl "0.99" n) n p99 (largest xs) s d g' last,
          );
          sampled = (
            Among-sort t.samples (percentile_index fl "0.50" n) p50 e',
            Among-sort t.samples (percentile_index fl "0.95" n) p95 f',
            Among-sort t.samples (percentile_index fl "0.99" n) p99 g',
            Among-sort t.samples n (largest xs) last,
          );
          topped = sort-All_back (λ x. x ≤ largest xs) t.samples (largest-All xs s);
          averaged = div-le_of_le-mul (length xs) (
              omega (
                arith,
                total-sum 0 xs (omega (arith, w, sum_by-sort (λ x. x) t.samples)),
                sum-le (largest xs) xs (largest-All xs s),
              ));
        },
      )
