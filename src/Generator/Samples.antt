-- ===== src/Generator/Samples.antt =====
-- Whole numbers in place of doubles, and a counter in place of random numbers.
use astra_exchange.Base.{ℕ, suc, ◌+◌, ◌-◌, ◌*◌, arith, min, ltb, leb}
use astra_exchange.Base.Int.{pos, pos_part}
use astra_exchange.Floating.{Floating, Randomness, InRange}

abbrev pub whole : Floating ℕ
whole = record {
  literal = λ s. 1;
  plus = λ a b. a + b;
  minus = λ a b. a - b;
  times = λ a b. a * b;
  divided = λ a b. a;
  rounded = λ a. a;
  below = ltb;
  at_most = leb;
  of_integer = pos_part;
  truncate = pos;
}

abbrev pub counter : Randomness ℕ ℕ
counter = record {
  seeded = λ seed. seed;
  uniform_int = λ lo hi r. (min (lo + r) hi, suc r);
  uniform_real = λ lo hi r. (r, suc r);
  bernoulli = λ p r. (ltb r 20, suc r);
}

pub counter-InRange : InRange counter
counter-InRange lo hi r l = (omega (arith, l), omega arith)
