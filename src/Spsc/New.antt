-- ===== src/Spsc/New.antt =====
-- A ring as it is constructed.
use native.Mathlib.Nat.{mod-eq_of_lt, two-pow-succ}
use astra_exchange.Base.{
  ℕ, zero, suc, ◌+◌, ◌-◌, ◌*◌, ◌%◌, ◌^◌, ◌≤◌, ◌<◌, ◌≡◌, refl, ap, ◌∙◌, sym, true, inl, inr, [],
  arith, ltb, length, u64_mod, raw_slots, Bool-cases,
}
use astra_exchange.Base.Loop.{while_inv}
use astra_exchange.Spsc.Defs.{next_pow2, new_ring}
use astra_exchange.Spsc.Fifo.{Models}

-- A power of two that fits a word.
abbrev Power : ℕ → Type 0
Power p = (k : ℕ) × (p ≡ 2 ^ k) × (0 < p) × (p < u64_mod)

double :
    (n p : ℕ)
    → n ≤ 2 ^ 63
    → Power p
    → ltb p n ≡ true
    → Power (p * 2 % u64_mod) × (n - p * 2 % u64_mod < n - p)
double n p b (k, e, z, w) h =
    let l : p < n = ground arith in
    let f : p * 2 % u64_mod ≡ p * 2 = omega (arith, l, b) in
    let g : p * 2 ≡ 2 ^ suc k = omega (arith, e, two-pow-succ k) in
    ((suc k, f ∙ g, omega (arith, f, z), omega (arith, f, l, b)), omega (arith, f, l, z))

-- `nextPow2` of a capacity of at most 2^63 is a power of two that is not below it.
next_pow2-Power : (n : ℕ) → n ≤ 2 ^ 63 → Power (next_pow2 n) × (n ≤ next_pow2 n) × (1 < next_pow2 n)
unfolding next_pow2
next_pow2-Power n b = elim (Bool-cases (ltb n 2)) [
  | inl y ↦ rw y ((1, omega arith, omega arith, omega arith), ground arith, omega arith)
  | inr z ↦
      let r =
        while_inv (λ p. ltb p n) (λ p. p * 2 % u64_mod) Power (λ p. n - p)
          (λ p i h. double n p b i h) (n + 1) 1 (omega arith)
          (0, omega arith, omega arith, omega arith) in
      rw z (r.0, ground (arith, r.1), ground (arith, r.1, z))
]

length-raw_slots {ℓ} : (A : Type ℓ) (n : ℕ) → length (raw_slots {A = A} n) ≡ n
length-raw_slots A zero = refl
length-raw_slots A (suc n) = ap suc (length-raw_slots A n)

module _ {ℓ} {A : Type ℓ} where
  -- The constructor, for a capacity of at most 2^63, gives a ring that models no item and has at
  -- least that many slots.
  pub new_ring-Models :
      (n : ℕ) → n ≤ 2 ^ 63 → Models (new_ring {A = A} n) [] × (n ≤ (new_ring {A = A} n).capacity)
  unfolding new_ring
  new_ring-Models n b =
      let ((k, e, z, w), h, v) = next_pow2-Power n b in
      (
        record {
          shape = record {
            bits = k;
            is_power = e;
            mask_eq = omega (arith, z, w);
            in_word = w;
            wide = v;
            storage = length-raw_slots A (next_pow2 n);
            head_in = z;
            fits = z;
            tail_eq = sym (mod-eq_of_lt z);
          };
          held = tt;
        },
        h,
      )
