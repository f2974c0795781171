-- ===== src/Floating.antt =====
-- What the program uses of `double`, of `std::mt19937` and of the distributions of the standard library, as
-- interfaces; and the conversions of include/core/Types.hpp between prices and doubles.
use astra_exchange.Base.{ℕ, ◌≤◌, String, Bool}
use astra_exchange.Base.Int.{ℤ}

-- The operations on doubles. A literal is given by its text, `truncate` is a cast to an integer.
pub record Floating (D : Type 0) : Type 0 where
  pub literal : String → D
  pub plus : D → D → D
  pub minus : D → D → D
  pub times : D → D → D
  pub divided : D → D → D
  pub rounded : D → D
  pub below : D → D → Bool
  pub at_most : D → D → Bool
  pub of_integer : ℤ → D
  pub truncate : D → ℤ

-- An engine of random numbers with the distributions that draw from it; a draw changes the engine.
pub record Randomness (D R : Type 0) : Type 0 where
  pub seeded : ℕ → R
  pub uniform_int : ℕ → ℕ → R → ℕ × R
  pub uniform_real : D → D → R → D × R
  pub bernoulli : D → R → Bool × R

-- `std::uniform_int_distribution(lo, hi)` draws from the closed interval.
abbrev pub InRange : {D R : Type 0} → Randomness D R → Type 0
InRange rn =
    (lo hi : ℕ) (r : _)
    → lo ≤ hi
    → (lo ≤ (rn.uniform_int lo hi r).0) × ((rn.uniform_int lo hi r).0 ≤ hi)

module _ {D : Type 0} (fl : Floating D) where
  unfoldable pub to_fixed_price : D → ℤ
  to_fixed_price p = fl.truncate (fl.plus (fl.times p (fl.literal "10000")) (fl.literal "0.5"))

  unfoldable pub from_fixed_price : ℤ → D
  from_fixed_price p = fl.divided (fl.of_integer p) (fl.literal "10000")
