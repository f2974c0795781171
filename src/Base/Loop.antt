-- ===== src/Base/Loop.antt =====
-- A `while` loop that is given a number of rounds, and the rule for what it keeps.
use Prim.Native.Nat.{ℕ, zero, suc, ◌<◌}
use mathlib.Core.Path.{◌≡◌}
use mathlib.Core.Bool.{Bool, true, false}
use native.Mathlib.Omega.{arith}

module _ {ℓ} {S : Type ℓ} (test : S → Bool) (body : S → S) where
  unfoldable pub while : ℕ → S → S
  while zero s = s
  while (suc rounds) s = elim (test s) [ false ↦ s | true ↦ while rounds (body s) ]

  -- Where each round has less left, and there are rounds enough, the test is what ends the loop.
  pub while_inv {κ} :
      (Inv : S → Type κ) (left : S → ℕ)
      → ((s : S) → Inv s → test s ≡ true → Inv (body s) × (left (body s) < left s))
      → (rounds : ℕ) (s : S) → left s < rounds
      → Inv s
      → Inv (while rounds s) × (test (while rounds s) ≡ false)
  unfolding while
  while_inv Inv left each zero s l i = absurd (omega arith)
  while_inv Inv left each (suc rounds) s l i =
      ground (arith, each s i, while_inv Inv left each rounds (body s))
