-- ===== src/Generator/Swap.antt =====
-- The removal of a resting order, whose place the last one takes.
use astra_exchange.Base.{
  ℕ, zero, suc, ◌+◌, ◌<◌, ◌≡◌, refl, ap, some, List, [], ◌∷◌, arith, length, get_elem?, set, sum_by,
  length-set,
}
use astra_exchange.Generator.Defs.{back, pop_back, swap_remove}
use astra_exchange.Generator.Stream.{Entry}

sum_by-set :
    (f : Entry → ℕ) (xs : List Entry) (i : ℕ) (x y : Entry)
    → get_elem? xs i ≡ some x
    → sum_by f (set xs i y) + f x ≡ sum_by f xs + f y
sum_by-set f [] i x y e = cc
sum_by-set f (z ∷ xs) zero x y e = let g : z ≡ x = cc in omega (arith, ap f g)
sum_by-set f (z ∷ xs) (suc i) x y e = omega (arith, sum_by-set f xs i x y e)

sum_by-pop_back :
    (f : Entry → ℕ) (x : Entry) (xs : List Entry)
    → 0 < length xs
    → sum_by f (pop_back xs) + f (back x xs) ≡ sum_by f xs
sum_by-pop_back f x [] h = absurd (omega (arith, h))
sum_by-pop_back f x (y ∷ []) h = omega arith
sum_by-pop_back f x (y ∷ z ∷ xs) h = omega (arith, sum_by-pop_back f x (z ∷ xs) (omega arith))

-- Written over any entry, the last one is still the last.
back-set : (x y v : Entry) (xs : List Entry) (i : ℕ) → back y xs ≡ v → back x (set (y ∷ xs) i v) ≡ v
back-set x y v [] zero e = refl
back-set x y v (z ∷ xs) zero e = e
back-set x y v [] (suc i) e = e
back-set x y v (z ∷ xs) (suc i) e = back-set y z v xs i e

-- The swap with the last entry takes out the one that is named.
pub sum_by-swap_remove :
    (f : Entry → ℕ) (xs : List Entry) (i : ℕ) (x : Entry)
    → get_elem? xs i ≡ some x
    → sum_by f (swap_remove i x xs) + f x ≡ sum_by f xs
sum_by-swap_remove f [] i x e = cc
sum_by-swap_remove f (y ∷ xs) i x e =
    let b = back y xs in
    let s = set (y ∷ xs) i b in
    omega (
      arith,
      sum_by-pop_back f x s (omega (arith, length-set (y ∷ xs) i b)),
      ap f (back-set x y b xs i refl),
      sum_by-set f (y ∷ xs) i x b e,
    )
