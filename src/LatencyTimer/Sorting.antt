-- ===== src/LatencyTimer/Sorting.antt =====
-- Sorted samples: the sort keeps every sample, and of two places the later has no smaller one.
use native.Mathlib.Nat.{suc-mul}
use astra_exchange.Base.{
  ℕ, zero, suc, ◌+◌, ◌*◌, ◌≤◌, ◌<◌, ◌≡◌, refl, ap, ◌∙◌, inl, inr, some, List, [], ◌∷◌, arith,
  length, get_elem?, sum_by, All, All-map, add64, u64_mod, leb, Bool-cases, ◌==◌, if◌then◌else◌,
}
use astra_exchange.LatencyTimer.Defs.{insert, sort, total, largest}

abbrev pub Sorted : List ℕ → Type 0
Sorted [] = Unit
Sorted (x ∷ xs) = All (λ y. x ≤ y) xs × Sorted xs

insert-All : (P : ℕ → Type 0) (x : ℕ) (ys : List ℕ) → P x → All P ys → All P (insert x ys)
insert-All P x [] p a = (p, tt)
insert-All P x (y ∷ ys) p a = elim (Bool-cases (leb x y)) [
  | inl t ↦ rw t (p, a)
  | inr n ↦ rw n (a.0, insert-All P x ys p a.1)
]

insert-Sorted : (x : ℕ) (ys : List ℕ) → Sorted ys → Sorted (insert x ys)
insert-Sorted x [] s = (tt, tt)
insert-Sorted x (y ∷ ys) s = elim (Bool-cases (leb x y)) [
  | inl t ↦
      let l : x ≤ y = ground (arith, t) in
      rw t ((l, All-map (λ z. y ≤ z) (λ z. x ≤ z) ys (λ z h. omega (arith, h, l)) s.0), s)
  | inr n ↦ rw n (insert-All (λ z. y ≤ z) x ys (ground (arith, n)) s.0, insert-Sorted x ys s.1)
]

pub sort-Sorted : (xs : List ℕ) → Sorted (sort xs)
sort-Sorted [] = tt
sort-Sorted (x ∷ xs) = insert-Sorted x (sort xs) (sort-Sorted xs)

sum_by-insert : (f : ℕ → ℕ) (x : ℕ) (ys : List ℕ) → sum_by f (insert x ys) ≡ f x + sum_by f ys
sum_by-insert f x [] = refl
sum_by-insert f x (y ∷ ys) = ground (arith, sum_by-insert f x ys)

-- Each sample stands in the sorted list as often as before.
pub sum_by-sort : (f : ℕ → ℕ) (xs : List ℕ) → sum_by f (sort xs) ≡ sum_by f xs
sum_by-sort f [] = refl
sum_by-sort f (x ∷ xs) = omega (arith, sum_by-insert f x (sort xs), sum_by-sort f xs)

length-insert : (x : ℕ) (ys : List ℕ) → length (insert x ys) ≡ suc (length ys)
length-insert x [] = refl
length-insert x (y ∷ ys) = ground (arith, length-insert x ys)

pub length-sort : (xs : List ℕ) → length (sort xs) ≡ length xs
length-sort [] = refl
length-sort (x ∷ xs) = length-insert x (sort xs) ∙ ap suc (length-sort xs)

All-get_elem? : (P : ℕ → Type 0) (xs : List ℕ) (i a : ℕ) → All P xs → get_elem? xs i ≡ some a → P a
All-get_elem? P [] i a h e = cc
All-get_elem? P (x ∷ xs) zero a h e = let q : x ≡ a = cc in rw (← q) h.0
All-get_elem? P (x ∷ xs) (suc i) a h e = All-get_elem? P xs i a h.1 e

pub Sorted-le :
    (xs : List ℕ) (i j a b : ℕ)
    → Sorted xs
    → i ≤ j
    → get_elem? xs i ≡ some a
    → get_elem? xs j ≡ some b
    → a ≤ b
Sorted-le [] i j a b s l e f = cc
Sorted-le (x ∷ xs) zero zero a b s l e f = let q : a ≡ b = cc in omega (arith, q)
Sorted-le (x ∷ xs) zero (suc j) a b s l e f =
    let q : x ≡ a = cc in rw (← q) (All-get_elem? (λ z. x ≤ z) xs j b s.0 f)
Sorted-le (x ∷ xs) (suc i) zero a b s l e f = absurd (omega (arith, l))
Sorted-le (x ∷ xs) (suc i) (suc j) a b s l e f = Sorted-le xs i j a b s.1 (omega (arith, l)) e f

pub largest-last : (xs : List ℕ) (n : ℕ) → length xs ≡ suc n → get_elem? xs n ≡ some (largest xs)
largest-last [] n h = absurd (omega (arith, h))
largest-last (x ∷ []) zero h = refl
largest-last (x ∷ []) (suc n) h = absurd (omega (arith, h))
largest-last (x ∷ y ∷ xs) zero h = absurd (omega (arith, h))
largest-last (x ∷ y ∷ xs) (suc n) h = largest-last (y ∷ xs) n (omega (arith, h))

pub largest-All : (xs : List ℕ) → Sorted xs → All (λ x. x ≤ largest xs) xs
largest-All [] s = tt
largest-All (x ∷ []) s = (omega arith, tt)
largest-All (x ∷ y ∷ xs) s = let a = largest-All (y ∷ xs) s.1 in (omega (arith, s.0.0, a.0), a)

-- Where the sum of the samples fits a word, so does the total at every moment.
pub total-sum :
    (sum : ℕ) (xs : List ℕ)
    → sum + sum_by (λ x. x) xs < u64_mod
    → total sum xs ≡ sum + sum_by (λ x. x) xs
total-sum sum [] h = omega arith
total-sum sum (x ∷ xs) h =
    let e : add64 sum x ≡ sum + x = omega (arith, h) in
    total-sum (add64 sum x) xs (omega (arith, e, h)) ∙ omega (arith, e)

pub sum-le : (m : ℕ) (xs : List ℕ) → All (λ x. x ≤ m) xs → sum_by (λ x. x) xs ≤ length xs * m
sum-le m [] a = omega arith
sum-le m (x ∷ xs) a = omega (arith, a.0, sum-le m xs a.1, suc-mul (length xs) m)

insert-All_back : (P : ℕ → Type 0) (x : ℕ) (ys : List ℕ) → All P (insert x ys) → P x × All P ys
insert-All_back P x [] a = a
insert-All_back P x (y ∷ ys) a = elim (Bool-cases (leb x y)) [
  | inl t ↦ rw t at a
  | inr n ↦
      let b : P y × All P (insert x ys) = rw n at a in
      let (p, q) = insert-All_back P x ys b.1 in (p, (b.0, q))
]

-- What holds of each sorted sample holds of each sample.
pub sort-All_back : (P : ℕ → Type 0) (xs : List ℕ) → All P (sort xs) → All P xs
sort-All_back P [] a = tt
sort-All_back P (x ∷ xs) a =
    let (p, q) = insert-All_back P x (sort xs) a in (p, sort-All_back P xs q)

-- The value is one of the list's.
abbrev pub Among : ℕ → List ℕ → Type 0
Among a xs = 0 < sum_by (λ x. if x == a then 1 else 0) xs

pub get_elem?-Among : (xs : List ℕ) (i a : ℕ) → get_elem? xs i ≡ some a → Among a xs
get_elem?-Among [] i a e = cc
get_elem?-Among (x ∷ xs) zero a e = let q : x ≡ a = cc in ground (arith, q)
get_elem?-Among (x ∷ xs) (suc i) a e = omega (arith, get_elem?-Among xs i a e)
