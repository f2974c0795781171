-- ===== src/Spsc/Slots.antt =====
-- Items in consecutive slots, going round at the capacity.
use native.Mathlib.Nat.{mod-eq_of_lt, mod-add-mod, mod-lt, mod-eq-sub-mod}
use astra_exchange.Base.{
  ℕ, suc, ◌+◌, ◌-◌, ◌%◌, ◌<◌, ◌≡◌, ◌≢◌, ap, ◌∙◌, sym, false, Option, some, List, [], ◌∷◌, ◌++◌,
  arith, length, get_elem?, set, ◌==◌, get-set_self, get-set_ne, dec_lt,
}
use mathlib.Core.Path.{subst}

module _ {ℓ} {A : Type ℓ} where
  -- The items stand in the slots from `h` on, going round at `cap`.
  abbrev pub Holds : List (Option A) → ℕ → ℕ → List A → Type ℓ
  Holds slots cap h [] = Unit
  Holds slots cap h (x ∷ xs) =
      (get_elem? slots h ≡ some (some x)) × Holds slots cap ((h + 1) % cap) xs

-- One step on does not come back, in a ring of more than that many slots.
pub round_ne : (cap h k : ℕ) → h < cap → suc k < cap → (h + suc k) % cap ≢ h
round_ne cap h k p q e = elim (dec_lt (h + suc k) cap) [
  | yes y ↦ absurd (omega (arith, mod-eq_of_lt y, e))
  | no n ↦
      let f : (h + suc k) % cap ≡ h + suc k - cap =
        mod-eq-sub-mod {n = h + suc k} {m = cap} (omega arith) ∙ mod-eq_of_lt (omega arith) in
      absurd (omega (arith, f, e))
]

pub differ-ne : {a b : ℕ} → (a == b) ≡ false → a ≢ b
differ-ne {a} {b} h = ground arith

pub ne-differ : {a b : ℕ} → a ≢ b → (a == b) ≡ false
ne-differ {a} {b} h = ground arith

pub full_round : (cap h k : ℕ) → h < cap → suc k ≡ cap → (h + suc k) % cap ≡ h
full_round cap h k p e =
    mod-eq-sub-mod {n = h + suc k} {m = cap} (omega (arith, e))
    ∙ ap (λ n. n % cap) (omega (arith, e))
    ∙ mod-eq_of_lt p

pub shift : (cap h k : ℕ) → ((h + 1) % cap + k) % cap ≡ (h + suc k) % cap
shift cap h k = mod-add-mod (h + 1) cap k ∙ ap (λ n. n % cap) (omega arith)

module _ {ℓ} {A : Type ℓ} where
  -- A write that meets no item's slot leaves the items.
  pub Holds-away :
      (slots : List (Option A)) (cap h j : ℕ) (v : Option A) (xs : List A)
      → h < cap
      → ((i : ℕ) → i < length xs → (h + i) % cap ≢ j)
      → Holds slots cap h xs
      → Holds (set slots j v) cap h xs
  Holds-away slots cap h j v [] p away held = tt
  Holds-away slots cap h j v (x ∷ xs) p away held =
      let z : 0 < cap = omega (arith, p) in
      let e : (h + 0) % cap ≡ h = ap (λ n. n % cap) (omega arith) ∙ mod-eq_of_lt p in
      (
        get-set_ne slots j h v (λ q. away 0 (omega arith) (e ∙ sym q)) ∙ held.0,
        Holds-away slots cap ((h + 1) % cap) j v xs (mod-lt (h + 1) z)
            (λ i q. rw (shift cap h i) (away (suc i) (omega (arith, q)))) held.1,
      )

  pub Holds-snoc :
      (slots : List (Option A)) (cap h : ℕ) (y : A) (xs : List A)
      → length slots ≡ cap
      → h < cap
      → length xs < cap
      → Holds slots cap h xs
      → Holds (set slots ((h + length xs) % cap) (some y)) cap h (xs ++ y ∷ [])
  Holds-snoc slots cap h y [] e p q held =
      let f : (h + 0) % cap ≡ h = ap (λ n. n % cap) (omega arith) ∙ mod-eq_of_lt p in
      (rw f (get-set_self slots h (some y) (omega (arith, e, p))), tt)
  Holds-snoc slots cap h y (x ∷ xs) e p q held =
      let z : 0 < cap = omega (arith, p) in
      (
        get-set_ne slots ((h + suc (length xs)) % cap) h (some y) (round_ne cap h (length xs) p q)
            ∙ held.0,
        subst (λ j. Holds (set slots j (some y)) cap ((h + 1) % cap) (xs ++ y ∷ []))
            (shift cap h (length xs))
            (Holds-snoc slots cap ((h + 1) % cap) y xs e (mod-lt (h + 1) z) (omega (arith, q))
              held.1),
      )
