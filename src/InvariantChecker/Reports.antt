-- ===== src/InvariantChecker/Reports.antt =====
-- What a passing report of ids, of trades and of several reports says.
use astra_exchange.Base.{
  ℕ, suc, String, ◌<◌, ◌≡◌, ◌≢◌, ◌↔◌, refl, Bool, true, false, List, [], ◌∷◌, arith, All, All-map,
  ◌==◌, length,
}
use astra_exchange.Base.Int.{ℤ, pos, leb_ℤ}
use astra_exchange.Types.{Trade}
use astra_exchange.InvariantChecker.Defs.{
  InvariantViolation, Report, passing, flag, contains, join, merge_from, merge, check_trade,
  check_alone, check_both, check_trades, check_ids_from, check_unique_ids,
}

All-both {ℓ κ μ ν} :
    {A : Type ℓ} (P : A → Type κ) (Q : A → Type μ) (R : A → Type ν) (xs : List A)
    → ((a : A) → P a → Q a → R a)
    → All P xs
    → All Q xs
    → All R xs
All-both P Q R [] f h k = tt
All-both P Q R (x ∷ xs) f h k = (f x h.0 k.0, All-both P Q R xs f h.1 k.1)

flag-passed :
    (broken : Bool) (v : InvariantViolation) (r : Report)
    → ((flag broken v r).passed ≡ true) ↔ ((broken ≡ false) × (r.passed ≡ true))
flag-passed true v r = ground arith
flag-passed false v r = ground arith

-- No id stands twice.
abbrev pub Distinct : List ℕ → Type 0
Distinct [] = Unit {0}
Distinct (id ∷ ids) = All (λ j. id ≢ j) ids × Distinct ids

-- A trade that the checks accept without a context.
abbrev pub Sound : Trade → Type 0
Sound t = (leb_ℤ t.price (pos 0) ≡ false) × (0 < t.quantity)

module _ (price_string : ℤ → String) (id_string : ℕ → String) (fixed_string : ℤ → String) where
  abbrev ids_from : List ℕ → List ℕ → Report → Report
  ids_from = check_ids_from price_string id_string fixed_string

  ids_from-passed :
      (seen ids : List ℕ) (r : Report)
      → (ids_from seen ids r).passed ≡ true
      → (r.passed ≡ true) × All (λ j. contains j seen ≡ false) ids × Distinct ids
  unfolding check_ids_from
  ids_from-passed seen [] r h = (h, tt, tt)
  ids_from-passed seen (id ∷ ids) r h =
      let (k, a, d) = ids_from-passed (id ∷ seen) ids _ h in
      let g = (flag-passed (contains id seen) _ r).0 k in
      (
        g.1,
        (
          g.0,
          All-map (λ j. contains j (id ∷ seen) ≡ false) (λ j. contains j seen ≡ false) ids
              (λ j e. ground arith) a,
        ),
        (
          All-map (λ j. contains j (id ∷ seen) ≡ false) (λ j. id ≢ j) ids (λ j e. ground arith) a,
          d,
        ),
      )

  passed-ids_from :
      (seen ids : List ℕ) (r : Report)
      → r.passed ≡ true
      → All (λ j. contains j seen ≡ false) ids
      → Distinct ids
      → (ids_from seen ids r).passed ≡ true
  unfolding check_ids_from
  passed-ids_from seen [] r h a d = h
  passed-ids_from seen (id ∷ ids) r h a d =
      passed-ids_from (id ∷ seen) ids _ ((flag-passed (contains id seen) _ r).1 (a.0, h))
        (All-both (λ j. contains j seen ≡ false) (λ j. id ≢ j) (λ j. contains j (id ∷ seen) ≡ false)
          ids (λ j e n. ground arith) a.1 d.0)
        d.1

  contains-nil : (ids : List ℕ) → All (λ j. contains j [] ≡ false) ids
  contains-nil [] = tt
  contains-nil (id ∷ ids) = (refl, contains-nil ids)

  -- `checkUniqueIds` passes just where no id stands twice.
  pub check_unique_ids-Distinct :
      (ids : List ℕ)
      → ((check_unique_ids price_string id_string fixed_string ids).passed ≡ true) ↔ Distinct ids
  unfolding check_unique_ids
  check_unique_ids-Distinct ids = (
    λ h. (ids_from-passed [] ids passing h).2,
    λ d. passed-ids_from [] ids passing refl (contains-nil ids) d,
  )

  check_trade-passed :
      (t : Trade) (r : Report)
      → ((check_trade price_string id_string fixed_string t r).passed ≡ true)
        ↔ (Sound t × (r.passed ≡ true))
  unfolding check_trade
  check_trade-passed t r =
      let outer = flag-passed (t.quantity == 0) _ _ in
      let inner = flag-passed (leb_ℤ t.price (pos 0)) _ r in
      (
        λ h. let (q, k) = outer.0 h in let (p, g) = inner.0 k in ((p, ground arith), g),
        λ k. outer.1 (ground (arith, k.0.1), inner.1 (k.0.0, k.1)),
      )

  check_alone-passed :
      (ts : List Trade) (r : Report)
      → ((check_alone price_string id_string fixed_string ts r).passed ≡ true)
        ↔ (All Sound ts × (r.passed ≡ true))
  unfolding check_alone
  check_alone-passed [] r = (λ h. (tt, h), λ k. k.1)
  check_alone-passed (t ∷ ts) r =
      let rest = check_alone-passed ts (check_trade price_string id_string fixed_string t r) in
      let first = check_trade-passed t r in
      (
        λ h. let (a, k) = rest.0 h in let (q, g) = first.0 k in ((q, a), g),
        λ k. rest.1 (k.0.1, first.1 (k.0.0, k.1)),
      )

  -- Without a context, `checkTrades` passes just where each trade has a positive price and a
  -- nonzero quantity.
  pub check_trades-Sound :
      (ts : List Trade)
      → ((check_trades price_string id_string fixed_string ts []).passed ≡ true) ↔ All Sound ts
  unfolding check_trades check_both
  check_trades-Sound [] = (λ h. tt, λ a. refl)
  check_trades-Sound (t ∷ ts) =
      let e : (0 == suc (length ts)) ≡ false = ground arith in
      let all = check_alone-passed (t ∷ ts) passing in
      rw (e, check_alone) (λ h. (all.0 h).0, λ a. all.1 (a, refl))

merge_from-passed :
    (c : Report) (rs : List Report)
    → ((merge_from c rs).passed ≡ true) ↔ ((c.passed ≡ true) × All (λ r. r.passed ≡ true) rs)
unfolding merge_from
merge_from-passed c [] = (λ h. (h, tt), λ k. k.0)
merge_from-passed c (r ∷ rs) =
    let rest = merge_from-passed (join c r) rs in
    (
      λ h. let (k, a) = rest.0 h in (ground arith, (ground arith, a)),
      λ k. rest.1 (ground (arith, k.0, k.1.0), k.1.1),
    )

-- The merged report passes just where each report does.
pub merge-passed : (rs : List Report) → ((merge rs).passed ≡ true) ↔ All (λ r. r.passed ≡ true) rs
unfolding merge
merge-passed rs =
    (λ h. ((merge_from-passed passing rs).0 h).1, λ a. (merge_from-passed passing rs).1 (refl, a))
