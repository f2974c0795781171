-- ===== src/Generator/Made.antt =====
-- What each round of the generator gives.
use mathlib.Core.Path.{subst}
use astra_exchange.Base.{
  ℕ, suc, ◌-◌, ◌≤◌, ◌<◌, ◌≡◌, ◌≢◌, refl, ◌∙◌, sym, ◌⊎◌, inl, inr, String, none, some, List, [], ◌∷◌,
  ◌++◌, arith, length, get_elem?-some, sum_by-append, add64, u64_mod, ◌==◌, Bool-cases,
}
use astra_exchange.Base.Int.{ℤ, pos}
use astra_exchange.RiskValidator.{is_limit}
use astra_exchange.Types.{
  Side, buy, sell, OrderType, limit, market, cancel, ioc, fok, Order, new_order,
}
use astra_exchange.Floating.{Floating, Randomness, InRange}
use astra_exchange.Generator.Defs.{
  OrderGenerator, track, swap_remove, make_limit, make_market, make_cancel, make_crossing, make_ioc,
  make_fok, make_invalid,
}
use astra_exchange.Generator.Swap.{sum_by-swap_remove}
use astra_exchange.Generator.Stream.{
  Entry, Made, enlist, Sent, issued, cancels, Within, Within-removal,
}

-- The state after the orders that are sent.
pub record Keeps {R : Type 0} (live : List Entry) (k : ℕ) (g : OrderGenerator R) : Type 0 where
  pub numbered : g.id_counter ≡ k
  pub tracked : Within g.resting live

-- The order is one that may come next, and the state follows it.
abbrev pub Goes : {R : Type 0} → List Entry → ℕ → ℕ → Order × OrderGenerator R → Type 0
Goes live k ts p =
    Made ts p.0
    × ((live' : List Entry) × (k' : ℕ) × Sent p.0 live k live' k'
        × (k' ≤ suc k)
        × Keeps live' k' p.1)

-- A new order with the next id, and nothing else changed but the random numbers.
pub record Issued {R : Type 0} (ts : ℕ) (g : OrderGenerator R) (p : Order × OrderGenerator R)
    : Type 0 where
  pub made : Made ts p.0
  pub kind : p.0.type ≢ cancel
  pub given : p.0.id ≡ add64 g.id_counter 1
  pub next : p.1.id_counter ≡ add64 g.id_counter 1
  pub kept : p.1.resting ≡ g.resting

Within-enlist : (xs live : List Entry) (o : Order) → Within xs live → Within xs (enlist o live)
Within-enlist xs live o w f = elim (Bool-cases (is_limit o.type)) [
  | inl y ↦ rw y (omega (arith, w f))
  | inr n ↦ rw n (w f)
]

Within-track :
    (xs live : List Entry) (o : Order)
    → o.type ≡ limit
    → Within xs live
    → Within (xs ++ (o.symbol, o.id) ∷ []) (enlist o live)
Within-track xs live o e w f = rw e (omega (arith, w f, sum_by-append f xs ((o.symbol, o.id) ∷ [])))

module _ {R : Type 0} (live : List Entry) (k ts : ℕ) (g : OrderGenerator R) (keeps : Keeps live k g)
    (few : suc k < u64_mod) where
  counted : add64 g.id_counter 1 ≡ suc k
  counted = omega (arith, keeps.numbered, few)

  pub Issued-Goes : (p : Order × OrderGenerator R) → Issued ts g p → Goes live k ts p
  Issued-Goes p s = (
    s.made,
    (
      enlist p.0 live,
      suc k,
      issued s.kind (s.given ∙ counted),
      omega arith,
      record {
        numbered = s.next ∙ counted;
        tracked =
            subst (λ l. Within l (enlist p.0 live)) (sym s.kept)
              (Within-enlist g.resting live p.0 keeps.tracked);
      },
    ),
  )

  pub tracked-Goes :
      (p : Order × OrderGenerator R)
      → Issued ts g p
      → p.0.type ≡ limit
      → Goes live k ts (p.0, track p.0.symbol p.0.id p.1)
  tracked-Goes p s e = (
    s.made,
    (
      enlist p.0 live,
      suc k,
      issued s.kind (s.given ∙ counted),
      omega arith,
      record {
        numbered = s.next ∙ counted;
        tracked =
            subst (λ l. Within (l ++ (p.0.symbol, p.0.id) ∷ []) (enlist p.0 live)) (sym s.kept)
              (Within-track g.resting live p.0 e keeps.tracked);
      },
    ),
  )

new_order-Issued :
    {R : Type 0} (sym : String) (side : Side) (type : OrderType) (price : ℤ) (qty ts : ℕ)
    (g : OrderGenerator R) (r : R)
    → type ≢ cancel
    → qty ≤ 500
    → Issued ts g (
      new_order (add64 g.id_counter 1) sym side type price qty ts,
      record g { rng = r; id_counter = add64 g.id_counter 1 },
    )
unfolding new_order
new_order-Issued sym side type price qty ts g r n m = record {
  made = record { unfilled = refl; unanswered = refl; dated = refl; small = m };
  kind = n;
  given = refl;
  next = refl;
  kept = refl;
}

module _ {D R : Type 0} (fl : Floating D) (rn : Randomness D R) (fair : InRange rn) where
  drawn : (most : ℕ) (r : R) → 0 < most → most ≤ 500 → (rn.uniform_int 1 most r).0 ≤ 500
  drawn most r z m = omega (arith, m, fair 1 most r z)

  pub make_limit-Issued :
      (sym : String) (ts : ℕ) (g : OrderGenerator R) → Issued ts g (make_limit fl rn sym ts g)
  unfolding make_limit
  make_limit-Issued sym ts g =
      new_order-Issued sym _ limit _ _ ts g _ (λ e. cc) (drawn 500 _ (omega arith) (omega arith))

  pub make_limit-type :
      (sym : String) (ts : ℕ) (g : OrderGenerator R)
      → ((make_limit fl rn sym ts g).0.type ≡ limit) × ((make_limit fl rn sym ts g).0.symbol ≡ sym)
  unfolding make_limit new_order
  make_limit-type sym ts g = (refl, refl)

  pub make_market-Issued :
      (sym : String) (ts : ℕ) (g : OrderGenerator R) → Issued ts g (make_market fl rn sym ts g)
  unfolding make_market
  make_market-Issued sym ts g =
      new_order-Issued sym _ market _ _ ts g _ (λ e. cc) (drawn 200 _ (omega arith) (omega arith))

  make_crossing-Issued :
      (type : OrderType) (reach : String) (most : ℕ) (sym : String) (ts : ℕ) (g : OrderGenerator R)
      → type ≢ cancel
      → 0 < most
      → most ≤ 500
      → Issued ts g (make_crossing fl rn type reach most sym ts g)
  unfolding make_crossing
  make_crossing-Issued type reach most sym ts g n z m =
      new_order-Issued sym _ type _ _ ts g _ n (drawn most _ z m)

  pub make_ioc-Issued :
      (sym : String) (ts : ℕ) (g : OrderGenerator R) → Issued ts g (make_ioc fl rn sym ts g)
  unfolding make_ioc
  make_ioc-Issued sym ts g =
      make_crossing-Issued ioc "3" 150 sym ts g (λ e. cc) (omega arith) (omega arith)

  pub make_fok-Issued :
      (sym : String) (ts : ℕ) (g : OrderGenerator R) → Issued ts g (make_fok fl rn sym ts g)
  unfolding make_fok
  make_fok-Issued sym ts g =
      make_crossing-Issued fok "2" 80 sym ts g (λ e. cc) (omega arith) (omega arith)

  pub make_invalid-Issued :
      (sym : String) (ts : ℕ) (g : OrderGenerator R) → Issued ts g (make_invalid fl rn sym ts g)
  unfolding make_invalid
  make_invalid-Issued sym ts g =
      let (kind, r) = rn.uniform_int 0 2 g.rng in
      elim (Bool-cases (kind == 0)) [
        | inl y ↦ rw y (new_order-Issued sym buy limit _ 0 ts g r (λ e. cc) (omega arith))
        | inr n ↦ elim (Bool-cases (kind == 1)) [
          | inl y ↦
              rw (n, y) (new_order-Issued sym sell limit (pos 0) 100 ts g r (λ e. cc) (omega arith))
          | inr m ↦
              rw (n, m) (new_order-Issued "INVALID" buy limit _ 100 ts g r (λ e. cc) (omega arith))
        ]
      ]

  -- A cancel names an entry that rests, and takes it out; where nothing rests there is none.
  pub make_cancel-Goes :
      (live : List Entry) (k ts : ℕ) (g : OrderGenerator R)
      → Keeps live k g
      → (make_cancel fl rn ts g ≡ some (none, g))
        ⊎ ((o : Order) × (g' : OrderGenerator R) × (make_cancel fl rn ts g ≡ some (some o, g'))
            × Goes live k ts (o, g'))
  unfolding make_cancel new_order
  make_cancel-Goes live k ts g keeps = elim (Bool-cases (length g.resting == 0)) [
    | inl y ↦ inl (rw y refl)
    | inr n ↦
        let (idx, r) = rn.uniform_int 0 (length g.resting - 1) g.rng in
        let z : 0 < length g.resting = ground (arith, n) in
        let (x, e) =
          get_elem?-some g.resting idx
            (omega (arith, z, fair 0 (length g.resting - 1) g.rng (omega arith))) in
        let (before, after, q, w) =
          Within-removal x g.resting (swap_remove idx x g.resting) live keeps.tracked
            (λ f. sum_by-swap_remove f g.resting idx x e) in
        inr (
          new_order x.1 x.0 buy cancel (pos 0) 1 ts,
          record g { rng = r; resting = swap_remove idx x g.resting },
          rw (n, e) refl,
          (
            record { unfilled = refl; unanswered = refl; dated = refl; small = omega arith },
            (
              before ++ after,
              k,
              cancels before after refl q,
              omega arith,
              record { numbered = keeps.numbered; tracked = w },
            ),
          ),
        )
  ]
