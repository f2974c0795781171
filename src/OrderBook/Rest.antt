-- ===== src/OrderBook/Rest.antt =====
-- `restOrder`: the order joins the end of its price's level, in its place among the levels.
use astra_exchange.Base.{
  ℕ, ◌+◌, ◌<◌, ◌≡◌, ◌≢◌, refl, ◌∙◌, ◌⊎◌, inl, inr, true, none, some, List, [], ◌∷◌, ◌++◌, arith,
  if◌then◌else◌, ◌==◌, Option-cases, All-append, sum_by-append, u64_mod,
}
use astra_exchange.Base.Int.{ℤ}
use astra_exchange.Types.{Side, Order}
use astra_exchange.PriceLevel.{PriceLevel, new_level, add_order}
use astra_exchange.PriceMap
use astra_exchange.PriceMap.{ahead}
use astra_exchange.OrderBook.Defs.{Levels, rest_order}
use astra_exchange.OrderBook.Valid.{
  Rests, LevelValid, SideValid, level_qty, side_qty, open_qty, occurrences, occurs_at,
}
use astra_exchange.OrderBook.Places.{at_place}
use astra_exchange.OrderBook.Entry.{
  emplace-SideValid, update-SideValid, update-occurs, update-qty, update-has_key, emplace-occurs,
  emplace-qty, emplace-has_key, update-emplace, find-qty-le,
}

-- What `restOrder` does to the side.
pub record Rested (s : Side) (o : Order) (own m : Levels) : Type 0 where
  pub valid : SideValid s m
  pub qty : side_qty m ≡ side_qty own + open_qty o
  pub occurs : (i : ℕ) (q : ℤ) → occurs_at i q m ≡ occurs_at i q own + at_place o.id o.price i q
  pub keys : (q : ℤ) → PriceMap.has_key q m ≡ true → (o.price ≡ q) ⊎ (PriceMap.has_key q own ≡ true)

snoc-ne-nil : (o : Order) (os : List Order) → os ++ o ∷ [] ≢ []
snoc-ne-nil o [] h = cc
snoc-ne-nil o (x ∷ os) h = cc

module _ (s : Side) (o : Order) (own : Levels) (r : Rests s o.price o) (v : SideValid s own)
    (b : side_qty own + open_qty o < u64_mod) where
  new_level-add_order :
      LevelValid s o.price (add_order o (new_level o.price))
      × ((add_order o (new_level o.price)).orders ≡ o ∷ [])
  unfolding add_order new_level
  new_level-add_order = (
    record {
      keyed = refl;
      nonempty = λ h. cc;
      resting = (r, tt);
      totalled = omega (arith, r.is_open, r.in_word);
    },
    refl,
  )

  add_order-level_qty : (l : PriceLevel) → level_qty (add_order o l) ≡ level_qty l + open_qty o
  unfolding add_order
  add_order-level_qty l = omega (arith, sum_by-append {0} open_qty l.orders (o ∷ []))

  add_order-occurrences :
      (i : ℕ) (l : PriceLevel)
      → occurrences i (add_order o l).orders ≡ occurrences i l.orders + (if o.id == i then 1 else 0)
  unfolding add_order
  add_order-occurrences i l =
      sum_by-append (λ x. if x.id == i then 1 else 0) l.orders (o ∷ []) ∙ omega arith

  add_order-LevelValid :
      (l : PriceLevel)
      → level_qty l + open_qty o < u64_mod
      → LevelValid s o.price l
      → LevelValid s o.price (add_order o l)
  unfolding add_order
  add_order-LevelValid l h w = record {
    keyed = w.keyed;
    nonempty = snoc-ne-nil o l.orders;
    resting = All-append _ l.orders (o ∷ []) w.resting (r, tt);
    totalled =
        omega
          (arith, sum_by-append {0} open_qty l.orders (o ∷ []), w.totalled, r.is_open, r.in_word);
  }

  rest_order-new :
      PriceMap.find o.price own ≡ none
      → rest_order s o own ≡ PriceMap.emplace s o.price (add_order o (new_level o.price)) own
  unfolding rest_order
  rest_order-new e =
      rw (e, rest_order) (update-emplace s o.price (add_order o) (new_level o.price) own e)

  rest_order-old :
      (l : PriceLevel)
      → PriceMap.find o.price own ≡ some l
      → rest_order s o own ≡ PriceMap.update o.price (add_order o) own
  unfolding rest_order
  rest_order-old l e = rw (e, rest_order) refl

  rest_new : PriceMap.find o.price own ≡ none → Rested s o own (rest_order s o own)
  rest_new e =
      let l : PriceLevel = add_order o (new_level o.price) in
      let a = new_level-add_order in
      let n : level_qty l ≡ open_qty o = rw a.1 (omega arith) in
      rw (rest_order-new e) (record {
        valid = emplace-SideValid s o.price l own a.0 v e;
        qty = rw (emplace-qty s o.price l own e, n) refl;
        occurs = λ i q. rw (emplace-occurs s i q o.price l own e, a.1) (ground arith);
        keys = λ q h. emplace-has_key s q o.price l own h;
      })

  rest_old :
      (l : PriceLevel) → PriceMap.find o.price own ≡ some l → Rested s o own (rest_order s o own)
  rest_old l e = rw (rest_order-old l e) (record {
    valid =
        update-SideValid s o.price (add_order o) own l e
          (add_order-LevelValid l (omega (arith, find-qty-le o.price own l e))) v;
    qty = omega (arith, update-qty o.price (add_order o) own l e, add_order-level_qty l);
    occurs = λ i q.
        ground (arith, update-occurs i q o.price (add_order o) own l e, add_order-occurrences i l);
    keys = λ q h. inr (update-has_key q o.price (add_order o) own h);
  })

  pub rest_order-Rested : Rested s o own (rest_order s o own)
  rest_order-Rested = elim (Option-cases (PriceMap.find o.price own)) [
    | inl e ↦ rest_new e
    | inr (l, e) ↦ rest_old l e
  ]
