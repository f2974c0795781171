-- ===== src/OrderBook/Shares/Defs.antt =====
-- The quantity under one id, in the trades and at rest.
use astra_exchange.Base.{
  ℕ, ◌+◌, ◌≡◌, refl, inl, inr, none, some, List, [], ◌∷◌, arith, sum_by, sum_by-append, ◌==◌,
  if◌then◌else◌, Option-cases,
}
use astra_exchange.Base.Int.{ℤ}
use astra_exchange.Types.{Side, buy, sell, Order, Trade}
use astra_exchange.PriceLevel.{PriceLevel, new_level, add_order}
use astra_exchange.PriceMap
use astra_exchange.Index.{Index}
use astra_exchange.OrderBook.Defs.{Levels, OrderBook, rest_order}
use astra_exchange.OrderBook.Match.{levels, with_levels, rest_in}
use astra_exchange.OrderBook.Valid.{open_qty}

-- What trades move for this id, as maker and as taker.
abbrev pub traded_for : ℕ → List Trade → ℕ
traded_for i ts =
    sum_by
      (λ t.
        (if t.maker_order_id == i then t.quantity else 0)
        + (if t.taker_order_id == i then t.quantity else 0))
      ts

-- What is left of an order, if it has this id.
abbrev pub share : ℕ → Order → ℕ
share i o = if o.id == i then open_qty o else 0

abbrev pub side_share : ℕ → Levels → ℕ
side_share i m = sum_by (λ e. sum_by (share i) e.1.orders) m

abbrev pub book_share : ℕ → OrderBook → ℕ
book_share i b = side_share i b.bids + side_share i b.asks

module _ (i : ℕ) where
  pub with_levels-share :
      (s : Side) (m : Levels) (ix : Index) (b : OrderBook)
      → book_share i (with_levels s m (record b { index = ix })) + side_share i (levels s b)
        ≡ book_share i b + side_share i m
  with_levels-share buy m ix b = omega arith
  with_levels-share sell m ix b = omega arith

  update-share :
      (p : ℤ) (f : PriceLevel → PriceLevel) (m : Levels) (l : PriceLevel)
      → PriceMap.find p m ≡ some l
      → side_share i (PriceMap.update p f m) + sum_by (share i) l.orders
        ≡ side_share i m + sum_by (share i) (f l).orders
  unfolding PriceMap.update PriceMap.find
  update-share p f [] l e = cc
  update-share p f ((r, w) ∷ m) l e = ground (arith, update-share p f m l)

  emplace-share :
      (s : Side) (p : ℤ) (v : PriceLevel) (m : Levels)
      → PriceMap.find p m ≡ none
      → (side_share i (PriceMap.emplace s p v m) ≡ side_share i m + sum_by (share i) v.orders)
        × (PriceMap.find p (PriceMap.emplace s p v m) ≡ some v)
  unfolding PriceMap.emplace PriceMap.find
  emplace-share s p v [] e = ground arith
  emplace-share s p v ((r, w) ∷ m) e = ground (arith, emplace-share s p v m)

  add_order-share :
      (o : Order) (l : PriceLevel)
      → sum_by (share i) (add_order o l).orders ≡ sum_by (share i) l.orders + share i o
  unfolding add_order
  add_order-share o l = omega (arith, sum_by-append {0} (share i) l.orders (o ∷ []))

  new_level-share : (p : ℤ) → sum_by (share i) (new_level p).orders ≡ 0
  unfolding new_level
  new_level-share p = refl

  rest_order-share :
      (s : Side) (o : Order) (own : Levels)
      → side_share i (rest_order s o own) ≡ side_share i own + share i o
  unfolding rest_order
  rest_order-share s o own = elim (Option-cases (PriceMap.find o.price own)) [
    | inl n ↦
        let l = new_level o.price in
        let (a, f) = emplace-share s o.price l own n in
        rw (n, rest_order)
          (omega (
            arith,
            a,
            add_order-share o l,
            new_level-share o.price,
            update-share o.price (add_order o) (PriceMap.emplace s o.price l own) l f,
          ))
    | inr (l, y) ↦
        rw (y, rest_order)
          (omega (arith, add_order-share o l, update-share o.price (add_order o) own l y))
  ]

  -- An order that rests adds what is left of it.
  pub rest_in-share :
      (b : OrderBook) (o : Order) → book_share i (rest_in b o) ≡ book_share i b + share i o
  unfolding rest_in
  rest_in-share b o = omega (
    arith,
    with_levels-share o.side (rest_order o.side o (levels o.side b)) _ b,
    rest_order-share o.side o (levels o.side b),
  )
