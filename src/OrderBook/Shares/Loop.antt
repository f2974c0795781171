-- ===== src/OrderBook/Shares/Loop.antt =====
-- The loop moves what is left of an order into the trades.
use astra_exchange.Base.{
  ℕ, length, ◌+◌, ◌≤◌, ◌≡◌, refl, String, List, [], ◌∷◌, ◌++◌, arith, sum_by, sum_by-append, ◌==◌,
  if◌then◌else◌,
}
use astra_exchange.Base.Int.{ℤ}
use astra_exchange.Types.{Order, Trade}
use astra_exchange.PriceLevel.{PriceLevel}
use astra_exchange.OrderBook.Defs.{Levels, Crosses, Drain, keep_level, make_trade}
use astra_exchange.OrderBook.Valid.{open_qty}
use astra_exchange.OrderBook.Round.{Round, completes, reduces, with_orders, reduced, taken}
use astra_exchange.OrderBook.Shares.Defs.{traded_for, share, side_share}

module _ (i : ℕ) where
  keep_level-share :
      (p : ℤ) (l : PriceLevel) (os : List Order) (rest : Levels)
      → side_share i (keep_level p (with_orders os l) rest)
        ≡ sum_by (share i) os + side_share i rest
  unfolding keep_level
  keep_level-share p l [] rest = omega arith
  keep_level-share p l (o ∷ os) rest = refl

  traded_for-snoc :
      (symbol : String) (ts : List Trade) (maker taker : Order) (qty k : ℕ)
      → traded_for i (ts ++ make_trade symbol maker taker qty k ∷ [])
        ≡ traded_for i ts
          + ((if maker.id == i then qty else 0) + (if taker.id == i then qty else 0))
  unfolding make_trade
  traded_for-snoc symbol ts maker taker qty k = omega (
    arith,
    sum_by-append {0}
        (λ t.
          (if t.maker_order_id == i then t.quantity else 0)
          + (if t.taker_order_id == i then t.quantity else 0))
        ts (make_trade symbol maker taker qty k ∷ []),
  )

  -- What is traded, what rests and what is left of the incoming order.
  abbrev pub total : Drain → ℕ
  total s = traded_for i s.trades + side_share i s.side + share i s.incoming

  taken-share :
      (qty : ℕ) (o : Order)
      → qty ≤ open_qty o
      → share i (taken qty o) + (if o.id == i then qty else 0) ≡ share i o
  taken-share qty o h = ground arith

  reduced-share :
      (qty : ℕ) (o : Order)
      → qty ≤ open_qty o
      → share i (reduced qty o) + (if o.id == i then qty else 0) ≡ share i o
  reduced-share qty o h = ground arith

  front-share :
      (p : ℤ) (l : PriceLevel) (maker : Order) (os : List Order) (rest m : Levels)
      → m ≡ (p, l) ∷ rest
      → l.orders ≡ maker ∷ os
      → side_share i m ≡ share i maker + sum_by (share i) os + side_share i rest
  front-share p l maker os rest m e f = rw (e, f) refl

  pub Round-total :
      (symbol : String) (now : ℕ → ℕ) (c : Crosses) (s t : Drain)
      → Round symbol now c s t
      → total t ≡ total s
  Round-total symbol now c s t (completes p l rest maker os m h e) =
      let f = front-share p l maker os rest s.side m.side_eq m.orders_eq in
      let n =
        traded_for-snoc symbol s.trades maker s.incoming (open_qty maker) (now (length s.trades)) in
      let k = keep_level-share p l os rest in
      rw e (omega (arith, f, n, k, taken-share (open_qty maker) s.incoming h))
  Round-total symbol now c s t (reduces p l rest maker os m h e) =
      let f = front-share p l maker os rest s.side m.side_eq m.orders_eq in
      let n =
        traded_for-snoc symbol s.trades maker s.incoming (open_qty s.incoming)
          (now (length s.trades)) in
      rw e (
        omega (
          arith,
          f,
          n,
          taken-share (open_qty s.incoming) s.incoming (omega arith),
          reduced-share (open_qty s.incoming) maker (omega arith),
        ))
