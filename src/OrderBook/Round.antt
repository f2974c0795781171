-- ===== src/OrderBook/Round.antt =====
-- One round of `drainSide` on a valid side: it either completes the front order of the best level,
-- or takes from it all that the incoming order still wants.
use astra_exchange.Base.{
  ℕ, ◌+◌, ◌<◌, ◌≤◌, ◌≡◌, refl, ap, ◌∙◌, String, true, false, some, List, [], ◌∷◌, ◌++◌, arith,
  length, min, sum_by, u64_mod, add64,
}
use native.Mathlib.Decide.{dec_le}
use astra_exchange.Base.Int.{ℤ}
use astra_exchange.Types.{Side, Order, remaining_qty, is_filled, filled, partially_filled}
use astra_exchange.PriceLevel.{PriceLevel, front, head_of}
use astra_exchange.OrderBook.Defs.{
  Levels, Crosses, Drain, drain_test, drain_body, drain_best, trade_with, fill_level, fill,
  make_trade, keep_level, best_passes, passes,
}
use astra_exchange.Index
use astra_exchange.OrderBook.Valid.{Rests, LevelValid, SideValid, side_qty, level_qty, open_qty}

abbrev pub completed : Order → Order
completed o = record o { filled_qty = o.filled_qty + open_qty o; status = filled }

abbrev pub reduced : ℕ → Order → Order
reduced qty o = record o { filled_qty = o.filled_qty + qty; status = partially_filled }

abbrev pub taken : ℕ → Order → Order
taken qty o = record o { filled_qty = o.filled_qty + qty }

abbrev pub with_orders : List Order → PriceLevel → PriceLevel
with_orders os l = record l { orders = os; total_qty = sum_by open_qty os }

fill_level-completes :
    (maker : Order) (os : List Order) (l : PriceLevel)
    → l.orders ≡ maker ∷ os
    → maker.filled_qty < maker.quantity
    → maker.quantity < u64_mod
    → l.total_qty ≡ open_qty maker + sum_by open_qty os
    → l.total_qty < u64_mod
    → fill_level maker (open_qty maker) l ≡ with_orders os l
unfolding fill_level
fill_level-completes maker os l e h k t b = ground arith

fill_level-reduces :
    (maker : Order) (qty : ℕ) (os : List Order) (l : PriceLevel)
    → l.orders ≡ maker ∷ os
    → qty < open_qty maker
    → maker.quantity < u64_mod
    → l.total_qty ≡ open_qty maker + sum_by open_qty os
    → l.total_qty < u64_mod
    → fill_level maker qty l ≡ with_orders (reduced qty maker ∷ os) l
unfolding fill_level
fill_level-reduces maker qty os l e h k t b = ground arith

front-head :
    (l : PriceLevel) (maker : Order) (os : List Order)
    → l.orders ≡ maker ∷ os
    → front l ≡ some maker
unfolding front
front-head l maker os e = ap head_of e

-- What every round finds.
pub record Meets (c : Crosses) (s : Drain) (p : ℤ) (l : PriceLevel) (rest : Levels) (maker : Order)
    (os : List Order) : Type 0 where
  pub side_eq : s.side ≡ (p, l) ∷ rest
  pub orders_eq : l.orders ≡ maker ∷ os
  pub passing : passes c p ≡ true
  pub wanted : 0 < open_qty s.incoming
  pub at_price : maker.price ≡ p
  pub is_open : maker.filled_qty < maker.quantity

-- The quantities stay within a word.
pub record Bounded (s : Drain) : Type 0 where
  pub filled_le : s.incoming.filled_qty ≤ s.incoming.quantity
  pub in_word : s.incoming.quantity < u64_mod

module _ (symbol : String) (now : ℕ → ℕ) where
  abbrev pub traded : Drain → Order → ℕ → Drain → Drain
  traded s maker qty t = record t {
    trades = s.trades ++ make_trade symbol maker s.incoming qty (now (length s.trades)) ∷ [];
    incoming = taken qty s.incoming;
  }

  pub data Round (c : Crosses) (s t : Drain) : Type 0 where
    completes :
        (p : ℤ) (l : PriceLevel) (rest : Levels) (maker : Order) (os : List Order)
        → Meets c s p l rest maker os
        → open_qty maker ≤ open_qty s.incoming
        → t
          ≡ traded s maker (open_qty maker) (record s {
            side = keep_level p (with_orders os l) rest;
            index = Index.erase maker.id s.index;
            released = s.released ++ completed maker ∷ [];
          })
        → Round c s t
    reduces :
        (p : ℤ) (l : PriceLevel) (rest : Levels) (maker : Order) (os : List Order)
        → Meets c s p l rest maker os
        → open_qty s.incoming < open_qty maker
        → t
          ≡ traded s maker (open_qty s.incoming) (record s {
            side = (p, with_orders (reduced (open_qty s.incoming) maker ∷ os) l) ∷ rest;
          })
        → Round c s t

  -- The quantity of a round is the smaller of the two open ones, and no sum of it wraps.
  round-completes :
      (s : Drain) (maker : Order)
      → Bounded s
      → maker.filled_qty < maker.quantity
      → maker.quantity < u64_mod
      → open_qty maker ≤ open_qty s.incoming
      → (min (remaining_qty s.incoming) (remaining_qty maker) ≡ open_qty maker)
        × (fill (open_qty maker) s.incoming ≡ taken (open_qty maker) s.incoming)
        × (add64 maker.filled_qty (open_qty maker) ≡ maker.filled_qty + open_qty maker)
        × (is_filled (taken (open_qty maker) maker) ≡ true)
  round-completes s maker b o w h = (omega arith, ground arith, omega arith, ground arith)

  round-reduces :
      (s : Drain) (maker : Order)
      → Bounded s
      → maker.filled_qty < maker.quantity
      → maker.quantity < u64_mod
      → open_qty s.incoming < open_qty maker
      → (min (remaining_qty s.incoming) (remaining_qty maker) ≡ open_qty s.incoming)
        × (fill (open_qty s.incoming) s.incoming ≡ taken (open_qty s.incoming) s.incoming)
        × (add64 maker.filled_qty (open_qty s.incoming) ≡ maker.filled_qty + open_qty s.incoming)
        × (is_filled (taken (open_qty s.incoming) maker) ≡ false)
  round-reduces s maker b o w h = (omega arith, ground arith, omega arith, ground arith)

  trade_with-Round :
      (c : Crosses) (d : Side) (s : Drain) (p : ℤ) (l : PriceLevel) (rest : Levels) (maker : Order)
      (os : List Order)
      → Meets c s p l rest maker os
      → Bounded s
      → Rests d p maker
      → l.total_qty ≡ open_qty maker + sum_by open_qty os
      → l.total_qty < u64_mod
      → Round c s (trade_with symbol now s p l rest maker)
  unfolding trade_with keep_level
  trade_with-Round c d s p l rest maker os m b r t k =
      elim (dec_le (open_qty maker) (open_qty s.incoming)) [
        | yes h ↦
            let (q, f, g, e) = round-completes s maker b r.is_open r.in_word h in
            completes p l rest maker os m h (
              rw (q, f, g, e, fill_level-completes maker os l m.orders_eq r.is_open r.in_word t k)
                refl)
        | no h ↦
            let (q, f, g, e) = round-reduces s maker b r.is_open r.in_word (omega arith) in
            reduces p l rest maker os m (omega arith) (
              rw
                (
                  q,
                  f,
                  g,
                  e,
                  fill_level-reduces maker (open_qty s.incoming) os l m.orders_eq (omega arith)
                      r.in_word t k,
                )
                refl)
      ]

  drain_best-front :
      (s : Drain) (p : ℤ) (l : PriceLevel) (rest : Levels) (maker : Order) (os : List Order)
      → l.orders ≡ maker ∷ os
      → drain_best symbol now s ((p, l) ∷ rest) ≡ trade_with symbol now s p l rest maker
  unfolding drain_best
  drain_best-front s p l rest maker os e = rw (front-head l maker os e, drain_best) refl

  front-Round :
      (c : Crosses) (d : Side) (s : Drain) (p : ℤ) (l : PriceLevel) (rest : Levels)
      (os : List Order)
      → l.orders ≡ os
      → s.side ≡ (p, l) ∷ rest
      → Bounded s
      → 0 < open_qty s.incoming
      → passes c p ≡ true
      → LevelValid d p l
      → level_qty l < u64_mod
      → Round c s (drain_best symbol now s ((p, l) ∷ rest))
  front-Round c d s p l rest [] e f b w h v k = absurd (v.nonempty e)
  front-Round c d s p l rest (maker ∷ os) e f b w h v k =
      let r : Rests d p maker = (rw e at v.resting).0 in
      let q : level_qty l ≡ open_qty maker + sum_by open_qty os = rw e refl in
      rw (drain_best-front s p l rest maker os e) (
        trade_with-Round c d s p l rest maker os
          (record {
            side_eq = f;
            orders_eq = e;
            passing = h;
            wanted = w;
            at_price = r.at_price;
            is_open = r.is_open;
          })
          b r (v.totalled ∙ q) (omega (arith, v.totalled)))

  best-Round :
      (c : Crosses) (d : Side) (s : Drain) (m : Levels)
      → s.side ≡ m
      → SideValid d m
      → side_qty m < u64_mod
      → Bounded s
      → 0 < open_qty s.incoming
      → best_passes c m ≡ true
      → Round c s (drain_best symbol now s m)
  best-Round c d s [] e v k b w h = cc
  best-Round c d s ((p, l) ∷ rest) e v k b w h =
      front-Round c d s p l rest l.orders refl e b w h v.0 (omega arith)

  -- The loop's test leads to a round.
  pub drain_body-Round :
      (c : Crosses) (d : Side) (s : Drain)
      → SideValid d s.side
      → side_qty s.side < u64_mod
      → Bounded s
      → drain_test c s ≡ true
      → Round c s (drain_body symbol now s)
  unfolding drain_body drain_test
  drain_body-Round c d s v k b h = best-Round c d s s.side refl v k b (ground arith) (ground arith)
