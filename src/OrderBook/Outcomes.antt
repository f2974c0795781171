-- ===== src/OrderBook/Outcomes.antt =====
-- What `addOrder` answers for each type of order: how much it trades, with whom, and under which
-- status the order comes back.
use astra_exchange.Base.{
  ℕ, ◌≡◌, refl, ap, ◌∙◌, sym, inl, inr, none, some, map, arith, min, leb, if◌then◌else◌, Bool-cases,
  ◌==◌,
}
use astra_exchange.Base.Int.{ℤ}
use astra_exchange.Types.{
  Side, OrderType, limit, market, cancel, ioc, fok, Order, OrderStatus, accepted, partially_filled,
  filled, cancelled,
}
use astra_exchange.OrderBook.Defs.{Levels, OrderBook, Crosses, Drain}
use astra_exchange.OrderBook.Match.{
  Outcome, levels, opposite, limit_crosses, crosses_at, with_status, drain_for, finish_limit,
  match_limit, match_market, match_ioc, match_fok, match_by, add_order,
}
use astra_exchange.OrderBook.Valid.{BookValid, Fresh}
use astra_exchange.OrderBook.Ledger.{traded_qty, crossing_qty}
use astra_exchange.OrderBook.Liquidity.{available_fill-enough}
use astra_exchange.OrderBook.Priority.{
  fill_of, fills, fills-zero, crossing_queue, drain_side-Served,
}
use astra_exchange.OrderBook.Drained.{drain_for-Drained, start-Good}
use astra_exchange.OrderBook.Sides.{levels-SideValid, levels-in_word}

-- The prices that an order of this type accepts.
abbrev pub crosses_for : OrderType → Side → ℤ → Crosses
crosses_for market s p = none
crosses_for _ s p = some (crosses_at s p)

-- What rests against the order at those prices.
abbrev pub liquidity : OrderType → OrderBook → Order → ℕ
liquidity t b o = crossing_qty (crosses_for t o.side o.price) (levels (opposite o.side) b)

-- The quantity that the order is matched for: a fill-or-kill order is matched whole or not at all.
abbrev pub matched_for : OrderType → ℕ → ℕ → ℕ
matched_for fok wanted there = if leb wanted there then wanted else 0
matched_for _ wanted there = wanted

-- The status under which it comes back.
abbrev pub status_for : OrderType → ℕ → ℕ → OrderStatus
status_for limit wanted there =
    if there == 0 then accepted else if leb wanted there then filled else partially_filled
status_for cancel wanted there =
    if there == 0 then accepted else if leb wanted there then filled else partially_filled
status_for market wanted there = if leb wanted there then filled else partially_filled
status_for ioc wanted there =
    if leb wanted there then filled else if there == 0 then cancelled else partially_filled
status_for fok wanted there = if leb wanted there then filled else cancelled

-- The answer, described without the loop.
pub record Answers (t : OrderType) (b : OrderBook) (o : Order) (r : Outcome) : Type 0 where
  pub trades :
      map fill_of r.trades
      ≡ fills
          (matched_for t o.quantity (liquidity t b o))
          (crossing_queue (crosses_for t o.side o.price) (levels (opposite o.side) b))
  pub traded :
      traded_qty r.trades ≡ min (matched_for t o.quantity (liquidity t b o)) (liquidity t b o)
  pub filled_by : r.order.filled_qty ≡ traded_qty r.trades
  pub status : r.order.status ≡ status_for t o.quantity (liquidity t b o)

module _ (now : ℕ → ℕ) (c : Crosses) (b : OrderBook) (o : Order) (v : BookValid b)
    (f : Fresh o) where
  drain_for-trades :
      map fill_of (drain_for now c b o).trades
      ≡ fills o.quantity (crossing_queue c (levels (opposite o.side) b))
  unfolding drain_for
  drain_for-trades =
      (drain_side-Served b.symbol now c (opposite o.side) (levels (opposite o.side) b) o b.index
        (start-Good b o v f)).0
      ∙ ap (λ n. fills n (crossing_queue c (levels (opposite o.side) b)))
          (omega (arith, f.unfilled))

  drain_for-qty :
      traded_qty (drain_for now c b o).trades
      ≡ min o.quantity (crossing_qty c (levels (opposite o.side) b))
  drain_for-qty = omega (arith, (drain_for-Drained now c b o v f).qty, f.unfilled)

  drain_for-filled :
      (drain_for now c b o).incoming.filled_qty ≡ traded_qty (drain_for now c b o).trades
  drain_for-filled =
      ap (λ (x : Order). x.filled_qty) (drain_for-Drained now c b o v f).ledger.taker
      ∙ omega (arith, f.unfilled)

  drain_for-quantity : (drain_for now c b o).incoming.quantity ≡ o.quantity
  drain_for-quantity = ap (λ (x : Order). x.quantity) (drain_for-Drained now c b o v f).ledger.taker

module _ (now : ℕ → ℕ) (b : OrderBook) (o : Order) (v : BookValid b) (f : Fresh o) where
  match_market-Answers : Answers market b o (match_market now b o)
  unfolding match_market
  match_market-Answers =
      let q = drain_for-qty now none b o v f in
      let g = drain_for-filled now none b o v f in
      let w = drain_for-quantity now none b o v f in
      record {
        trades = drain_for-trades now none b o v f;
        traded = q;
        filled_by = g;
        status = ground (arith, q, g, w);
      }

  match_ioc-Answers : Answers ioc b o (match_ioc now b o)
  unfolding match_ioc
  match_ioc-Answers =
      let c = limit_crosses o in
      let q = drain_for-qty now c b o v f in
      let g = drain_for-filled now c b o v f in
      let w = drain_for-quantity now c b o v f in
      record {
        trades = drain_for-trades now c b o v f;
        traded = q;
        filled_by = g;
        status = ground (arith, q, g, w, f.nonzero);
      }

  limit_answer :
      (d : Drain)
      → map fill_of d.trades
        ≡ fills o.quantity (crossing_queue (limit_crosses o) (levels (opposite o.side) b))
      → traded_qty d.trades
        ≡ min o.quantity (crossing_qty (limit_crosses o) (levels (opposite o.side) b))
      → d.incoming.filled_qty ≡ traded_qty d.trades
      → d.incoming.quantity ≡ o.quantity
      → Answers limit b o (finish_limit b o d)
  unfolding finish_limit
  limit_answer d e q g w = record {
    trades = e;
    traded = q;
    filled_by = g;
    status = ground (arith, q, g, w, f.nonzero);
  }

  match_limit-Answers : Answers limit b o (match_limit now b o)
  unfolding match_limit
  match_limit-Answers =
      let c = limit_crosses o in
      limit_answer (drain_for now c b o) (drain_for-trades now c b o v f)
        (drain_for-qty now c b o v f) (drain_for-filled now c b o v f)
        (drain_for-quantity now c b o v f)

  match_fok-Answers : Answers fok b o (match_fok now b o)
  unfolding match_fok
  match_fok-Answers =
      let c = limit_crosses o in
      let m : Levels = levels (opposite o.side) b in
      let a =
        available_fill-enough c (opposite o.side) m o (levels-SideValid (opposite o.side) v)
          (levels-in_word (opposite o.side) v) in
      let q = drain_for-qty now c b o v f in
      elim (Bool-cases (leb o.quantity (crossing_qty c m))) [
        | inl y ↦ rw (a ∙ y) (record {
          trades =
              drain_for-trades now c b o v f ∙ ap (λ n. fills n (crossing_queue c m)) (rw y refl);
          traded = q ∙ ap (λ n. min n (crossing_qty c m)) (rw y refl);
          filled_by = drain_for-filled now c b o v f;
          status = rw y refl;
        })
        | inr n ↦ rw (a ∙ n) (record {
          trades = sym (rw n (fills-zero (crossing_queue c m)));
          traded = rw n (omega arith);
          filled_by = f.unfilled;
          status = rw n refl;
        })
      ]

match_by-Answers :
    (t : OrderType) (now : ℕ → ℕ) (b : OrderBook) (o : Order)
    → BookValid b
    → Fresh o
    → Answers t b o (match_by t now b o)
unfolding match_by
match_by-Answers limit now b o v f = match_limit-Answers now b o v f
match_by-Answers market now b o v f = match_market-Answers now b o v f
match_by-Answers cancel now b o v f =
    let a = match_limit-Answers now b o v f in
    record { trades = a.trades; traded = a.traded; filled_by = a.filled_by; status = a.status }
match_by-Answers ioc now b o v f = match_ioc-Answers now b o v f
match_by-Answers fok now b o v f = match_fok-Answers now b o v f

-- `addOrder` on a valid book, for an order that comes unfilled and of a positive quantity: its trades
-- are those of the queue of the opposite side at the prices that it accepts, best price and oldest
-- order first; they come to the smaller of what it asks and what rests there, or for a fill-or-kill
-- order to all or nothing; the order comes back with that quantity filled, and with the status of
-- its type for it.
pub add_order-Answers :
    (now : ℕ → ℕ) (b : OrderBook) (o : Order)
    → BookValid b
    → Fresh o
    → Answers o.type b o (add_order now b o)
unfolding add_order
add_order-Answers now b o v f =
    let a =
      match_by-Answers o.type now b (with_status accepted o) v
        (record { unfilled = f.unfilled; nonzero = f.nonzero; in_word = f.in_word }) in
    record { trades = a.trades; traded = a.traded; filled_by = a.filled_by; status = a.status }
