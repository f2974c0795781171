-- ===== src/OrderBook/Priority.antt =====
-- Price-time priority: `drainSide` against the flat queue of the side's orders, best price first and
-- oldest first within a price.
use mathlib.Core.List.{map-append, append_assoc, append-nil}
use astra_exchange.Base.{
  ℕ, ◌+◌, ◌-◌, ◌<◌, ◌≡◌, refl, ap, ◌∙◌, sym, ◌⊎◌, inl, inr, String, true, false, List, [], ◌∷◌,
  ◌++◌, map, arith, length, min, if◌then◌else◌, ◌==◌, leb,
}
use astra_exchange.Base.Int.{ℤ}
use astra_exchange.Types.{Side, Order, Trade}
use astra_exchange.PriceLevel.{PriceLevel}
use astra_exchange.OrderBook.Defs.{
  Levels, Crosses, Drain, best_passes, keep_level, drain_side, passes, make_trade,
}
use astra_exchange.Index.{Index}
use astra_exchange.OrderBook.Valid.{open_qty}
use astra_exchange.OrderBook.Round.{Round, completes, reduces, with_orders, reduced, taken}
use astra_exchange.OrderBook.Drain.{Good, start, drain_side-keeps}
use astra_exchange.OrderBook.Ledger.{traded_qty, traded_qty-round, drain_test-ends}

-- A trade as the maker sees it.
pub record Fill : Type 0 where
  pub maker : ℕ
  pub price : ℤ
  pub qty : ℕ

abbrev pub fill_of : Trade → Fill
fill_of t = record { maker = t.maker_order_id; price = t.price; qty = t.quantity }

-- The specification: a quantity spent along a queue, order by order, each at its own price.
abbrev pub fills : ℕ → List Order → List Fill
fills q [] = []
fills q (o ∷ os) =
    let rest = fills (q - min q (open_qty o)) os in
    if q == 0 then [] else record { maker = o.id; price = o.price; qty = min q (open_qty o) } ∷ rest

-- The queue after that quantity: the completed orders are gone, and the next one is reduced.
abbrev pub queue_after : ℕ → List Order → List Order
queue_after q [] = []
queue_after q (o ∷ os) =
    let rest = queue_after (q - open_qty o) os in
    if q == 0 then o ∷ os else if leb (open_qty o) q then rest else reduced q o ∷ os

abbrev pub queue : Levels → List Order
queue [] = []
queue ((p, l) ∷ m) = l.orders ++ queue m

abbrev pub crossing_queue : Crosses → Levels → List Order
crossing_queue c [] = []
crossing_queue c ((p, l) ∷ m) = if passes c p then l.orders ++ crossing_queue c m else []

keep_level-queue :
    (p : ℤ) (l : PriceLevel) (os : List Order) (rest : Levels)
    → queue (keep_level p (with_orders os l) rest) ≡ os ++ queue rest
unfolding keep_level
keep_level-queue p l [] rest = refl
keep_level-queue p l (o ∷ os) rest = refl

keep_level-crossing_queue :
    (c : Crosses) (p : ℤ) (l : PriceLevel) (os : List Order) (rest : Levels)
    → passes c p ≡ true
    → crossing_queue c (keep_level p (with_orders os l) rest) ≡ os ++ crossing_queue c rest
unfolding keep_level
keep_level-crossing_queue c p l [] rest h = refl
keep_level-crossing_queue c p l (o ∷ os) rest h = rw h refl

pub fills-zero : (os : List Order) → fills 0 os ≡ []
fills-zero [] = refl
fills-zero (o ∷ os) = refl

queue_after-zero : (os : List Order) → queue_after 0 os ≡ os
queue_after-zero [] = refl
queue_after-zero (o ∷ os) = refl

fills-cons :
    (q : ℕ) (o : Order) (os : List Order) (k : ℕ)
    → 0 < q
    → k ≡ min q (open_qty o)
    → fills q (o ∷ os) ≡ record { maker = o.id; price = o.price; qty = k } ∷ fills (q - k) os
fills-cons q o os k h e = rw e (ground arith)

queue_after-completed :
    (q k : ℕ) (o : Order) (os : List Order)
    → q ≡ open_qty o
    → 0 < q
    → queue_after (q + k) (o ∷ os) ≡ queue_after k os
queue_after-completed q k o os e h =
    let n : q + k - open_qty o ≡ k = omega arith in ground (arith, ap (λ i. queue_after i os) n)

queue_after-reduced :
    (q k : ℕ) (o : Order) (os : List Order)
    → q < open_qty o
    → 0 < q
    → queue_after (q + k) (o ∷ os) ≡ queue_after k (reduced q o ∷ os)
queue_after-reduced q k o os e h =
    let n : q + k - open_qty o ≡ k - open_qty (reduced q o) = omega arith in
    ground (arith, ap (λ i. queue_after i os) n)

abbrev fill_at : Order → ℕ → Fill
fill_at o qty = record { maker = o.id; price = o.price; qty = qty }

map-fill_of :
    (symbol : String) (ts : List Trade) (maker taker : Order) (qty k : ℕ)
    → map fill_of (ts ++ make_trade symbol maker taker qty k ∷ [])
      ≡ map fill_of ts ++ fill_at maker qty ∷ []
unfolding make_trade
map-fill_of symbol ts maker taker qty k = map-append fill_of ts _

fills_done : (q k : ℕ) (xs ys : List Order) → q ≡ 0 → k ≡ 0 → fills q xs ≡ fills k ys
fills_done q k xs ys e f = rw (e, f, fills-zero xs, fills-zero ys)

module _ (symbol : String) (now : ℕ → ℕ) (c : Crosses) (d : Side) (side : Levels) (o : Order) where
  -- The trades so far, and what the queue still has to give.
  record Served (s : Drain) : Type 0 where
    served :
        map fill_of s.trades ++ fills (open_qty s.incoming) (crossing_queue c s.side)
        ≡ fills (open_qty o) (crossing_queue c side)
    left :
        (k : ℕ) → queue_after k (queue s.side) ≡ queue_after (traded_qty s.trades + k) (queue side)

  serve :
      (s t : Drain) (f : Fill)
      → Served s
      → map fill_of t.trades ≡ map fill_of s.trades ++ f ∷ []
      → fills (open_qty s.incoming) (crossing_queue c s.side)
        ≡ f ∷ fills (open_qty t.incoming) (crossing_queue c t.side)
      → map fill_of t.trades ++ fills (open_qty t.incoming) (crossing_queue c t.side)
        ≡ fills (open_qty o) (crossing_queue c side)
  serve s t f a e h = rw (e, append_assoc, ← h) a.served

  Round-Served : (s t : Drain) → Good d s → Served s → Round symbol now c s t → Served t
  Round-Served s t g a (completes p l rest maker os m h e) = record {
    served =
        serve s t (fill_at maker (open_qty maker)) a
          (rw e (map-fill_of symbol s.trades maker s.incoming _ _))
          (rw e (
            rw
              (m.side_eq, keep_level-crossing_queue c p l os rest m.passing, m.passing, m.orders_eq)
              (fills-cons (open_qty s.incoming) maker (os ++ crossing_queue c rest) (open_qty maker)
                  m.wanted (omega arith)
                ∙ ap (λ n. fill_at maker (open_qty maker) ∷ fills n (os ++ crossing_queue c rest))
                    (omega arith))));
    left = λ k. rw e (
        rw
          (
            keep_level-queue p l os rest,
            traded_qty-round symbol s.trades maker s.incoming (open_qty maker)
                (now (length s.trades)),
          )
          (sym (
              queue_after-completed (open_qty maker) k maker (os ++ queue rest) refl
                (omega (arith, m.is_open)))
            ∙ rw (m.side_eq, m.orders_eq) at (a.left (open_qty maker + k))
            ∙ ap (λ n. queue_after n (queue side)) (omega arith)));
  }
  Round-Served s t g a (reduces p l rest maker os m h e) = record {
    served =
        serve s t (fill_at maker (open_qty s.incoming)) a
          (rw e (map-fill_of symbol s.trades maker s.incoming _ _))
          (rw e (
            rw (m.side_eq, m.passing, m.orders_eq)
              (fills-cons (open_qty s.incoming) maker (os ++ crossing_queue c rest)
                  (open_qty s.incoming) m.wanted (omega arith)
                ∙ ap (λ xs. fill_at maker (open_qty s.incoming) ∷ xs)
                    (fills_done (open_qty s.incoming - open_qty s.incoming)
                      (open_qty (taken (open_qty s.incoming) s.incoming))
                      (os ++ crossing_queue c rest)
                      (reduced (open_qty s.incoming) maker ∷ os ++ crossing_queue c rest)
                      (omega arith) (omega arith)))));
    left = λ k. rw e (
        rw
          (traded_qty-round symbol s.trades maker s.incoming (open_qty s.incoming)
            (now (length s.trades)))
          (sym (queue_after-reduced (open_qty s.incoming) k maker (os ++ queue rest) h m.wanted)
            ∙ rw (m.side_eq, m.orders_eq) at (a.left (open_qty s.incoming + k))
            ∙ ap (λ n. queue_after n (queue side)) (omega arith)));
  }

  -- From a valid side whose quantities fit a word and an order within its own quantity, `drainSide`
  -- fills the queue of the crossing levels order by order, best price and oldest first, each at its
  -- own price, and the side keeps the queue that remains after the traded quantity.
  pub drain_side-Served :
      (ix : Index)
      → Good d (start side o ix)
      → let t = drain_side symbol now c side o ix in
        (map fill_of t.trades ≡ fills (open_qty o) (crossing_queue c side))
        × (queue t.side ≡ queue_after (traded_qty t.trades) (queue side))
  drain_side-Served ix g =
      let r = drain_side-keeps symbol now c d Served Round-Served side o ix g (record {
        served = refl;
        left = λ k. ap (λ n. queue_after n (queue side)) (omega arith);
      }) in
      let q = drain_side symbol now c side o ix in
      let e : map fill_of q.trades ++ [] ≡ fills (open_qty o) (crossing_queue c side) =
        rw (← fills-ended q.side (open_qty q.incoming) (drain_test-ends c d q r.0 r.2))
          r.1.served in
      (
        sym (append-nil (map fill_of q.trades)) ∙ e,
        sym (queue_after-zero (queue q.side))
            ∙ r.1.left 0
            ∙ ap (λ n. queue_after n (queue side)) (omega arith),
      )
    where
      fills-ended :
          (m : Levels) (n : ℕ)
          → (n ≡ 0) ⊎ (best_passes c m ≡ false)
          → fills n (crossing_queue c m) ≡ []
      fills-ended m n (inl h) = rw h (fills-zero (crossing_queue c m))
      fills-ended [] n (inr h) = refl
      fills-ended ((p, l) ∷ m) n (inr h) = rw h refl
