-- ===== src/OrderBook/Ledger.antt =====
-- How much `drainSide` trades, and from whom: its trades measured against the levels that cross.
use astra_exchange.Base.{
  ℕ, ◌+◌, ◌≤◌, ◌≡◌, refl, ap, ◌⊎◌, inl, inr, String, true, false, List, [], ◌∷◌, ◌++◌, arith,
  sum_by, sum_by-append, min, if◌then◌else◌,
}
use astra_exchange.Base.Int.{ℤ}
use astra_exchange.Types.{Side, Order, Trade}
use astra_exchange.PriceLevel.{PriceLevel}
use astra_exchange.OrderBook.Defs.{
  Levels, Crosses, Drain, drain_test, best_passes, keep_level, drain_side, passes, make_trade,
}
use astra_exchange.Index.{Index}
use astra_exchange.OrderBook.Valid.{level_qty, side_qty, open_qty}
use astra_exchange.OrderBook.Round.{Round, completes, reduces, with_orders, taken}
use astra_exchange.OrderBook.Drain.{Good, start, drain_side-keeps, keep_level-qty}

abbrev pub traded_qty : List Trade → ℕ
traded_qty ts = sum_by (λ t. t.quantity) ts

-- What rests at the prices that cross, best first up to the first that does not.
abbrev pub crossing_qty : Crosses → Levels → ℕ
crossing_qty c [] = 0
crossing_qty c ((p, l) ∷ m) = if passes c p then level_qty l + crossing_qty c m else 0

keep_level-crossing :
    (c : Crosses) (p : ℤ) (l : PriceLevel) (os : List Order) (rest : Levels)
    → passes c p ≡ true
    → crossing_qty c (keep_level p (with_orders os l) rest)
      ≡ sum_by open_qty os + crossing_qty c rest
unfolding keep_level
keep_level-crossing c p l [] rest h = omega arith
keep_level-crossing c p l (o ∷ os) rest h = rw h refl

-- The accounts of the loop against its start.
pub record Ledger (c : Crosses) (side : Levels) (o : Order) (s : Drain) : Type 0 where
  pub taker : s.incoming ≡ taken (traded_qty s.trades) o
  pub wanted : traded_qty s.trades ≤ open_qty o
  pub rest : side_qty s.side + traded_qty s.trades ≡ side_qty side
  pub crossing : crossing_qty c s.side + traded_qty s.trades ≡ crossing_qty c side

no-crossing : (c : Crosses) (m : Levels) → best_passes c m ≡ false → crossing_qty c m ≡ 0
no-crossing c [] h = refl
no-crossing c ((p, l) ∷ m) h = rw h refl

-- A loop that has stopped wants nothing more, or has no level left that crosses.
pub drain_test-ends :
    (c : Crosses) (d : Side) (s : Drain)
    → Good d s
    → drain_test c s ≡ false
    → (open_qty s.incoming ≡ 0) ⊎ (best_passes c s.side ≡ false)
unfolding drain_test
drain_test-ends c d s g h = ground (arith, g.bounded.filled_le, g.bounded.in_word)

pub traded_qty-round :
    (symbol : String) (ts : List Trade) (maker taker : Order) (qty k : ℕ)
    → traded_qty (ts ++ make_trade symbol maker taker qty k ∷ []) ≡ traded_qty ts + qty
unfolding make_trade
traded_qty-round symbol ts maker taker qty k = omega (
  arith,
  sum_by-append {0} (λ (t : Trade). t.quantity) ts (make_trade symbol maker taker qty k ∷ []),
)

module _ (symbol : String) (now : ℕ → ℕ) (c : Crosses) (d : Side) (side : Levels) (o : Order) where
  advance :
      (s t : Drain) (qty : ℕ)
      → Ledger c side o s
      → traded_qty t.trades ≡ traded_qty s.trades + qty
      → t.incoming ≡ taken qty s.incoming
      → qty ≤ open_qty s.incoming
      → side_qty t.side + qty ≡ side_qty s.side
      → crossing_qty c t.side + qty ≡ crossing_qty c s.side
      → Ledger c side o t
  advance s t qty a e i h r k = record {
    taker = rw (i, a.taker, e) (ap (λ n. record o { filled_qty = n }) (omega arith));
    wanted = omega (arith, ap (λ (x : Order). open_qty x) a.taker, a.wanted);
    rest = omega (arith, a.rest);
    crossing = omega (arith, a.crossing);
  }

  Round-Ledger :
      (s t : Drain) → Good d s → Ledger c side o s → Round symbol now c s t → Ledger c side o t
  Round-Ledger s t g a (completes p l rest maker os m h e) =
      advance s t (open_qty maker) a (rw e (traded_qty-round symbol s.trades maker s.incoming _ _))
        (rw e refl) h (rw e (rw (m.side_eq, keep_level-qty p l os rest, m.orders_eq) (omega arith)))
        (rw e (
          rw (m.side_eq, keep_level-crossing c p l os rest m.passing, m.passing, m.orders_eq)
            (omega arith)))
  Round-Ledger s t g a (reduces p l rest maker os m h e) =
      advance s t (open_qty s.incoming) a
        (rw e (traded_qty-round symbol s.trades maker s.incoming _ _)) (rw e refl) (omega arith)
        (rw e (rw (m.side_eq, m.orders_eq) (omega arith)))
        (rw e (rw (m.side_eq, m.passing, m.orders_eq) (omega arith)))

  -- From a valid side whose quantities fit a word and an order within its own quantity, `drainSide`
  -- trades the smaller of what the order still wants and what rests at crossing prices; the order
  -- is filled by that quantity, the side loses it, and the side stays valid.
  pub drain_side-Ledger :
      (ix : Index)
      → Good d (start side o ix)
      → let t = drain_side symbol now c side o ix in
        Good d t
        × Ledger c side o t
        × (traded_qty t.trades ≡ min (open_qty o) (crossing_qty c side))
  drain_side-Ledger ix g =
      let r = drain_side-keeps symbol now c d (Ledger c side o) Round-Ledger side o ix g (record {
        taker = ap (λ n. record o { filled_qty = n }) (omega arith);
        wanted = omega arith;
        rest = omega arith;
        crossing = omega arith;
      }) in
      (r.0, r.1, ending _ r.0 r.1 (drain_test-ends c d _ r.0 r.2))
    where
      ending :
          (t : Drain)
          → Good d t
          → Ledger c side o t
          → (open_qty t.incoming ≡ 0) ⊎ (best_passes c t.side ≡ false)
          → traded_qty t.trades ≡ min (open_qty o) (crossing_qty c side)
      ending t g a (inl h) =
          omega (
            arith,
            ap (λ (x : Order). open_qty x) a.taker,
            a.wanted,
            a.crossing,
            g.bounded.filled_le,
          )
      ending t g a (inr h) = omega (arith, no-crossing c t.side h, a.wanted, a.crossing)

  -- From the same state, the loop of `drainSide` ends by its own test within the fuel: the order
  -- wants nothing more, or no level crosses.
  pub drain_side-stops :
      (ix : Index)
      → Good d (start side o ix)
      → let t = drain_side symbol now c side o ix in
        (open_qty t.incoming ≡ 0) ⊎ (best_passes c t.side ≡ false)
  drain_side-stops ix g =
      let r = drain_side-keeps symbol now c d (λ s. Unit {0}) (λ s t h u k. tt) side o ix g tt in
      drain_test-ends c d (drain_side symbol now c side o ix) r.0 r.2
