-- ===== src/OrderBook/Modest.antt =====
-- Two bounds on a book: what rests on a side, and the prices of its levels.
use mathlib.Core.Path.{subst}
use astra_exchange.Base.{
  ℕ, ◌+◌, ◌≤◌, ◌<◌, ◌≡◌, ap, ◌∙◌, inl, inr, true, false, List, [], ◌∷◌, ◌++◌, arith, All,
  All-append, u64_mod, String, Bool-cases,
}
use astra_exchange.Base.Int.{ℤ, pos, leb_ℤ}
use astra_exchange.Types.{Side, buy, sell, Order, Trade}
use astra_exchange.PriceMap
use astra_exchange.Index.{Index}
use astra_exchange.PriceLevel.{PriceLevel, empty}
use astra_exchange.InvariantChecker.Reports.{Sound}
use astra_exchange.OrderBook.Defs.{
  Levels, OrderBook, Crosses, Drain, keep_level, make_trade, rest_order,
}
use astra_exchange.OrderBook.Match.{levels, with_levels, opposite, drain_for, drained_book, rest_in}
use astra_exchange.OrderBook.Valid.{BookValid, Fresh, Rests, side_qty, open_qty}
use astra_exchange.OrderBook.Round.{Round, completes, reduces, with_orders}
use astra_exchange.OrderBook.Drain.{Good, drain_side-keeps}
use astra_exchange.OrderBook.Rest.{rest_order-Rested}
use astra_exchange.OrderBook.Sides.{levels-SideValid}
use astra_exchange.OrderBook.Drained.{start-Good, Drained}

abbrev pub Positive : ℤ → Type 0
Positive p = leb_ℤ p (pos 0) ≡ false

abbrev pub Priced : Levels → Type 0
Priced m = (q : ℤ) → PriceMap.has_key q m ≡ true → Positive q

-- At most `n` units rest on each side, at positive prices.
abbrev pub Modest : ℕ → OrderBook → Type 0
Modest n b = (s : Side) → (side_qty (levels s b) ≤ n) × Priced (levels s b)

pub with_levels-Modest :
    (n : ℕ) (s : Side) (m : Levels) (ix : Index) (b : OrderBook)
    → side_qty m ≤ n
    → Priced m
    → Modest n b
    → Modest n (with_levels s m (record b { index = ix }))
with_levels-Modest n buy m ix b q p h buy = (q, p)
with_levels-Modest n buy m ix b q p h sell = h sell
with_levels-Modest n sell m ix b q p h buy = h buy
with_levels-Modest n sell m ix b q p h sell = (q, p)

pub Modest-le : (n k : ℕ) (b : OrderBook) → n ≤ k → Modest n b → Modest k b
Modest-le n k b l h s = (omega (arith, l, (h s).0), (h s).1)

pub drained_book-Modest :
    (n : ℕ) (c : Crosses) (b : OrderBook) (o : Order) (d : Drain)
    → Drained c b o d
    → Modest n b
    → Modest n (drained_book b o d)
drained_book-Modest n c b o d r h =
    let (q, p) = h (opposite o.side) in
    with_levels-Modest n (opposite o.side) d.side d.index b (omega (arith, r.ledger.rest, q))
      (λ k e. p k (r.placed.keys k e)) h

pub rest_in-Modest :
    (n : ℕ) (b : OrderBook) (o : Order)
    → BookValid b
    → Rests o.side o.price o
    → side_qty (levels o.side b) + open_qty o < u64_mod
    → Positive o.price
    → Modest n b
    → Modest (n + open_qty o) (rest_in b o)
unfolding rest_in
rest_in-Modest n b o v r w z h =
    let (q, p) = h o.side in
    let k = rest_order-Rested o.side o (levels o.side b) r (levels-SideValid o.side v) w in
    with_levels-Modest (n + open_qty o) o.side (rest_order o.side o (levels o.side b)) _ b
      (omega (arith, k.qty, q))
      (λ x e. elim (k.keys x e) [ inl a ↦ subst Positive a z | inr a ↦ p x a ])
      (Modest-le n (n + open_qty o) b (omega arith) h)

-- The trades of a drain take positive quantities at the prices of the side.
abbrev SoundSo : Drain → Type 0
SoundSo s = All Sound s.trades × All (λ e. Positive e.0) s.side

Priced-All : (m : Levels) → Priced m → All (λ e. Positive e.0) m
unfolding PriceMap.has_key PriceMap.find
Priced-All [] p = tt
Priced-All ((q, l) ∷ m) p = (p q (ground arith), Priced-All m (λ k e. p k (ground (arith, e))))

keep_level-Positive :
    (p : ℤ) (l : PriceLevel) (rest : Levels)
    → Positive p
    → All (λ e. Positive e.0) rest
    → All (λ e. Positive e.0) (keep_level p l rest)
unfolding keep_level
keep_level-Positive p l rest h a = elim (Bool-cases (empty l)) [
  | inl y ↦ rw y a
  | inr n ↦ rw n (h, a)
]

trade-Sound :
    (symbol : String) (ts : List Trade) (maker taker : Order) (p : ℤ) (qty k : ℕ)
    → maker.price ≡ p
    → Positive p
    → 0 < qty
    → All Sound ts
    → All Sound (ts ++ make_trade symbol maker taker qty k ∷ [])
unfolding make_trade
trade-Sound symbol ts maker taker p qty k e h z a =
    All-append Sound ts (make_trade symbol maker taker qty k ∷ []) a
      ((ap (λ q. leb_ℤ q (pos 0)) e ∙ h, z), tt)

Round-SoundSo :
    (symbol : String) (now : ℕ → ℕ) (c : Crosses) (d : Side) (s t : Drain)
    → Good d s
    → SoundSo s
    → Round symbol now c s t
    → SoundSo t
Round-SoundSo symbol now c d s t g a (completes p l rest maker os m h e) =
    let (z, r) : Positive p × All (λ e. Positive e.0) rest = rw m.side_eq at a.1 in
    rw e (
      trade-Sound symbol s.trades maker s.incoming p (open_qty maker) _ m.at_price z
          (omega (arith, m.is_open)) a.0,
      keep_level-Positive p (with_orders os l) rest z r,
    )
Round-SoundSo symbol now c d s t g a (reduces p l rest maker os m h e) =
    let (z, r) : Positive p × All (λ e. Positive e.0) rest = rw m.side_eq at a.1 in
    rw e (
      trade-Sound symbol s.trades maker s.incoming p (open_qty s.incoming) _ m.at_price z m.wanted
          a.0,
      (z, r),
    )

pub drain_for-Sound :
    (now : ℕ → ℕ) (c : Crosses) (n : ℕ) (b : OrderBook) (o : Order)
    → BookValid b
    → Fresh o
    → Modest n b
    → All Sound (drain_for now c b o).trades
unfolding drain_for
drain_for-Sound now c n b o v f h =
    let d = opposite o.side in
    (drain_side-keeps b.symbol now c d SoundSo (Round-SoundSo b.symbol now c d) (levels d b) o
      b.index (start-Good b o v f) (tt, Priced-All (levels d b) (h d).1)).1.0
