-- ===== src/OrderBook/Leaves.antt =====
-- What an order that a book takes leaves within the bounds, and its trades.
use mathlib.Core.Path.{subst}
use astra_exchange.Base.{
  ℕ, ◌+◌, ◌<◌, ◌≡◌, ◌≢◌, refl, sym, inl, inr, Bool, true, false, none, List, arith, All, leb,
  if◌then◌else◌, u64_mod, Bool-cases, Option-cases,
}
use astra_exchange.Types.{
  OrderType, limit, market, cancel, ioc, fok, Order, Trade, accepted, is_filled,
}
use astra_exchange.Index
use astra_exchange.Index.{Index}
use astra_exchange.InvariantChecker.Reports.{Sound}
use astra_exchange.OrderBook.Defs.{Levels, OrderBook, Crosses, Drain}
use astra_exchange.OrderBook.Match.{
  levels, opposite, limit_crosses, with_status, limit_status, drain_for, drained_book, rest_in,
  finish_limit, match_limit, match_market, match_ioc, match_fok, match_by, add_order,
  available_fill, cancel_order, remove_at,
}
use astra_exchange.OrderBook.Valid.{BookValid, Fresh, side_qty, open_qty}
use astra_exchange.OrderBook.Round.{taken}
use astra_exchange.OrderBook.Sides.{levels-with_levels_other}
use astra_exchange.OrderBook.Ledger.{traded_qty}
use astra_exchange.OrderBook.Priority.{queue}
use astra_exchange.OrderBook.Cancel.{Without-sum}
use astra_exchange.OrderBook.Removal.{queue-qty}
use astra_exchange.OrderBook.Cancelled.{removed}
use astra_exchange.OrderBook.Drained.{Drained, drain_for-Drained, drained_book-BookValid}
use astra_exchange.OrderBook.Preserve.{limit_book}
use astra_exchange.OrderBook.Modest.{
  Modest, Modest-le, Positive, with_levels-Modest, drained_book-Modest, rest_in-Modest,
  drain_for-Sound,
}

pick {ℓ} :
    (P : OrderBook → Type ℓ) (t : Bool) (x y : OrderBook)
    → (t ≡ true → P x)
    → (t ≡ false → P y)
    → P (if t then x else y)
pick P true x y p q = p refl
pick P false x y p q = q refl

limit_book-Modest :
    (n : ℕ) (b : OrderBook) (o : Order) (d : Drain)
    → BookValid b
    → Fresh o
    → side_qty (levels o.side b) + o.quantity < u64_mod
    → Drained (limit_crosses o) b o d
    → Positive o.price
    → Modest n b
    → Modest (n + o.quantity) (limit_book (drained_book b o d) (taken (traded_qty d.trades) o))
limit_book-Modest n b o d v f w r z h =
    let b' = drained_book b o d in
    let h' = drained_book-Modest n (limit_crosses o) b o d r h in
    let x = taken (traded_qty d.trades) o in
    let x' = with_status (limit_status x) x in
    pick (Modest (n + o.quantity)) (is_filled x) b' (rest_in b' x')
      (λ y. Modest-le n (n + o.quantity) b' (omega arith) h')
      (λ m.
        Modest-le (n + open_qty x) (n + o.quantity) (rest_in b' x') (omega (arith, f.unfilled)) (
          rest_in-Modest n b' x' (drained_book-BookValid (limit_crosses o) b o d v r)
            (record {
              on_side = refl;
              at_price = refl;
              is_open = ground (arith, m);
              in_word = f.in_word;
            })
            (rw (levels-with_levels_other d.side b d.index o.side) (omega (arith, w, f.unfilled))) z
            h'))

-- What an order leaves: the book within its bounds, and trades that the checks accept.
abbrev pub Leaves : ℕ → OrderBook → List Trade → Type 0
Leaves n b ts = Modest n b × All Sound ts

module _ (now : ℕ → ℕ) (n : ℕ) (b : OrderBook) (o : Order) (v : BookValid b) (f : Fresh o)
    (h : Modest n b) where
  settled :
      (c : Crosses)
      → Leaves
          (n + o.quantity)
          (drained_book b o (drain_for now c b o))
          (drain_for now c b o).trades
  settled c = (
    Modest-le n (n + o.quantity) _ (omega arith)
        (drained_book-Modest n c b o (drain_for now c b o) (drain_for-Drained now c b o v f) h),
    drain_for-Sound now c n b o v f h,
  )

  match_limit-Leaves :
      side_qty (levels o.side b) + o.quantity < u64_mod
      → Positive o.price
      → Leaves (n + o.quantity) (match_limit now b o).book (match_limit now b o).trades
  unfolding match_limit finish_limit
  match_limit-Leaves w z =
      let d = drain_for now (limit_crosses o) b o in
      let r = drain_for-Drained now (limit_crosses o) b o v f in
      (
        subst (λ x. Modest (n + o.quantity) (limit_book (drained_book b o d) x))
            (sym r.ledger.taker) (limit_book-Modest n b o d v f w r z h),
        (settled (limit_crosses o)).1,
      )

  match_fok-Leaves : Leaves (n + o.quantity) (match_fok now b o).book (match_fok now b o).trades
  unfolding match_fok
  match_fok-Leaves =
      elim (Bool-cases
        (leb o.quantity (available_fill (limit_crosses o) (levels (opposite o.side) b) o))) [
          | inl y ↦ rw y (settled (limit_crosses o))
          | inr m ↦ rw m (Modest-le n (n + o.quantity) b (omega arith) h, tt)
        ]

  match_by-Leaves :
      (t : OrderType)
      → t ≢ cancel
      → side_qty (levels o.side b) + o.quantity < u64_mod
      → (t ≡ limit → Positive o.price)
      → Leaves (n + o.quantity) (match_by t now b o).book (match_by t now b o).trades
  unfolding match_by match_market match_ioc
  match_by-Leaves limit k w z = match_limit-Leaves w (z refl)
  match_by-Leaves market k w z = settled none
  match_by-Leaves cancel k w z = absurd (k refl)
  match_by-Leaves ioc k w z = settled (limit_crosses o)
  match_by-Leaves fok k w z = match_fok-Leaves

-- `addOrder` adds at most the order's quantity to a side, keeps the prices of the levels positive, and
-- trades positive quantities at positive prices; a limit order comes with a positive price.
pub add_order-Leaves :
    (now : ℕ → ℕ) (n : ℕ) (b : OrderBook) (o : Order)
    → BookValid b
    → Fresh o
    → o.type ≢ cancel
    → side_qty (levels o.side b) + o.quantity < u64_mod
    → (o.type ≡ limit → Positive o.price)
    → Modest n b
    → Leaves (n + o.quantity) (add_order now b o).book (add_order now b o).trades
unfolding add_order
add_order-Leaves now n b o v f k w z h =
    match_by-Leaves now n b (with_status accepted o) v
      (record { unfilled = f.unfilled; nonzero = f.nonzero; in_word = f.in_word }) h o.type k w z

-- `cancelOrder` adds nothing.
pub cancel_order-Modest :
    (n : ℕ) (b : OrderBook) (id : ℕ) → BookValid b → Modest n b → Modest n (cancel_order b id).1
unfolding cancel_order
cancel_order-Modest n b id v h = elim (Option-cases (Index.find id b.index)) [
  | inl e ↦ rw (e, cancel_order) h
  | inr (loc, e) ↦
      let (o, r) = removed b id loc e v in
      let m : Levels = levels loc.side b in
      let m' : Levels = remove_at loc.price id m in
      rw (e, cancel_order)
        (with_levels-Modest n loc.side m' (Index.erase id b.index) b
          (omega (
            arith,
            Without-sum open_qty o (queue m) (queue m') r.without,
            queue-qty m,
            queue-qty m',
            (h loc.side).0,
          ))
          (λ q k. (h loc.side).1 q (r.keys q k)) h)
]
