-- ===== src/OrderBook/Preserve.antt =====
-- Whatever order `addOrder` takes, it leaves a valid book.
use astra_exchange.Base.{
  ℕ, ◌+◌, ◌<◌, ◌≡◌, refl, ap, sym, inl, inr, true, false, none, arith, leb, if◌then◌else◌, u64_mod,
  Bool-cases,
}
use astra_exchange.Base.Int.{ℤ}
use astra_exchange.Types.{
  Side, OrderType, limit, market, cancel, ioc, fok, Order, accepted, is_filled,
}
use astra_exchange.PriceMap
use astra_exchange.Index
use astra_exchange.Index.{Index, find-assign, assign-KeysOnce}
use astra_exchange.OrderBook.Defs.{OrderBook, Drain, best_passes, rest_order}
use astra_exchange.OrderBook.Match.{
  levels, opposite, crosses_at, limit_crosses, with_status, limit_status, drained_book, rest_in,
  finish_limit, match_limit, match_market, match_ioc, match_fok, match_by, add_order,
  available_fill,
}
use astra_exchange.OrderBook.Valid.{Rests, side_qty, BookValid, Fresh, open_qty}
use astra_exchange.OrderBook.Round.{taken}
use astra_exchange.OrderBook.Ledger.{traded_qty}
use astra_exchange.OrderBook.Places.{assign-SideIndexed, assign-SideIndexed_other}
use astra_exchange.OrderBook.Rest.{rest_order-Rested}
use astra_exchange.OrderBook.Sides.{
  Apart-rest, levels-SideValid, levels-SideIndexed, levels-Apart, with_levels-BookValid,
  no-price-crosses, levels-with_levels, levels-with_levels_other, index-with_levels,
}
use astra_exchange.OrderBook.Query.{has_order}
use mathlib.Core.Path.{subst}
use astra_exchange.OrderBook.Drained.{Drained, drain_for-Drained, drained_book-BookValid}

-- An order that crosses nothing and is not in the book may rest in it.
rest_in-BookValid :
    (b : OrderBook) (o : Order)
    → BookValid b
    → Rests o.side o.price o
    → Index.find o.id b.index ≡ none
    → side_qty (levels o.side b) + open_qty o < u64_mod
    → ((q : ℤ)
        → PriceMap.has_key q (levels (opposite o.side) b) ≡ true
        → crosses_at o.side o.price q ≡ false)
    → BookValid (rest_in b o)
unfolding rest_in
rest_in-BookValid b o v r e w n =
    let s : Side = o.side in
    let k = rest_order-Rested s o (levels s b) r (levels-SideValid s v) w in
    with_levels-BookValid s (rest_order s o (levels s b))
      (Index.assign o.id (record { side = s; price = o.price }) b.index) b v
      (record {
        valid = k.valid;
        in_word = omega (arith, k.qty);
        here =
            assign-SideIndexed s o.id o.price b.index e (levels s b) (rest_order s o (levels s b))
              (levels-SideIndexed s v) k.occurs;
        there =
            assign-SideIndexed_other s o.id o.price b.index e (levels (opposite s) b)
              (levels-SideIndexed (opposite s) v);
        apart =
            Apart-rest s o.price (levels s b) (rest_order s o (levels s b)) (levels (opposite s) b)
              k.keys n (levels-Apart s v);
        once = assign-KeysOnce o.id (record { side = s; price = o.price }) b.index v.index_once;
      })

-- The book after the last step of `matchLimit`, for the order as the drain leaves it.
abbrev pub limit_book : OrderBook → Order → OrderBook
limit_book b x = let x' = with_status (limit_status x) x in if is_filled x' then b else rest_in b x'

limit_book-BookValid :
    (b : OrderBook) (o : Order) (d : Drain)
    → BookValid b
    → Fresh o
    → Index.find o.id b.index ≡ none
    → side_qty (levels o.side b) + o.quantity < u64_mod
    → Drained (limit_crosses o) b o d
    → BookValid (limit_book (drained_book b o d) (taken (traded_qty d.trades) o))
limit_book-BookValid b o d v f e w r =
    elim (Bool-cases (is_filled (taken (traded_qty d.trades) o))) [
      | inl y ↦ rw y (drained_book-BookValid (limit_crosses o) b o d v r)
      | inr n ↦ rw n (
          rest_in-BookValid (drained_book b o d) _
            (drained_book-BookValid (limit_crosses o) b o d v r)
            (record {
              on_side = refl;
              at_price = refl;
              is_open = ground arith;
              in_word = f.in_word;
            })
            (rw (index-with_levels d.side (record b { index = d.index }) (opposite o.side))
              (r.placed.absent o.id e))
            (rw (levels-with_levels_other d.side b d.index o.side) (omega (arith, f.unfilled)))
            (λ q k. no-price-crosses o.side o.price d.side r.good.valid (stuck n) q (
              rw (levels-with_levels d.side (record b { index = d.index }) (opposite o.side)) at
                k)))
    ]
  where
    stuck :
        is_filled (taken (traded_qty d.trades) o) ≡ false
        → best_passes (limit_crosses o) d.side ≡ false
    stuck n = elim r.stopped [
      | inl h ↦ absurd (ground (arith, ap (λ (x : Order). open_qty x) r.ledger.taker, n, h))
      | inr h ↦ h
    ]

finish_limit-BookValid :
    (b : OrderBook) (o : Order) (d : Drain)
    → BookValid b
    → Fresh o
    → Index.find o.id b.index ≡ none
    → side_qty (levels o.side b) + o.quantity < u64_mod
    → Drained (limit_crosses o) b o d
    → BookValid (finish_limit b o d).book
unfolding finish_limit
finish_limit-BookValid b o d v f e w r =
    subst (λ x. BookValid (limit_book (drained_book b o d) x)) (sym r.ledger.taker)
      (limit_book-BookValid b o d v f e w r)

module _ (now : ℕ → ℕ) (b : OrderBook) (o : Order) (v : BookValid b) (f : Fresh o) where
  match_market-BookValid : BookValid (match_market now b o).book
  unfolding match_market
  match_market-BookValid = drained_book-BookValid none b o _ v (drain_for-Drained now none b o v f)

  match_ioc-BookValid : BookValid (match_ioc now b o).book
  unfolding match_ioc
  match_ioc-BookValid =
      drained_book-BookValid (limit_crosses o) b o _ v
        (drain_for-Drained now (limit_crosses o) b o v f)

  match_fok-BookValid : BookValid (match_fok now b o).book
  unfolding match_fok
  match_fok-BookValid =
      elim (Bool-cases
        (leb o.quantity (available_fill (limit_crosses o) (levels (opposite o.side) b) o))) [
          | inl y ↦ rw y (
              drained_book-BookValid (limit_crosses o) b o _ v
                (drain_for-Drained now (limit_crosses o) b o v f))
          | inr n ↦ rw n v
        ]

  match_limit-BookValid :
      Index.find o.id b.index ≡ none
      → side_qty (levels o.side b) + o.quantity < u64_mod
      → BookValid (match_limit now b o).book
  unfolding match_limit
  match_limit-BookValid e w =
      finish_limit-BookValid b o _ v f e w (drain_for-Drained now (limit_crosses o) b o v f)

match_by-BookValid :
    (t : OrderType) (now : ℕ → ℕ) (b : OrderBook) (o : Order)
    → BookValid b
    → Fresh o
    → Index.find o.id b.index ≡ none
    → side_qty (levels o.side b) + o.quantity < u64_mod
    → BookValid (match_by t now b o).book
unfolding match_by
match_by-BookValid limit now b o v f e w = match_limit-BookValid now b o v f e w
match_by-BookValid market now b o v f e w = match_market-BookValid now b o v f
match_by-BookValid cancel now b o v f e w = match_limit-BookValid now b o v f e w
match_by-BookValid ioc now b o v f e w = match_ioc-BookValid now b o v f
match_by-BookValid fok now b o v f e w = match_fok-BookValid now b o v f

-- `addOrder` of any type keeps the book valid, for an order that is unfilled, of a positive
-- quantity and of an id that the book does not hold, if its side's quantities still fit a word.
pub add_order-BookValid :
    (now : ℕ → ℕ) (b : OrderBook) (o : Order)
    → BookValid b
    → Fresh o
    → has_order o.id b ≡ false
    → side_qty (levels o.side b) + o.quantity < u64_mod
    → BookValid (add_order now b o).book
unfolding add_order has_order
add_order-BookValid now b o v f e w =
    match_by-BookValid o.type now b (with_status accepted o) v
      (record { unfilled = f.unfilled; nonzero = f.nonzero; in_word = f.in_word }) (ground arith) w
