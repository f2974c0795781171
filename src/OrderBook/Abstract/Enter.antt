-- ===== src/OrderBook/Abstract/Enter.antt =====
-- `addOrder` and `cancelOrder` on two books that differ in the list of the index alone.
use astra_exchange.Base.{
  ℕ, ◌≡◌, refl, sym, Bool, true, false, none, inl, inr, Bool-cases, Option-cases, if◌then◌else◌,
  leb, ltb,
}
use mathlib.Core.Path.{subst}
use astra_exchange.Types.{
  Order, OrderStatus, OrderType, limit, market, cancel, ioc, fok, accepted, partially_filled,
  filled, cancelled, is_filled,
}
use astra_exchange.Index
use astra_exchange.Index.{Index, OrderLocation}
use astra_exchange.OrderBook.Defs.{OrderBook, Crosses, Drain, rest_order}
use astra_exchange.OrderBook.Match.{
  levels, opposite, drain_for, drained_book, settle, with_status, limit_status, rest_in,
  finish_limit, match_limit, match_market, match_ioc, match_fok, match_by, add_order, cancel_order,
  remove_at, limit_crosses, available_fill,
}
use astra_exchange.OrderBook.Abstract.Same.{
  SameIndex, erase-SameIndex, assign-SameIndex, at_index, SameDrain, drain_side-SameDrain, book_at,
  levels-book_at, SameBook, SameOutcome, with_levels-SameBook,
}

-- Books of the same symbol and levels over two lists of the index.
module _ (b : OrderBook) (jx : Index) (h : SameIndex b.index jx) where
  settle-SameOutcome :
      (o : Order) (d d' : Drain) (s : OrderStatus)
      → SameDrain d d'
      → SameOutcome (settle b o d s) (settle (book_at jx b) o d' s)
  settle-SameOutcome o d d' s (e, k) =
      subst (λ d'. SameOutcome (settle b o d s) (settle (book_at jx b) o d' s)) (sym e)
        (refl, refl, refl, with_levels-SameBook (opposite o.side) d.side b d.index d'.index k)

  drain_for-SameDrain :
      (now : ℕ → ℕ) (c : Crosses) (o : Order)
      → SameDrain (drain_for now c b o) (drain_for now c (book_at jx b) o)
  unfolding drain_for
  drain_for-SameDrain now c o =
      rw (levels-book_at (opposite o.side) jx b)
        (drain_side-SameDrain b.symbol now c (levels (opposite o.side) b) o b.index jx h)

  pub rest_in-SameBook : (o : Order) → SameBook (rest_in b o) (rest_in (book_at jx b) o)
  unfolding rest_in
  rest_in-SameBook o = rw (levels-book_at o.side jx b) (
      with_levels-SameBook o.side (rest_order o.side o (levels o.side b)) b _ _
        (assign-SameIndex o.id (record { side = o.side; price = o.price }) b.index jx h))

rest_or-SameBook :
    (r : Bool) (b x : OrderBook) (o : Order)
    → SameBook b x
    → SameBook (if r then b else rest_in b o) (if r then x else rest_in x o)
rest_or-SameBook true b x o h = h
rest_or-SameBook false b x o (e, h) =
    subst (λ x. SameBook (rest_in b o) (rest_in x o)) (sym e) (rest_in-SameBook b x.index h o)

finish_limit-SameOutcome :
    (b : OrderBook) (jx : Index) (o : Order) (d : Drain) (kx : Index)
    → SameIndex d.index kx
    → SameOutcome (finish_limit b o d) (finish_limit (book_at jx b) o (at_index kx d))
unfolding finish_limit
finish_limit-SameOutcome b jx o d kx k =
    let o' = with_status (limit_status d.incoming) d.incoming in
    (
      refl,
      refl,
      refl,
      rest_or-SameBook (is_filled o') (drained_book b o d) _ o'
          (with_levels-SameBook (opposite o.side) d.side b d.index kx k),
    )

-- The ways to match on both books.
module _ (b : OrderBook) (jx : Index) (h : SameIndex b.index jx) (now : ℕ → ℕ) where
  match_limit-SameOutcome :
      (o : Order) → SameOutcome (match_limit now b o) (match_limit now (book_at jx b) o)
  unfolding match_limit
  match_limit-SameOutcome o =
      let (e, k) = drain_for-SameDrain b jx h now (limit_crosses o) o in
      subst (λ d. SameOutcome (match_limit now b o) (finish_limit (book_at jx b) o d)) (sym e)
        (finish_limit-SameOutcome b jx o (drain_for now (limit_crosses o) b o) _ k)

  match_market-SameOutcome :
      (o : Order) → SameOutcome (match_market now b o) (match_market now (book_at jx b) o)
  unfolding match_market
  match_market-SameOutcome o =
      let (e, k) = drain_for-SameDrain b jx h now none o in
      let d = drain_for now none b o in
      subst
        (λ d'.
          SameOutcome (match_market now b o) (
            settle (book_at jx b) o d'
              (if is_filled d'.incoming then filled else partially_filled)))
        (sym e)
        (settle-SameOutcome b jx h o d _ (if is_filled d.incoming then filled else partially_filled)
          (refl, k))

  match_ioc-SameOutcome :
      (o : Order) → SameOutcome (match_ioc now b o) (match_ioc now (book_at jx b) o)
  unfolding match_ioc
  match_ioc-SameOutcome o =
      let (e, k) = drain_for-SameDrain b jx h now (limit_crosses o) o in
      let d = drain_for now (limit_crosses o) b o in
      let status = λ (d : Drain).
        if is_filled d.incoming
        then filled
        else if ltb 0 d.incoming.filled_qty
        then partially_filled
        else cancelled in
      subst (λ d'. SameOutcome (match_ioc now b o) (settle (book_at jx b) o d' (status d'))) (sym e)
        (settle-SameOutcome b jx h o d _ (status d) (refl, k))

  match_fok-SameOutcome :
      (o : Order) → SameOutcome (match_fok now b o) (match_fok now (book_at jx b) o)
  unfolding match_fok
  match_fok-SameOutcome o =
      let c = limit_crosses o in
      let l = levels-book_at (opposite o.side) jx b in
      elim (Bool-cases (leb o.quantity (available_fill c (levels (opposite o.side) b) o))) [
        | inl y ↦
            rw (l, y, match_fok)
              (settle-SameOutcome b jx h o _ _ filled (drain_for-SameDrain b jx h now c o))
        | inr n ↦ rw (l, n, match_fok) (refl, refl, refl, (refl, h))
      ]

  match_by-SameOutcome :
      (t : OrderType) (o : Order)
      → SameOutcome (match_by t now b o) (match_by t now (book_at jx b) o)
  unfolding match_by
  match_by-SameOutcome market o = match_market-SameOutcome o
  match_by-SameOutcome ioc o = match_ioc-SameOutcome o
  match_by-SameOutcome fok o = match_fok-SameOutcome o
  match_by-SameOutcome limit o = match_limit-SameOutcome o
  match_by-SameOutcome cancel o = match_limit-SameOutcome o

  -- Two books of the same symbol and levels whose indices hold the same map, in any order of their entries,
  -- answer an order with the same trades, the same order and the same completed makers, and are left
  -- with the same symbol and levels and indices that hold the same map.
  pub add_order-SameOutcome :
      (o : Order) → SameOutcome (add_order now b o) (add_order now (book_at jx b) o)
  unfolding add_order
  add_order-SameOutcome o = match_by-SameOutcome o.type (with_status accepted o)

pub cancel_order-SameBook :
    (b : OrderBook) (jx : Index) (id : ℕ)
    → SameIndex b.index jx
    → ((cancel_order (book_at jx b) id).0 ≡ (cancel_order b id).0)
      × SameBook (cancel_order b id).1 (cancel_order (book_at jx b) id).1
unfolding cancel_order
cancel_order-SameBook b jx id h = elim (Option-cases (Index.find id b.index)) [
  | inl n ↦ rw (sym (h id), n, cancel_order) (refl, (refl, h))
  | inr (loc, y) ↦
      rw (sym (h id), y, levels-book_at loc.side jx b, cancel_order)
        (
          refl,
          with_levels-SameBook loc.side (remove_at loc.price id (levels loc.side b)) b _ _
              (erase-SameIndex id b.index jx h),
        )
]
