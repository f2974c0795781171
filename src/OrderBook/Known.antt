-- ===== src/OrderBook/Known.antt =====
-- Which ids a book can hold after an order: those that it held, and the order's own.
use astra_exchange.Base.{
  ℕ, ◌≡◌, ◌≢◌, refl, ap, ◌∙◌, ◌⊎◌, inl, inr, true, none, arith, leb, if◌then◌else◌, Bool-cases,
  Option-cases, ℕ_discrete,
}
use astra_exchange.Types.{OrderType, limit, market, cancel, ioc, fok, Order, accepted, is_filled}
use astra_exchange.Index
use astra_exchange.Index.{find-assign}
use astra_exchange.OrderBook.Defs.{OrderBook, Crosses, Drain, rest_order}
use astra_exchange.OrderBook.Match.{
  levels, opposite, limit_crosses, with_status, limit_status, drained_book, drain_for, finish_limit,
  rest_in, match_limit, match_market, match_ioc, match_fok, match_by, add_order, available_fill,
}
use astra_exchange.OrderBook.Query.{has_order}
use astra_exchange.OrderBook.Valid.{BookValid, Fresh}
use astra_exchange.OrderBook.Drained.{Drained, drain_for-Drained}
use astra_exchange.OrderBook.Sides.{index-with_levels}

index-rest_in :
    (b : OrderBook) (o : Order)
    → (rest_in b o).index ≡ Index.assign o.id (record { side = o.side; price = o.price }) b.index
unfolding rest_in
index-rest_in b o = index-with_levels (rest_order o.side o (levels o.side b)) _ o.side

rest_in-absent :
    (i : ℕ) (b : OrderBook) (o : Order)
    → Index.find i b.index ≡ none
    → i ≢ o.id
    → Index.find i (rest_in b o).index ≡ none
rest_in-absent i b o a n =
    rw (index-rest_in b o, find-assign i o.id (record { side = o.side; price = o.price }) b.index)
      (ground (arith, a))

module _ (i : ℕ) (b : OrderBook) (o : Order) (a : Index.find i b.index ≡ none) (n : i ≢ o.id) where
  drained_book-absent :
      (c : Crosses) (d : Drain) → Drained c b o d → Index.find i (drained_book b o d).index ≡ none
  drained_book-absent c d r =
      rw (index-with_levels d.side (record b { index = d.index }) (opposite o.side))
        (r.placed.absent i a)

  limit_book-absent :
      (d : Drain) (x : Order)
      → Drained (limit_crosses o) b o d
      → x.id ≡ o.id
      → Index.find i
          (if is_filled (with_status (limit_status x) x)
            then drained_book b o d
            else rest_in (drained_book b o d) (with_status (limit_status x) x)).index
        ≡ none
  limit_book-absent d x r e =
      let h = drained_book-absent (limit_crosses o) d r in
      elim (Bool-cases (is_filled x)) [
        | inl y ↦ rw y h
        | inr z ↦ rw z (rest_in-absent i (drained_book b o d) _ h (λ k. n (k ∙ e)))
      ]

  match_by-absent :
      (t : OrderType) (now : ℕ → ℕ)
      → BookValid b
      → Fresh o
      → Index.find i (match_by t now b o).book.index ≡ none
  unfolding match_by match_market match_ioc match_fok match_limit finish_limit
  match_by-absent market now v f = drained_book-absent none _ (drain_for-Drained now none b o v f)
  match_by-absent ioc now v f =
      drained_book-absent (limit_crosses o) _ (drain_for-Drained now (limit_crosses o) b o v f)
  match_by-absent limit now v f =
      let r = drain_for-Drained now (limit_crosses o) b o v f in
      limit_book-absent _ (drain_for now (limit_crosses o) b o).incoming r
        (ap (λ (x : Order). x.id) r.ledger.taker)
  match_by-absent cancel now v f =
      let r = drain_for-Drained now (limit_crosses o) b o v f in
      limit_book-absent _ (drain_for now (limit_crosses o) b o).incoming r
        (ap (λ (x : Order). x.id) r.ledger.taker)
  match_by-absent fok now v f =
      elim (Bool-cases
        (leb o.quantity (available_fill (limit_crosses o) (levels (opposite o.side) b) o))) [
          | inl y ↦ rw y (
              drained_book-absent (limit_crosses o) _
                (drain_for-Drained now (limit_crosses o) b o v f))
          | inr z ↦ rw z a
        ]

-- On a valid book and for a fresh order, an id that the book holds after `addOrder` is the order's, or
-- was held before.
pub has_order-add_order :
    (i : ℕ) (now : ℕ → ℕ) (b : OrderBook) (o : Order)
    → BookValid b
    → Fresh o
    → has_order i (add_order now b o).book ≡ true
    → (i ≡ o.id) ⊎ (has_order i b ≡ true)
unfolding has_order add_order
has_order-add_order i now b o v f h = elim (ℕ_discrete i o.id) [
  | yes y ↦ inl y
  | no n ↦ elim (Option-cases (Index.find i b.index)) [
    | inl e ↦
        let k =
          match_by-absent i b (with_status accepted o) e n o.type now v
            (record { unfilled = f.unfilled; nonzero = f.nonzero; in_word = f.in_word }) in
        absurd (ground (arith, h, k))
    | inr (l, e) ↦ inr (rw e refl)
  ]
]
