-- ===== src/OrderBook/Shares/Calls.antt =====
-- What a call of a book trades and leaves for one id.
use astra_exchange.Base.{
  ℕ, ◌+◌, ◌≤◌, ◌≡◌, refl, ◌∙◌, inl, inr, Bool, true, false, none, arith, leb, sum_by, sum_by-append,
  ◌∷◌, [], Bool-cases, Option-cases, if◌then◌else◌,
}
use astra_exchange.Types.{OrderType, limit, market, cancel, ioc, fok, Order, accepted, is_filled}
use astra_exchange.Index
use astra_exchange.OrderBook.Defs.{Levels, OrderBook, Crosses}
use astra_exchange.OrderBook.Match.{
  Outcome, levels, opposite, limit_crosses, with_status, limit_status, drain_for, drained_book,
  rest_in, finish_limit, match_limit, match_market, match_ioc, match_fok, match_by, add_order,
  available_fill, cancel_order, remove_at,
}
use astra_exchange.OrderBook.Valid.{BookValid, Fresh}
use astra_exchange.OrderBook.Drain.{start, drain_side-keeps}
use astra_exchange.OrderBook.Drained.{start-Good}
use astra_exchange.OrderBook.Priority.{queue}
use astra_exchange.OrderBook.Cancel.{Without-sum}
use astra_exchange.OrderBook.Cancelled.{removed}
use astra_exchange.OrderBook.Shares.Defs.{
  traded_for, share, side_share, book_share, with_levels-share, rest_in-share,
}
use astra_exchange.OrderBook.Shares.Loop.{total, Round-total}

module _ (i : ℕ) where
  -- What a call trades for an id and what it leaves at rest.
  abbrev pub spent : Outcome → ℕ
  spent r = traded_for i r.trades + book_share i r.book

  either :
      (n k : ℕ) (t : Bool) (x y : OrderBook)
      → k + book_share i x ≤ n
      → k + book_share i y ≤ n
      → k + book_share i (if t then x else y) ≤ n
  either n k true x y h g = h
  either n k false x y h g = g

  module _ (now : ℕ → ℕ) (b : OrderBook) (o : Order) (v : BookValid b) (f : Fresh o) where
    drain_for-total :
        (c : Crosses)
        → let d = drain_for now c b o in
          traded_for i d.trades + side_share i d.side + share i d.incoming
          ≡ side_share i (levels (opposite o.side) b) + share i o
    unfolding drain_for
    drain_for-total c =
        let m = levels (opposite o.side) b in
        let k =
          drain_side-keeps b.symbol now c (opposite o.side)
            (λ t. total i t ≡ total i (start m o b.index))
            (λ s t g e r. Round-total i b.symbol now c s t r ∙ e) m o b.index (start-Good b o v f)
            refl in
        omega (arith, k.1)

    settled :
        (c : Crosses)
        → let d = drain_for now c b o in
          traded_for i d.trades + book_share i (drained_book b o d) + share i d.incoming
          ≡ book_share i b + share i o
    settled c =
        let d = drain_for now c b o in
        omega (arith, drain_for-total c, with_levels-share i (opposite o.side) d.side d.index b)

    match_limit-spent : spent (match_limit now b o) ≤ book_share i b + share i o
    unfolding match_limit finish_limit
    match_limit-spent =
        let c = limit_crosses o in
        let d = drain_for now c b o in
        let o' = with_status (limit_status d.incoming) d.incoming in
        let b' = drained_book b o d in
        either (book_share i b + share i o) (traded_for i d.trades) (is_filled o') b'
          (rest_in b' o') (omega (arith, settled c))
          (omega (arith, settled c, rest_in-share i b' o'))

    match_fok-spent : spent (match_fok now b o) ≤ book_share i b + share i o
    unfolding match_fok
    match_fok-spent =
        let c = limit_crosses o in
        elim (Bool-cases (leb o.quantity (available_fill c (levels (opposite o.side) b) o))) [
          | inl y ↦ rw (y, if◌then◌else◌) (omega (arith, settled c))
          | inr n ↦ rw (n, if◌then◌else◌) (omega arith)
        ]

    match_by-spent : (t : OrderType) → spent (match_by t now b o) ≤ book_share i b + share i o
    unfolding match_by match_market match_ioc
    match_by-spent limit = match_limit-spent
    match_by-spent market = omega (arith, settled none)
    match_by-spent cancel = match_limit-spent
    match_by-spent ioc = omega (arith, settled (limit_crosses o))
    match_by-spent fok = match_fok-spent

  -- What `addOrder` trades for an id, and what then rests under it, comes from what rested under it
  -- and from the order.
  pub add_order-spent :
      (now : ℕ → ℕ) (b : OrderBook) (o : Order)
      → BookValid b
      → Fresh o
      → spent (add_order now b o) ≤ book_share i b + share i o
  unfolding add_order
  add_order-spent now b o v f =
      match_by-spent now b (with_status accepted o) v
        (record { unfilled = f.unfilled; nonzero = f.nonzero; in_word = f.in_word }) o.type

  side_share-queue : (m : Levels) → side_share i m ≡ sum_by (share i) (queue m)
  side_share-queue [] = refl
  side_share-queue ((p, l) ∷ m) =
      rw (sum_by-append (share i) l.orders (queue m), side_share-queue m) refl

  -- `cancelOrder` adds nothing to what rests under an id.
  pub cancel_order-share :
      (b : OrderBook) (id : ℕ) → BookValid b → book_share i (cancel_order b id).1 ≤ book_share i b
  unfolding cancel_order
  cancel_order-share b id v = elim (Option-cases (Index.find id b.index)) [
    | inl e ↦ rw (e, cancel_order) (omega arith)
    | inr (loc, e) ↦
        let (o, r) = removed b id loc e v in
        let m : Levels = levels loc.side b in
        let m' : Levels = remove_at loc.price id m in
        rw (e, cancel_order)
          (omega (
            arith,
            Without-sum (share i) o (queue m) (queue m') r.without,
            side_share-queue m,
            side_share-queue m',
            with_levels-share i loc.side m' (Index.erase id b.index) b,
          ))
  ]
