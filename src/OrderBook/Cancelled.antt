-- ===== src/OrderBook/Cancelled.antt =====
-- `cancelOrder` on a whole book.
use astra_exchange.Base.{
  ℕ, ◌≡◌, refl, ap, ◌⊎◌, inl, inr, Bool, true, false, some, arith, Option-cases,
}
use astra_exchange.Types.{Side, Order}
use astra_exchange.Index
use astra_exchange.Index.{OrderLocation, find-erase, erase-KeysOnce}
use astra_exchange.OrderBook.Defs.{Levels, OrderBook}
use astra_exchange.OrderBook.Match.{levels, with_levels, opposite, cancel_order, remove_at}
use astra_exchange.OrderBook.Query.{has_order}
use astra_exchange.OrderBook.Valid.{BookValid, located, open_qty}
use astra_exchange.OrderBook.Priority.{queue}
use astra_exchange.OrderBook.Places.{erase-SideIndexed, erase-SideIndexed_other, same_side_self}
use astra_exchange.OrderBook.Cancel.{Without, Without-sum}
use astra_exchange.OrderBook.Removal.{Removed, remove_at-Removed, queue-qty}
use astra_exchange.OrderBook.Sides.{
  levels-SideValid, levels-in_word, levels-SideIndexed, levels-Apart, Apart-sub,
  with_levels-BookValid, levels-with_levels, index-with_levels, levels-with_levels-opposite,
}

-- The book after the order that the index places at `loc` is removed.
abbrev pub cancelled_book : OrderBook → ℕ → OrderLocation → OrderBook
cancelled_book b id loc =
    with_levels loc.side (remove_at loc.price id (levels loc.side b))
      (record b { index = Index.erase id b.index })

module _ (b : OrderBook) (id : ℕ) (loc : OrderLocation) (e : Index.find id b.index ≡ some loc)
    (v : BookValid b) where
  cancel_order-found : cancel_order b id ≡ (true, cancelled_book b id loc)
  unfolding cancel_order
  cancel_order-found = rw (e, cancel_order) refl

  pub removed :
      (o : Order) × Removed loc.side loc.price id o
        (levels loc.side b)
        (remove_at loc.price id (levels loc.side b))
  removed =
      remove_at-Removed loc.side loc.price id (levels loc.side b) (levels-SideValid loc.side v)
        (levels-in_word loc.side v)
        (ground (
          arith,
          levels-SideIndexed loc.side v id loc.price,
          ap (λ l. located l loc.side loc.price) e,
          same_side_self loc.side,
        ))

  cancelled_book-BookValid : BookValid (cancelled_book b id loc)
  cancelled_book-BookValid =
      let (o, r) = removed in
      let s : Side = loc.side in
      let m : Levels = levels s b in
      let m' : Levels = remove_at loc.price id m in
      let i = levels-SideIndexed s v in
      with_levels-BookValid s m' (Index.erase id b.index) b v (record {
        valid = r.valid;
        in_word = omega (
          arith,
          Without-sum open_qty o (queue m) (queue m') r.without,
          queue-qty m,
          queue-qty m',
          levels-in_word s v,
        );
        here = erase-SideIndexed s id loc.price m m' b.index i r.removes;
        there =
            erase-SideIndexed_other s id loc.price m m' b.index (levels (opposite s) b) i r.removes
              (levels-SideIndexed (opposite s) v);
        apart = Apart-sub s m m' (levels (opposite s) b) r.keys (levels-Apart s v);
        once = erase-KeysOnce id b.index v.index_once;
      })

-- `cancelOrder` keeps a valid book valid.
pub cancel_order-BookValid :
    (b : OrderBook) (id : ℕ) → BookValid b → BookValid (cancel_order b id).1
unfolding cancel_order
cancel_order-BookValid b id v = elim (Option-cases (Index.find id b.index)) [
  | inl e ↦ rw (e, cancel_order) v
  | inr (loc, e) ↦ rw (e, cancel_order) (cancelled_book-BookValid b id loc e v)
]

-- What `cancelOrder` does, in the queue of the order's side: the order goes, all others stay in
-- their order, the other side is untouched, and the id is known no more.
pub record Cancels (b : OrderBook) (id : ℕ) (r : Bool × OrderBook) (s : Side) (o : Order)
    : Type 0 where
  pub known : has_order id b ≡ true
  pub answer : r.0 ≡ true
  pub named : o.id ≡ id
  pub without : Without o (queue (levels s b)) (queue (levels s r.1))
  pub other : levels (opposite s) r.1 ≡ levels (opposite s) b
  pub unknown : has_order id r.1 ≡ false

found-Cancels :
    (b : OrderBook) (id : ℕ) (loc : OrderLocation)
    → Index.find id b.index ≡ some loc
    → BookValid b
    → (o : Order) × Cancels b id (true, cancelled_book b id loc) loc.side o
unfolding has_order
found-Cancels b id loc e v =
    let (o, r) = removed b id loc e v in
    let s : Side = loc.side in
    let m' : Levels = remove_at loc.price id (levels s b) in
    let b' : OrderBook = record b { index = Index.erase id b.index } in
    (
      o,
      record {
        known = rw e refl;
        answer = refl;
        named = r.named;
        without = rw (levels-with_levels m' b' s) r.without;
        other = levels-with_levels-opposite m' b (Index.erase id b.index) s;
        unknown = rw (index-with_levels m' b' s, find-erase id id b.index) (ground arith);
      },
    )

-- `cancelOrder` answers false and changes nothing for an id that the book does not hold, and
-- otherwise answers true and removes the one order of that id.
pub cancel_order-exact :
    (b : OrderBook) (id : ℕ)
    → BookValid b
    → ((has_order id b ≡ false) × (cancel_order b id ≡ (false, b)))
      ⊎ ((s : Side) × (o : Order) × Cancels b id (cancel_order b id) s o)
unfolding cancel_order has_order
cancel_order-exact b id v = elim (Option-cases (Index.find id b.index)) [
  | inl e ↦ inl (rw e refl, rw (e, cancel_order) refl)
  | inr (loc, e) ↦
      let (o, c) = found-Cancels b id loc e v in
      inr (loc.side, o, rw (cancel_order-found b id loc e v) c)
]

-- A cancellation brings in no id.
pub cancel_order-has_order :
    (i : ℕ) (b : OrderBook) (id : ℕ)
    → has_order i (cancel_order b id).1 ≡ true
    → has_order i b ≡ true
unfolding cancel_order has_order
cancel_order-has_order i b id h = elim (Option-cases (Index.find id b.index)) [
  | inl e ↦ rw (e, cancel_order) at h
  | inr (loc, e) ↦
      let k = rw (e, cancel_order) at h in
      let x : OrderBook = record b { index = Index.erase id b.index } in
      let m = remove_at loc.price id (levels loc.side b) in
      ground (arith, rw (index-with_levels m x loc.side) at k, find-erase i id b.index)
]
