-- ===== src/OrderBook/Cancel.antt =====
-- `cancelOrder`: the order that the index names leaves the book, and nothing else does.
use mathlib.Core.List.{append_assoc}
use astra_exchange.Base.{
  ℕ, ◌+◌, ◌<◌, ◌≡◌, refl, ap, inl, inr, some, List, [], ◌∷◌, ◌++◌, arith, sum_by, sum_by-append,
  All, ◌==◌, u64_mod, Bool-cases,
}
use astra_exchange.Base.Int.{ℤ}
use astra_exchange.Types.{Side, Order}
use astra_exchange.PriceLevel.{PriceLevel, take_out, remove_order}
use astra_exchange.OrderBook.Valid.{Rests, LevelValid, level_qty, open_qty, occurrences}

-- The second list is the first less one order.
pub record Without (o : Order) (xs ys : List Order) : Type 0 where
  pub before : List Order
  pub after : List Order
  pub whole : xs ≡ before ++ o ∷ after
  pub rest : ys ≡ before ++ after

Without-cons : (o x : Order) (xs ys : List Order) → Without o xs ys → Without o (x ∷ xs) (x ∷ ys)
Without-cons o x xs ys w = record {
  before = x ∷ w.before;
  after = w.after;
  whole = ap (λ zs. x ∷ zs) w.whole;
  rest = ap (λ zs. x ∷ zs) w.rest;
}

pub Without-prepend :
    (o : Order) (zs xs ys : List Order) → Without o xs ys → Without o (zs ++ xs) (zs ++ ys)
Without-prepend o [] xs ys w = w
Without-prepend o (z ∷ zs) xs ys w =
    Without-cons o z (zs ++ xs) (zs ++ ys) (Without-prepend o zs xs ys w)

pub Without-extend :
    (o : Order) (xs ys bs : List Order) → Without o xs ys → Without o (xs ++ bs) (ys ++ bs)
Without-extend o xs ys bs w = record {
  before = w.before;
  after = w.after ++ bs;
  whole = rw w.whole (append_assoc w.before (o ∷ w.after) bs);
  rest = rw w.rest (append_assoc w.before w.after bs);
}

pub Without-sum :
    (f : Order → ℕ) (o : Order) (xs ys : List Order)
    → Without o xs ys
    → sum_by f xs ≡ sum_by f ys + f o
Without-sum f o xs ys w =
    rw (w.whole, w.rest, sum_by-append f w.before (o ∷ w.after), sum_by-append f w.before w.after)
      (omega arith)

All-Without :
    (P : Order → Type 0) (o : Order) (bs cs : List Order)
    → All P (bs ++ o ∷ cs)
    → P o × All P (bs ++ cs)
All-Without P o [] cs h = h
All-Without P o (b ∷ bs) cs h = let r = All-Without P o bs cs h.1 in (r.0, (h.0, r.1))

-- An order that is there is found, and it alone is taken out.
take_out-Without :
    (id : ℕ) (os : List Order)
    → 0 < occurrences id os
    → (o : Order) × (rest : List Order) × (take_out id os ≡ some (o, rest))
      × (o.id ≡ id)
      × Without o os rest
unfolding take_out
take_out-Without id [] h = absurd (omega arith)
take_out-Without id (x ∷ os) h = elim (Bool-cases (x.id == id)) [
  | inl y ↦ (
    x,
    os,
    rw y refl,
    ground arith,
    record { before = []; after = os; whole = refl; rest = refl },
  )
  | inr n ↦
      let (o, rest, e, i, w) = take_out-Without id os (ground arith) in
      (o, x ∷ rest, rw (n, e) refl, i, Without-cons o x os rest w)
]

-- `removeOrder` on a level that holds the order.
pub remove_order-Without :
    (s : Side) (p : ℤ) (id : ℕ) (l : PriceLevel)
    → 0 < occurrences id l.orders
    → level_qty l < u64_mod
    → LevelValid s p l
    → (o : Order) × (o.id ≡ id)
      × Rests s p o
      × Without o l.orders (remove_order id l).1.orders
      × All (Rests s p) (remove_order id l).1.orders
      × ((remove_order id l).1.total_qty ≡ level_qty (remove_order id l).1)
      × ((remove_order id l).1.price ≡ p)
unfolding remove_order
remove_order-Without s p id l h b v =
    let (o, rest, e, i, w) = take_out-Without id l.orders h in
    let r : All (Rests s p) (w.before ++ o ∷ w.after) = rw w.whole at v.resting in
    let k = All-Without (Rests s p) o w.before w.after r in
    (
      o,
      i,
      k.0,
      rw (e, remove_order) w,
      rw (e, remove_order) (rw w.rest k.1),
      rw (e, remove_order)
          (omega
            (arith, Without-sum open_qty o l.orders rest w, v.totalled, k.0.is_open, k.0.in_word)),
      rw (e, remove_order) v.keyed,
    )
