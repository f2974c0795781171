-- ===== src/OrderBook/Abstract/Same.antt =====
-- The operations of a book next to those of a book with another list for its index.
use astra_exchange.Base.{
  ℕ, suc, zero, String, ◌+◌, ◌≡◌, refl, ap, sym, ◌∙◌, Bool, none, some, [], ◌∷◌, inl, inr,
  Bool-cases, Option-cases, if◌then◌else◌, ◌==◌, min,
}
use mathlib.Core.Path.{subst}
use astra_exchange.Base.Loop.{while}
use astra_exchange.Base.Int.{ℤ}
use astra_exchange.Types.{Side, buy, sell, Order, is_filled, remaining_qty}
use astra_exchange.PriceLevel.{PriceLevel, front}
use astra_exchange.Index
use astra_exchange.Index.{Index, OrderLocation}
use astra_exchange.OrderBook.Defs.{
  OrderBook, Levels, Crosses, Drain, drain_test, fill, trade_with, drain_best, drain_body,
  drain_side, side_count,
}
use astra_exchange.OrderBook.Match.{Outcome, levels, with_levels}

-- Two lists that hold the same map.
abbrev pub SameIndex : Index → Index → Type 0
SameIndex ix jx = (id : ℕ) → Index.find id ix ≡ Index.find id jx

pub erase-SameIndex :
    (id : ℕ) (ix jx : Index) → SameIndex ix jx → SameIndex (Index.erase id ix) (Index.erase id jx)
erase-SameIndex id ix jx h i =
    Index.find-erase i id ix
    ∙ ap (λ f. if i == id then none else f) (h i)
    ∙ sym (Index.find-erase i id jx)

pub assign-SameIndex :
    (id : ℕ) (loc : OrderLocation) (ix jx : Index)
    → SameIndex ix jx
    → SameIndex (Index.assign id loc ix) (Index.assign id loc jx)
assign-SameIndex id loc ix jx h i =
    Index.find-assign i id loc ix
    ∙ ap (λ f. if i == id then some loc else f) (h i)
    ∙ sym (Index.find-assign i id loc jx)

abbrev pub at_index : Index → Drain → Drain
at_index ix s = record s { index = ix }

-- Two states of the loop that differ in the list of the index alone.
abbrev pub SameDrain : Drain → Drain → Type 0
SameDrain s t = (t ≡ at_index t.index s) × SameIndex s.index t.index

module _ (symbol : String) (now : ℕ → ℕ) where
  trade_with-SameDrain :
      (s : Drain) (jx : Index) (p : ℤ) (l : PriceLevel) (rest : Levels) (maker : Order)
      → SameIndex s.index jx
      → SameDrain
          (trade_with symbol now s p l rest maker)
          (trade_with symbol now (at_index jx s) p l rest maker)
  unfolding trade_with
  trade_with-SameDrain s jx p l rest maker h =
      let qty = min (remaining_qty s.incoming) (remaining_qty maker) in
      elim (Bool-cases (is_filled (fill qty maker))) [
        | inl y ↦ (refl, rw y (erase-SameIndex maker.id s.index jx h))
        | inr n ↦ (refl, rw n h)
      ]

  drain_best-SameDrain :
      (s : Drain) (jx : Index) (m : Levels)
      → SameIndex s.index jx
      → SameDrain (drain_best symbol now s m) (drain_best symbol now (at_index jx s) m)
  unfolding drain_best
  drain_best-SameDrain s jx [] h = (refl, h)
  drain_best-SameDrain s jx ((p, l) ∷ rest) h = elim (Option-cases (front l)) [
    | inl n ↦ rw (n, drain_best) (refl, h)
    | inr (maker, y) ↦ rw (y, drain_best) (trade_with-SameDrain s jx p l rest maker h)
  ]

module _ (test : Drain → Bool) (body : Drain → Drain)
    (blind : (s : Drain) (jx : Index) → test (at_index jx s) ≡ test s)
    (each : (s : Drain) (jx : Index)
      → SameIndex s.index jx
      → SameDrain (body s) (body (at_index jx s))) where
  while-SameDrain :
      (rounds : ℕ) (s : Drain) (jx : Index)
      → SameIndex s.index jx
      → SameDrain (while test body rounds s) (while test body rounds (at_index jx s))
  unfolding while
  while-SameDrain zero s jx h = (refl, h)
  while-SameDrain (suc rounds) s jx h = elim (Bool-cases (test s)) [
    | inr n ↦ rw (blind s jx, n, while) (refl, h)
    | inl y ↦
        let (e, k) = each s jx h in
        rw (blind s jx, y, while)
          (subst (λ d. SameDrain (while test body rounds (body s)) (while test body rounds d))
            (sym e) (while-SameDrain rounds (body s) (body (at_index jx s)).index k))
  ]

pub drain_side-SameDrain :
    (symbol : String) (now : ℕ → ℕ) (c : Crosses) (side : Levels) (o : Order) (ix jx : Index)
    → SameIndex ix jx
    → SameDrain (drain_side symbol now c side o ix) (drain_side symbol now c side o jx)
unfolding drain_side drain_body drain_test
drain_side-SameDrain symbol now c side o ix jx h =
    while-SameDrain (drain_test c) (drain_body symbol now) (λ s jx. refl)
      (λ s jx h. drain_best-SameDrain symbol now s jx s.side h) (side_count side + 2)
      (record { trades = []; side = side; incoming = o; index = ix; released = [] }) jx h

-- The book with this list for its index.
abbrev pub book_at : Index → OrderBook → OrderBook
book_at ix b = record b { index = ix }

pub levels-book_at : (s : Side) (ix : Index) (b : OrderBook) → levels s (book_at ix b) ≡ levels s b
levels-book_at buy ix b = refl
levels-book_at sell ix b = refl

-- Two books that differ in the list of the index alone, and hold the same map in it.
abbrev pub SameBook : OrderBook → OrderBook → Type 0
SameBook b d = (d ≡ book_at d.index b) × SameIndex b.index d.index

-- Two outcomes that differ in no more.
abbrev pub SameOutcome : Outcome → Outcome → Type 0
SameOutcome x y =
    (y.trades ≡ x.trades) × (y.order ≡ x.order) × (y.released ≡ x.released) × SameBook x.book y.book

pub with_levels-SameBook :
    (s : Side) (m : Levels) (b : OrderBook) (ix jx : Index)
    → SameIndex ix jx
    → SameBook (with_levels s m (book_at ix b)) (with_levels s m (book_at jx b))
with_levels-SameBook buy m b ix jx h = (refl, h)
with_levels-SameBook sell m b ix jx h = (refl, h)
