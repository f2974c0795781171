-- ===== src/OrderBook/Abstract/Commute.antt =====
-- Orders that rest on the two sides of a book commute.
use mathlib.Core.Quot
use astra_exchange.Base.{
  ℕ, suc, zero, ◌+◌, ◌≡◌, ◌≢◌, ◌<◌, refl, ap, sym, ◌∙◌, Bool, false, [], ◌∷◌, inl, inr, Bool-cases,
  Option-cases, arith, if◌then◌else◌, if_pos, if_neg,
}
use astra_exchange.Base.Int.{ℤ, leb_ℤ, ℤ_discrete}
use astra_exchange.Base.Loop.{while}
use astra_exchange.Types.{Side, buy, sell, limit, accepted, Order, is_filled}
use astra_exchange.PriceLevel.{PriceLevel, new_level, add_order}
use astra_exchange.PriceMap
use astra_exchange.Index
use astra_exchange.Index.{OrderLocation}
use astra_exchange.OrderBook.Defs.{
  OrderBook, Levels, Crosses, Drain, passes, best_passes, drain_test, drain_body, drain_side,
  side_count, rest_order,
}
use astra_exchange.OrderBook.Match.{
  opposite, levels, with_levels, crosses_at, limit_crosses, limit_status, with_status, drain_for,
  drained_book, rest_in, finish_limit, match_limit, match_by,
}
use astra_exchange.OrderBook.Match.{add_order as enter}
use astra_exchange.OrderBook.Abstract.Same.{SameBook}
use astra_exchange.OrderBook.Abstract.Defs.{abstract, add_abstract}

update-best :
    (c : Crosses) (p : ℤ) (f : PriceLevel → PriceLevel) (m : Levels)
    → best_passes c (PriceMap.update p f m) ≡ best_passes c m
unfolding PriceMap.update
update-best c p f [] = refl
update-best c p f ((q, v) ∷ m) = elim (ℤ_discrete q p) [
  | yes e ↦ rw (if_pos _ e) refl
  | no n ↦ rw (if_neg _ n) refl
]

emplace-best :
    (c : Crosses) (s : Side) (p : ℤ) (v : PriceLevel) (m : Levels)
    → best_passes c m ≡ false
    → passes c p ≡ false
    → best_passes c (PriceMap.emplace s p v m) ≡ false
unfolding PriceMap.emplace
emplace-best c s p v [] h k = k
emplace-best c s p v ((q, w) ∷ m) h k = elim (Bool-cases (PriceMap.ahead s p q)) [
  | inl y ↦ rw y k
  | inr n ↦ elim (ℤ_discrete q p) [ yes e ↦ rw (n, if_pos _ e) h | no d ↦ rw (n, if_neg _ d) h ]
]

-- An order at a price that does not pass leaves a side that does not pass so.
rest_order-best :
    (c : Crosses) (s : Side) (o : Order) (m : Levels)
    → best_passes c m ≡ false
    → passes c o.price ≡ false
    → best_passes c (rest_order s o m) ≡ false
unfolding rest_order
rest_order-best c s o m h k = elim (Option-cases (PriceMap.find o.price m)) [
  | inl n ↦
      rw (n, rest_order)
        (update-best c o.price (add_order o) _ ∙ emplace-best c s o.price (new_level o.price) m h k)
  | inr (l, y) ↦ rw (y, rest_order) (update-best c o.price (add_order o) m ∙ h)
]

while-stops :
    (test : Drain → Bool) (body : Drain → Drain) (rounds : ℕ) (s : Drain)
    → test s ≡ false
    → while test body rounds s ≡ s
unfolding while
while-stops test body zero s h = refl
while-stops test body (suc rounds) s h = rw (h, while) refl

same_levels :
    (s : Side) (b : OrderBook) → with_levels s (levels s b) (record b { index = b.index }) ≡ b
same_levels buy b = refl
same_levels sell b = refl

-- The order as it rests.
abbrev resting : Order → Order
resting o = with_status accepted o

-- What the loop gives where it has no round.
abbrev nothing : OrderBook → Order → Drain
nothing b o = record {
  trades = [];
  side = levels (opposite o.side) b;
  incoming = o;
  index = b.index;
  released = [];
}

drain_for-nothing :
    (now : ℕ → ℕ) (c : Crosses) (b : OrderBook) (o : Order)
    → best_passes c (levels (opposite o.side) b) ≡ false
    → drain_for now c b o ≡ nothing b o
unfolding drain_for drain_side drain_test
drain_for-nothing now c b o h =
    while-stops (drain_test c) (drain_body b.symbol now)
      (side_count (levels (opposite o.side) b) + 2) (nothing b o) (rw h (ground arith))

enter-rests :
    (now : ℕ → ℕ) (b : OrderBook) (o : Order)
    → o.type ≡ limit
    → o.filled_qty ≡ 0
    → is_filled o ≡ false
    → best_passes (limit_crosses o) (levels (opposite o.side) b) ≡ false
    → ((enter now b o).book ≡ rest_in b (resting o)) × ((enter now b o).trades ≡ [])
unfolding enter match_limit match_by finish_limit
enter-rests now b o t z f h =
    let d = drain_for-nothing now (limit_crosses o) b (resting o) h in
    let e : enter now b o ≡ finish_limit b (resting o) (nothing b (resting o)) =
      ap (λ t. match_by t now b (resting o)) t ∙ ap (finish_limit b (resting o)) d in
    let there = drained_book b (resting o) (nothing b (resting o)) in
    let st : limit_status (resting o) ≡ accepted = ground (arith, z) in
    (
      ap (λ x. x.book) e
          ∙ ap (λ r. if r then there else rest_in there (with_status (limit_status (resting o)) o))
              f
          ∙ ap (λ s. rest_in there (with_status s o)) st
          ∙ ap (λ x. rest_in x (resting o)) (same_levels (opposite o.side) b),
      ap (λ x. x.trades) e,
    )

-- `restOrder` and the index, for a given side.
abbrev rest_as : Side → OrderBook → Order → OrderBook
rest_as s b o =
    with_levels s (rest_order s o (levels s b))
      (record b { index = Index.assign o.id (record { side = s; price = o.price }) b.index })

rest_in-as : (s : Side) (b : OrderBook) (o : Order) → o.side ≡ s → rest_in b o ≡ rest_as s b o
unfolding rest_in
rest_in-as s b o e = ap (λ s. rest_as s b o) e

rests-SameBook :
    (b : OrderBook) (o p : Order)
    → o.id ≢ p.id
    → SameBook (rest_as sell (rest_as buy b o) p) (rest_as buy (rest_as sell b p) o)
rests-SameBook b o p n = (
  refl,
  λ id.
      (let at_buy : OrderLocation = record { side = buy; price = o.price } in
        let at_sell : OrderLocation = record { side = sell; price = p.price } in
        ground (
          arith,
          n,
          Index.find-assign id p.id at_sell (Index.assign o.id at_buy b.index),
          Index.find-assign id o.id at_buy b.index,
          Index.find-assign id o.id at_buy (Index.assign p.id at_sell b.index),
          Index.find-assign id p.id at_sell b.index,
        )),
)

-- A limit order on this side that comes unfilled, and meets no price that it accepts.
pub record Rests (s : Side) (b : OrderBook) (o : Order) : Type 0 where
  pub kind : o.type ≡ limit
  pub side : o.side ≡ s
  pub unfilled : o.filled_qty ≡ 0
  pub nonzero : 0 < o.quantity
  pub apart : best_passes (limit_crosses o) (levels (opposite s) b) ≡ false

enter-Rests :
    (now : ℕ → ℕ) (s : Side) (b : OrderBook) (o : Order)
    → Rests s b o
    → ((enter now b o).book ≡ rest_as s b (resting o)) × ((enter now b o).trades ≡ [])
enter-Rests now s b o r =
    let (e, f) =
      enter-rests now b o r.kind r.unfilled (ground (arith, r.unfilled, r.nonzero))
        (ap (λ s. best_passes (limit_crosses o) (levels (opposite s) b)) r.side ∙ r.apart) in
    (e ∙ rest_in-as s b (resting o) r.side, f)

-- After an order has rested on one side, one at a price apart from it still rests on the other.
Rests-buy :
    (b : OrderBook) (o p : Order)
    → Rests buy b o
    → Rests sell b p
    → leb_ℤ p.price o.price ≡ false
    → Rests sell (rest_as buy b (resting o)) p
Rests-buy b o p r q l = record {
  kind = q.kind;
  side = q.side;
  unfilled = q.unfilled;
  nonzero = q.nonzero;
  apart =
      rest_order-best (limit_crosses p) buy (resting o) b.bids q.apart
        (ap (λ s. crosses_at s p.price o.price) q.side ∙ l);
}

Rests-sell :
    (b : OrderBook) (o p : Order)
    → Rests buy b o
    → Rests sell b p
    → leb_ℤ p.price o.price ≡ false
    → Rests buy (rest_as sell b (resting p)) o
Rests-sell b o p r q l = record {
  kind = r.kind;
  side = r.side;
  unfilled = r.unfilled;
  nonzero = r.nonzero;
  apart =
      rest_order-best (limit_crosses o) sell (resting p) b.asks r.apart
        (ap (λ s. crosses_at s o.price p.price) r.side ∙ l);
}

-- A buy and a sell order of type `LIMIT`, unfilled and of positive quantities, that meet no price that they
-- accept, neither in the book nor in each other, and have different ids, leave the same abstract book in either order, and trade in neither.
pub add_abstract_comm :
    (now later : ℕ → ℕ) (b : OrderBook) (o p : Order)
    → Rests buy b o
    → Rests sell b p
    → leb_ℤ p.price o.price ≡ false
    → o.id ≢ p.id
    → (add_abstract later p (add_abstract now o (abstract b))
        ≡ add_abstract now o (add_abstract later p (abstract b)))
      × ((enter later (enter now b o).book p).trades ≡ [])
      × ((enter now (enter later b p).book o).trades ≡ [])
unfolding add_abstract
add_abstract_comm now later b o p r q l n =
    let (e, _) = enter-Rests now buy b o r in
    let (f, _) = enter-Rests later sell b p q in
    let (e', t) = enter-Rests later sell _ p (Rests-buy b o p r q l) in
    let (f', u) = enter-Rests now buy _ o (Rests-sell b o p r q l) in
    (
      ap (λ x. abstract (enter later x p).book) e
          ∙ ap abstract e'
          ∙ Quot.sound (rests-SameBook b (resting o) (resting p) n)
          ∙ sym (ap (λ x. abstract (enter now x o).book) f ∙ ap abstract f'),
      ap (λ x. (enter later x p).trades) e ∙ t,
      ap (λ x. (enter now x o).trades) f ∙ u,
    )
