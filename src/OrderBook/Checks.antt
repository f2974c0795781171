-- ===== src/OrderBook/Checks.antt =====
-- `checkInvariants` accepts every valid book.
use astra_exchange.Base.{ℕ, ◌≡◌, refl, ap, true, false, some, List, [], ◌∷◌, arith, All}
use astra_exchange.Base.Int.{ℤ}
use astra_exchange.Types.{Side, buy, sell, Order}
use astra_exchange.PriceMap
use astra_exchange.PriceMap.{is_some}
use astra_exchange.Index
use astra_exchange.Index.{Index, OrderLocation, KeysOnce}
use astra_exchange.OrderBook.Defs.{Levels, OrderBook}
use astra_exchange.OrderBook.Match.{levels}
use astra_exchange.OrderBook.Query.{
  crossed, no_zero_orders, no_zero_levels, index_placed, check_invariants,
}
use astra_exchange.OrderBook.Valid.{Rests, SideValid, Uncrossed, BookValid, located}
use astra_exchange.OrderBook.Places.{same_side_self}
use astra_exchange.OrderBook.Removal.{occurs-find}
use astra_exchange.OrderBook.Sides.{levels-SideIndexed, levels-SideValid}

no_zero_orders-resting :
    (s : Side) (p : ℤ) (os : List Order) → All (Rests s p) os → no_zero_orders os ≡ true
unfolding no_zero_orders
no_zero_orders-resting s p [] h = refl
no_zero_orders-resting s p (o ∷ os) h =
    ground (arith, h.0.is_open, h.0.in_word, no_zero_orders-resting s p os h.1)

no_zero_levels-SideValid : (s : Side) (m : Levels) → SideValid s m → no_zero_levels m ≡ true
unfolding no_zero_levels
no_zero_levels-SideValid s [] v = refl
no_zero_levels-SideValid s ((p, l) ∷ m) v =
    rw (no_zero_orders-resting s p l.orders v.0.resting) (no_zero_levels-SideValid s m v.2)

pub first_key-crossed :
    (bids asks : Levels)
    → Uncrossed bids asks
    → crossed (PriceMap.first_key bids) (PriceMap.first_key asks) ≡ false
unfolding PriceMap.first_key PriceMap.has_key
first_key-crossed [] asks u = refl
first_key-crossed (b ∷ bids) [] u = refl
first_key-crossed ((p, l) ∷ bids) ((q, k) ∷ asks) u = ground (arith, u p q)

-- Where the index places an order there is a level.
located-has_key :
    (b : OrderBook) (id : ℕ) (loc : OrderLocation)
    → BookValid b
    → Index.find id b.index ≡ some loc
    → PriceMap.has_key loc.price (levels loc.side b) ≡ true
unfolding PriceMap.has_key
located-has_key b id loc v e =
    let (l, f, _, _) =
      occurs-find loc.side id loc.price (levels loc.side b) (levels-SideValid loc.side v) (
        ground (
          arith,
          levels-SideIndexed loc.side v id loc.price,
          ap (λ l. located l loc.side loc.price) e,
          same_side_self loc.side,
        )) in
    rw f refl

index_placed-found :
    (b : OrderBook) (ix : Index)
    → KeysOnce ix
    → ((id : ℕ) (loc : OrderLocation)
        → Index.find id ix ≡ some loc
        → PriceMap.has_key loc.price (levels loc.side b) ≡ true)
    → index_placed b ix ≡ true
unfolding index_placed Index.find
index_placed-found b [] k h = refl
index_placed-found b ((j, loc) ∷ ix) k h =
    let first : PriceMap.has_key loc.price (levels loc.side b) ≡ true = h j loc (ground arith) in
    let rest : index_placed b ix ≡ true =
      index_placed-found b ix k.1
        (λ id l e. h id l (ground (arith, k.0, e, ap (λ i. Index.find i ix)))) in
    rw (first, rest) refl

-- The program's own check passes on every valid book.
pub check_invariants-BookValid : (b : OrderBook) → BookValid b → check_invariants b ≡ true
unfolding check_invariants
check_invariants-BookValid b v =
    rw
      (
        first_key-crossed b.bids b.asks v.uncrossed,
        no_zero_levels-SideValid buy b.bids v.bids_valid,
        no_zero_levels-SideValid sell b.asks v.asks_valid,
        index_placed-found b b.index v.index_once (λ id loc e. located-has_key b id loc v e),
      )
      refl
