-- ===== src/OrderBook/Query.antt =====
-- The `const` members of include/core/OrderBook.hpp: what a book tells of itself.
use astra_exchange.Base.{
  ℕ, zero, suc, Bool, true, false, not, ◌&&◌, Option, none, some, List, [], ◌∷◌, add64, ◌==◌,
}
use astra_exchange.Base.Int.{ℤ, ◌-ℤ◌, leb_ℤ}
use astra_exchange.Types.{Order, remaining_qty}
use astra_exchange.PriceLevel.{order_count}
use astra_exchange.PriceMap
use astra_exchange.PriceMap.{is_some}
use astra_exchange.Index
use astra_exchange.Index.{Index, OrderLocation}
use astra_exchange.OrderBook.Defs.{Levels, OrderBook}
use astra_exchange.OrderBook.Match.{levels}

pub record BookLevel : Type 0 where
  pub price : ℤ
  pub qty : ℕ
  pub order_count : ℕ

unfoldable pub has_order : ℕ → OrderBook → Bool
unfolding Index.find
has_order id b = is_some (Index.find id b.index)

unfoldable pub best_bid : OrderBook → Option ℤ
unfolding PriceMap.first_key
best_bid b = PriceMap.first_key b.bids

unfoldable pub best_ask : OrderBook → Option ℤ
unfolding PriceMap.first_key
best_ask b = PriceMap.first_key b.asks

unfoldable pub spread : OrderBook → Option ℤ
unfolding best_bid best_ask ◌-ℤ◌
spread b = elim (best_bid b) [
  | none ↦ none
  | some bid ↦ elim (best_ask b) [ none ↦ none | some ask ↦ some (ask -ℤ bid) ]
]

-- The loop of `topBids` and `topAsks`, with the room that is left.
unfoldable pub top_levels : ℕ → Levels → List BookLevel
unfolding order_count
top_levels zero m = []
top_levels (suc n) [] = []
top_levels (suc n) ((p, l) ∷ m) =
    record { price = p; qty = l.total_qty; order_count = order_count l } ∷ top_levels n m

unfoldable pub top_bids : ℕ → OrderBook → List BookLevel
unfolding top_levels
top_bids n b = top_levels n b.bids

unfoldable pub top_asks : ℕ → OrderBook → List BookLevel
unfolding top_levels
top_asks n b = top_levels n b.asks

-- `total += level.totalQty()` from left to right.
unfoldable pub add_totals : ℕ → Levels → ℕ
add_totals total [] = total
add_totals total ((p, l) ∷ m) = add_totals (add64 total l.total_qty) m

unfoldable pub total_bid_qty : OrderBook → ℕ
unfolding add_totals
total_bid_qty b = add_totals 0 b.bids

unfoldable pub total_ask_qty : OrderBook → ℕ
unfolding add_totals
total_ask_qty b = add_totals 0 b.asks

-- `bid && ask && *bid >= *ask`
abbrev pub crossed : Option ℤ → Option ℤ → Bool
crossed none ask = false
crossed (some bid) none = false
crossed (some bid) (some ask) = leb_ℤ ask bid

unfoldable pub no_zero_orders : List Order → Bool
no_zero_orders [] = true
no_zero_orders (o ∷ os) = not (remaining_qty o == 0) && no_zero_orders os

unfoldable pub no_zero_levels : Levels → Bool
no_zero_levels [] = true
no_zero_levels ((p, l) ∷ m) = no_zero_orders l.orders && no_zero_levels m

unfoldable pub index_placed : OrderBook → Index → Bool
index_placed b [] = true
index_placed b ((id, loc) ∷ ix) =
    PriceMap.has_key loc.price (levels loc.side b) && index_placed b ix

-- `checkInvariants`
unfoldable pub check_invariants : OrderBook → Bool
unfolding best_bid best_ask
check_invariants b =
    not (crossed (best_bid b) (best_ask b))
    && no_zero_levels b.bids
    && no_zero_levels b.asks
    && index_placed b b.index
