-- ===== src/OrderBook/Abstract/Tests.antt =====
-- A book of two orders, with its index in either order, and two orders that rest.
use astra_exchange.Base.{ℕ, ◌≡◌, refl, [], ◌∷◌, arith}
use astra_exchange.Base.Int.{pos}
use astra_exchange.Types.{buy, sell, limit, Order, pending}
use astra_exchange.Index.{Index, find}
use astra_exchange.OrderBook.Defs.{OrderBook}
use astra_exchange.OrderBook.Match.{add_order}
use astra_exchange.OrderBook.Abstract.Same.{SameIndex}
use astra_exchange.OrderBook.Abstract.Defs.{abstract, add_abstract}
use astra_exchange.OrderBook.Abstract.Commute.{Rests, add_abstract_comm}

abbrev order : ℕ → ℕ → Order
order id price = record {
  id = id;
  symbol = "AAPL";
  side = buy;
  type = limit;
  price = pos price;
  quantity = 5;
  filled_qty = 0;
  timestamp = 0;
  status = pending;
}

abbrev sold : Order → Order
sold o = record o { side = sell }

abbrev two_bids : OrderBook
two_bids = record {
  symbol = "AAPL";
  bids =
      (pos 101, record { price = pos 101; orders = order 1 101 ∷ []; total_qty = 5 })
      ∷ (pos 100, record { price = pos 100; orders = order 2 100 ∷ []; total_qty = 5 })
      ∷ [];
  asks = [];
  index =
      (1, record { side = buy; price = pos 101 })
      ∷ (2, record { side = buy; price = pos 100 })
      ∷ [];
}

abbrev turned : Index
turned =
    (2, record { side = buy; price = pos 100 }) ∷ (1, record { side = buy; price = pos 101 }) ∷ []

turned-SameIndex : SameIndex two_bids.index turned
unfolding find
turned-SameIndex id = ground arith

abbrev clock : ℕ → ℕ
clock n = n

bid_Rests : Rests buy two_bids (order 4 99)
bid_Rests = record {
  kind = refl;
  side = refl;
  unfilled = refl;
  nonzero = omega arith;
  apart = refl;
}

ask_Rests : Rests sell two_bids (sold (order 5 102))
ask_Rests = record {
  kind = refl;
  side = refl;
  unfilled = refl;
  nonzero = omega arith;
  apart = refl;
}

add_abstract_comm_example :
    (add_abstract clock (sold (order 5 102)) (add_abstract clock (order 4 99) (abstract two_bids))
      ≡ add_abstract clock
          (order 4 99)
          (add_abstract clock (sold (order 5 102)) (abstract two_bids)))
    × ((add_order clock (add_order clock two_bids (order 4 99)).book (sold (order 5 102))).trades
        ≡ [])
    × ((add_order clock (add_order clock two_bids (sold (order 5 102))).book (order 4 99)).trades
        ≡ [])
add_abstract_comm_example =
    add_abstract_comm clock clock two_bids (order 4 99) (sold (order 5 102)) bid_Rests ask_Rests
      refl (λ e. omega (arith, e))
