-- ===== src/OrderBook/Tests.antt =====
-- The order book at concrete inputs: a book built by three calls, and the theorems applied to it.
use astra_exchange.Base.{ℕ, ◌≡◌, refl, ◌⊎◌, leb, min, true, false, [], ◌∷◌, map, arith, ℕ_discrete}
use astra_exchange.Base.Int.{pos, ℤ_discrete}
use astra_exchange.Base.Loop.{while}
use astra_exchange.Types.{Side, buy, sell, OrderType, limit, Order, new_order}
use astra_exchange.PriceLevel
use astra_exchange.PriceLevel.{PriceLevel}
use astra_exchange.PriceMap
use astra_exchange.Index
use astra_exchange.OrderBook.Defs.{
  OrderBook, Drain, new_book, best_passes, drain_side, drain_test, drain_body, drain_best,
  trade_with, fill_level, make_trade, keep_level, rest_order,
}
use astra_exchange.OrderBook.Match.{
  Outcome, add_order, match_by, match_limit, match_market, match_ioc, match_fok, finish_limit,
  rest_in, drain_for, available_fill, available_from, cancel_order, limit_crosses,
}
use astra_exchange.OrderBook.Query.{has_order}
use astra_exchange.OrderBook.Valid.{BookValid, Fresh, open_qty}
use astra_exchange.OrderBook.Priority.{fill_of}
use astra_exchange.OrderBook.Drain.{Good, start}
use astra_exchange.OrderBook.Ledger.{
  Ledger, traded_qty, crossing_qty, drain_side-Ledger, drain_side-stops,
}
use astra_exchange.OrderBook.Priority.{fills, queue, queue_after, crossing_queue, drain_side-Served}
use astra_exchange.OrderBook.Liquidity.{available_fill-enough}
use astra_exchange.OrderBook.Known.{has_order-add_order}
use astra_exchange.OrderBook.Drained.{start-Good}
use astra_exchange.OrderBook.Preserve.{add_order-BookValid}
use astra_exchange.OrderBook.Outcomes.{Answers, add_order-Answers}
use astra_exchange.OrderBook.Cancelled.{Cancels, cancel_order-exact, cancel_order-BookValid}

abbrev now : ℕ → ℕ
now k = k

-- All that `addOrder` runs through.
call : OrderBook → Order → Outcome
unfolding add_order match_by match_limit match_market match_ioc match_fok finish_limit rest_in
    drain_for available_fill available_from drain_side while drain_test drain_body drain_best
    trade_with fill_level make_trade keep_level rest_order PriceLevel.front PriceLevel.set_front
    PriceLevel.update_total_qty PriceLevel.pop_front PriceLevel.empty PriceLevel.new_level
    PriceLevel.add_order PriceMap.find PriceMap.emplace PriceMap.update Index.assign Index.erase
    Index.find ℤ_discrete ℕ_discrete
call b o = add_order now b o

order : ℕ → Side → OrderType → ℕ → ℕ → Order
unfolding new_order
order id side type price qty = new_order id "AAPL" side type (pos price) qty 0

empty_book : OrderBook
unfolding new_book
empty_book = new_book "AAPL"

empty_book-BookValid : BookValid empty_book
unfolding empty_book PriceMap.has_key Index.find
empty_book-BookValid = record {
  bids_valid = tt;
  asks_valid = tt;
  bids_in_word = omega arith;
  asks_in_word = omega arith;
  uncrossed = λ p q h k. cc;
  bids_indexed = λ id p. refl;
  asks_indexed = λ id p. refl;
  index_once = tt;
}

first_book : OrderBook
unfolding call empty_book order
first_book = (call empty_book (order 1 sell limit 100 5)).book

second_book : OrderBook
unfolding first_book
second_book = (call first_book (order 2 sell limit 101 7)).book

first_book-BookValid : BookValid first_book
unfolding first_book has_order
first_book-BookValid =
    add_order-BookValid now empty_book (order 1 sell limit 100 5) empty_book-BookValid
      (record { unfilled = refl; nonzero = omega arith; in_word = omega arith }) refl (omega arith)

add_order-BookValid_example : BookValid second_book
unfolding second_book has_order
add_order-BookValid_example =
    add_order-BookValid now first_book (order 2 sell limit 101 7) first_book-BookValid
      (record { unfilled = refl; nonzero = omega arith; in_word = omega arith }) refl (omega arith)

-- A sweep of two levels: the better price first.
sweep_trades :
    map fill_of (call second_book (order 3 buy limit 101 8)).trades
    ≡ record { maker = 1; price = pos 100; qty = 5 }
      ∷ record { maker = 2; price = pos 101; qty = 3 }
      ∷ []
unfolding second_book
sweep_trades = refl

add_order-Answers_example :
    Answers limit second_book
      (order 3 buy limit 101 8)
      (add_order now second_book (order 3 buy limit 101 8))
unfolding order
add_order-Answers_example =
    add_order-Answers now second_book (order 3 buy limit 101 8) add_order-BookValid_example
      (record { unfilled = refl; nonzero = omega arith; in_word = omega arith })

cancel_order-exact_example :
    ((has_order 1 second_book ≡ false) × (cancel_order second_book 1 ≡ (false, second_book)))
    ⊎ ((s : Side) × (o : Order) × Cancels second_book 1 (cancel_order second_book 1) s o)
cancel_order-exact_example = cancel_order-exact second_book 1 add_order-BookValid_example

cancel_order-BookValid_example : BookValid (cancel_order second_book 1).1
cancel_order-BookValid_example = cancel_order-BookValid second_book 1 add_order-BookValid_example

buyer : Order
unfolding order
buyer = order 3 buy limit 101 8

buyer-Fresh : Fresh buyer
unfolding buyer
buyer-Fresh = record { unfilled = refl; nonzero = omega arith; in_word = omega arith }

-- The loop that the buyer starts on the asks of the second book.
sweep : Drain
unfolding buyer
sweep = drain_side "AAPL" now (limit_crosses buyer) second_book.asks buyer second_book.index

sweep-Good : Good sell (start second_book.asks buyer second_book.index)
unfolding buyer order
sweep-Good = start-Good second_book buyer add_order-BookValid_example buyer-Fresh

drain_side-Served_example :
    (map fill_of sweep.trades
      ≡ fills (open_qty buyer) (crossing_queue (limit_crosses buyer) second_book.asks))
    × (queue sweep.side ≡ queue_after (traded_qty sweep.trades) (queue second_book.asks))
unfolding sweep
drain_side-Served_example =
    drain_side-Served "AAPL" now (limit_crosses buyer) sell second_book.asks buyer second_book.index
      sweep-Good

drain_side-Ledger_example :
    Good sell sweep
    × Ledger (limit_crosses buyer) second_book.asks buyer sweep
    × (traded_qty sweep.trades
        ≡ min (open_qty buyer) (crossing_qty (limit_crosses buyer) second_book.asks))
unfolding sweep
drain_side-Ledger_example =
    drain_side-Ledger "AAPL" now (limit_crosses buyer) sell second_book.asks buyer second_book.index
      sweep-Good

drain_side-stops_example :
    (open_qty sweep.incoming ≡ 0) ⊎ (best_passes (limit_crosses buyer) sweep.side ≡ false)
unfolding sweep
drain_side-stops_example =
    drain_side-stops "AAPL" now (limit_crosses buyer) sell second_book.asks buyer second_book.index
      sweep-Good

available_fill-enough_example :
    leb buyer.quantity (available_fill (limit_crosses buyer) second_book.asks buyer)
    ≡ leb buyer.quantity (crossing_qty (limit_crosses buyer) second_book.asks)
available_fill-enough_example =
    available_fill-enough (limit_crosses buyer) sell second_book.asks buyer
      add_order-BookValid_example.asks_valid add_order-BookValid_example.asks_in_word

abbrev second_id : ℕ
second_id = 2

second_id-stays : has_order second_id (call second_book buyer).book ≡ true
unfolding second_book first_book buyer has_order
second_id-stays = refl

has_order_after : (second_id ≡ buyer.id) ⊎ (has_order second_id second_book ≡ true)
unfolding call
has_order_after =
    has_order-add_order second_id now second_book buyer add_order-BookValid_example buyer-Fresh
      second_id-stays
