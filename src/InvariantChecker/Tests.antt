-- ===== src/InvariantChecker/Tests.antt =====
-- The checks at concrete inputs.
use astra_exchange.Base.{ℕ, ◌≡◌, refl, arith, String}
use astra_exchange.Base.Int.{ℤ, pos}
use astra_exchange.Types.{sell, limit, Order, new_order, Trade}
use astra_exchange.Index
use astra_exchange.OrderBook.Defs.{OrderBook, new_book}
use astra_exchange.OrderBook.Match.{add_order}
use astra_exchange.OrderBook.Query.{has_order}
use astra_exchange.OrderBook.Valid.{BookValid}
use astra_exchange.OrderBook.Preserve.{add_order-BookValid}
use astra_exchange.MatchingEngine.Register.{new_book-BookValid}
use astra_exchange.InvariantChecker.Defs.{passing, check_book}
use astra_exchange.InvariantChecker.Passes.{check_book-BookValid}

abbrev price_string : ℤ → String
price_string p = "price"

abbrev id_string : ℕ → String
id_string id = "id"

abbrev now : ℕ → ℕ
now k = k

order : Order
unfolding new_order
order = new_order 1 "AAPL" sell limit (pos 100) 5 0

book : OrderBook
book = (add_order now (new_book "AAPL") order).book

book-BookValid : BookValid book
unfolding book order new_book has_order Index.find
book-BookValid =
    add_order-BookValid now (new_book "AAPL") order (new_book-BookValid "AAPL")
      (record { unfilled = refl; nonzero = omega arith; in_word = omega arith }) refl (omega arith)

check_book-BookValid_example : check_book price_string id_string price_string book ≡ passing
check_book-BookValid_example =
    check_book-BookValid price_string id_string price_string book book-BookValid

abbrev trade : Trade
trade = record {
  symbol = "AAPL";
  price = pos 100;
  quantity = 5;
  maker_order_id = 1;
  taker_order_id = 2;
  timestamp = 0;
}
