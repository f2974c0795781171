-- ===== src/Feed/MarketData.antt =====
-- include/feed/MarketDataFeed.hpp and src/feed/MarketDataFeed.cpp: the lines that a book and its trades print.
-- How the standard library prints an integer, a price with two digits, and a text in a column is a parameter.
use astra_exchange.Base.{ℕ, String, Option, none, some, List, [], ◌∷◌, ◌++◌, map}
use astra_exchange.Base.Int.{ℤ}
use astra_exchange.Types.{Trade}
use astra_exchange.OrderBook.Defs.{OrderBook}
use astra_exchange.OrderBook.Query.{BookLevel, top_bids, top_asks, best_bid, best_ask, spread}
use astra_exchange.Feed.EventLog.{concat}

module _ (print : ℕ → String) (fixed_string : ℤ → String) (column : ℕ → String → String) where
  abbrev pub level_text : BookLevel → String
  level_text l = concat (fixed_string l.price ∷ " x " ∷ print l.qty ∷ [])

  abbrev pub row : String → String → String
  row lhs rhs = concat (column 22 lhs ∷ rhs ∷ [])

  -- As many rows as the longer list has levels.
  unfoldable pub rows : List BookLevel → List BookLevel → List String
  rows [] [] = []
  rows [] (a ∷ asks) = row "" (level_text a) ∷ rows [] asks
  rows (b ∷ bids) [] = row (level_text b) "" ∷ rows bids []
  rows (b ∷ bids) (a ∷ asks) = row (level_text b) (level_text a) ∷ rows bids asks

  abbrev pub price_line : String → Option ℤ → List String
  price_line label none = []
  price_line label (some p) = concat (label ∷ fixed_string p ∷ []) ∷ []

  unfoldable pub print_book : OrderBook → ℕ → List String
  print_book b depth =
      ""
        ∷ concat ("=== " ∷ b.symbol ∷ " Order Book ===" ∷ [])
        ∷ row "BIDS" "ASKS"
        ∷ "--------------------------------------------"
        ∷ rows (top_bids depth b) (top_asks depth b)
      ++ "--------------------------------------------" ∷ price_line "BEST_BID " (best_bid b)
      ++ price_line "BEST_ASK " (best_ask b)
      ++ price_line "SPREAD   " (spread b)

  abbrev pub trade_line : Trade → String
  trade_line t = concat (
      "TRADE "
      ∷ t.symbol
      ∷ " price="
      ∷ fixed_string t.price
      ∷ " qty="
      ∷ print t.quantity
      ∷ " maker="
      ∷ print t.maker_order_id
      ∷ " taker="
      ∷ print t.taker_order_id
      ∷ [])

  unfoldable pub publish : OrderBook → List Trade → ℕ → List String
  publish b trades depth = print_book b depth ++ map trade_line trades
