-- ===== src/OrderBook/Defs.antt =====
-- The state of include/core/OrderBook.hpp, and `drainSide` and `restOrder` of
-- src/core/OrderBook.cpp, the two loops through which every order enters.
use astra_exchange.Base.{
  ℕ, ◌+◌, String, Bool, true, false, Option, none, some, List, [], ◌∷◌, ◌++◌, length, min, ltb,
  add64, sum_by, if◌then◌else◌, ◌&&◌,
}
use astra_exchange.Base.Int.{ℤ}
use astra_exchange.Base.Loop.{while}
use astra_exchange.Types.{Side, Order, Trade, remaining_qty, is_filled, filled, partially_filled}
use astra_exchange.PriceLevel.{
  PriceLevel, front, set_front, update_total_qty, pop_front, empty, new_level, add_order,
}
use astra_exchange.PriceMap
use astra_exchange.PriceMap.{PriceMap}
use astra_exchange.Index
use astra_exchange.Index.{Index}

abbrev pub Levels : Type 0
Levels = PriceMap PriceLevel

pub record OrderBook : Type 0 where
  pub symbol : String
  pub bids : Levels
  pub asks : Levels
  pub index : Index

unfoldable pub new_book : String → OrderBook
new_book symbol = record { symbol = symbol; bids = []; asks = []; index = [] }

-- The predicate `crosses` that the callers pass; `none` is the `nullptr` of a market order.
abbrev pub Crosses : Type 0
Crosses = Option (ℤ → Bool)

abbrev pub passes : Crosses → ℤ → Bool
passes none p = true
passes (some f) p = f p

-- What the loop reads and writes. `released` collects the makers that it completes, as their
-- owners' pointers show them from then on.
pub record Drain : Type 0 where
  pub trades : List Trade
  pub side : Levels
  pub incoming : Order
  pub index : Index
  pub released : List Order

abbrev pub best_passes : Crosses → Levels → Bool
best_passes c [] = false
best_passes c ((p, l) ∷ m) = passes c p

-- The loop's condition, and the `break` on the first price that does not cross.
unfoldable pub drain_test : Crosses → Drain → Bool
drain_test c s = ltb 0 (remaining_qty s.incoming) && best_passes c s.side

unfoldable pub make_trade : String → Order → Order → ℕ → ℕ → Trade
make_trade symbol maker taker qty now = record {
  symbol = symbol;
  price = maker.price;
  quantity = qty;
  maker_order_id = maker.id;
  taker_order_id = taker.id;
  timestamp = now;
}

abbrev pub fill : ℕ → Order → Order
fill qty o = record o { filled_qty = add64 o.filled_qty qty }

-- `if (level.empty()) restingSide.erase(it)` at the first entry.
unfoldable pub keep_level : ℤ → PriceLevel → Levels → Levels
unfolding empty
keep_level p l rest = if empty l then rest else (p, l) ∷ rest

-- The level after the fill: a maker that is filled leaves it.
unfoldable pub fill_level : Order → ℕ → PriceLevel → PriceLevel
unfolding set_front update_total_qty pop_front
fill_level maker qty l =
    let maker' = fill qty maker in
    let l' = update_total_qty qty l in
    if is_filled maker'
    then pop_front (set_front (record maker' { status = filled }) l')
    else set_front (record maker' { status = partially_filled }) l'

-- Each round but the last takes an order out of the side, so its orders and two bound the rounds.
abbrev pub side_count : Levels → ℕ
side_count m = sum_by (λ e. length e.1.orders) m

module _ (symbol : String) (now : ℕ → ℕ) where
  -- One round of the loop against the front order of the best level. `now k` is what `nowNs()`
  -- returns for the k-th trade of the call.
  unfoldable pub trade_with : Drain → ℤ → PriceLevel → Levels → Order → Drain
  trade_with s p l rest maker =
      let qty = min (remaining_qty s.incoming) (remaining_qty maker) in
      let maker' = fill qty maker in
      record {
        trades = s.trades ++ make_trade symbol maker s.incoming qty (now (length s.trades)) ∷ [];
        side = keep_level p (fill_level maker qty l) rest;
        incoming = fill qty s.incoming;
        index = if is_filled maker' then Index.erase maker.id s.index else s.index;
        released =
            if is_filled maker'
            then s.released ++ (record maker' { status = filled }) ∷ []
            else s.released;
      }

  -- An empty level has no front order, and the program would follow a null pointer. The model
  -- stops there; a valid book has no such level.
  unfoldable pub drain_best : Drain → Levels → Drain
  drain_best s [] = s
  drain_best s ((p, l) ∷ rest) = elim (front l) [
    | none ↦ s
    | some maker ↦ trade_with s p l rest maker
  ]

  unfoldable pub drain_body : Drain → Drain
  drain_body s = drain_best s s.side

  unfoldable pub drain_side : Crosses → Levels → Order → Index → Drain
  unfolding while
  drain_side c side incoming index =
      while (drain_test c) drain_body (side_count side + 2)
        (record { trades = []; side = side; incoming = incoming; index = index; released = [] })

-- `restOrder` on the side `s`.
unfoldable pub rest_order : Side → Order → Levels → Levels
rest_order s o own =
    let there : Levels = elim (PriceMap.find o.price own) [
      | none ↦ PriceMap.emplace s o.price (new_level o.price) own
      | some l ↦ own
    ] in
    PriceMap.update o.price (add_order o) there
