-- ===== src/OrderBook/Match.antt =====
-- `addOrder` of src/core/OrderBook.cpp with the four ways to match, and `cancelOrder`.
use astra_exchange.Base.{
  ℕ, ◌==◌, Bool, true, false, none, some, List, [], ◌∷◌, ltb, leb, add64, if◌then◌else◌,
}
use astra_exchange.Base.Int.{ℤ, leb_ℤ}
use astra_exchange.Types.{
  Side, buy, sell, OrderType, limit, market, cancel, ioc, fok, OrderStatus, accepted,
  partially_filled, filled, cancelled, Order, Trade, is_filled,
}
use astra_exchange.PriceLevel.{remove_order, empty}
use astra_exchange.PriceMap
use astra_exchange.Index
use astra_exchange.OrderBook.Defs.{
  Levels, OrderBook, Crosses, passes, Drain, drain_side, rest_order,
}

-- What a call leaves behind: the book, the trades, the order as the caller's pointer shows it, and
-- the resting orders that were completed.
pub record Outcome : Type 0 where
  pub book : OrderBook
  pub trades : List Trade
  pub order : Order
  pub released : List Order

abbrev pub opposite : Side → Side
opposite buy = sell
opposite sell = buy

abbrev pub levels : Side → OrderBook → Levels
levels buy b = b.bids
levels sell b = b.asks

abbrev pub with_levels : Side → Levels → OrderBook → OrderBook
with_levels buy m b = record b { bids = m }
with_levels sell m b = record b { asks = m }

-- The lambda `crosses` of an order with a limit price.
abbrev pub crosses_at : Side → ℤ → ℤ → Bool
crosses_at buy bound p = leb_ℤ p bound
crosses_at sell bound p = leb_ℤ bound p

abbrev pub limit_crosses : Order → Crosses
limit_crosses o = some (crosses_at o.side o.price)

abbrev pub with_status : OrderStatus → Order → Order
with_status s o = record o { status = s }

-- The call of `drainSide` on the side that the order meets.
unfoldable pub drain_for : (ℕ → ℕ) → Crosses → OrderBook → Order → Drain
drain_for now c b o = drain_side b.symbol now c (levels (opposite o.side) b) o b.index

abbrev pub drained_book : OrderBook → Order → Drain → OrderBook
drained_book b o d = with_levels (opposite o.side) d.side (record b { index = d.index })

abbrev pub limit_status : Order → OrderStatus
limit_status o =
    if o.filled_qty == 0 then accepted else if is_filled o then filled else partially_filled

-- `restOrder` on the order's own side, with `index_[incoming->id]` set.
unfoldable pub rest_in : OrderBook → Order → OrderBook
rest_in b o =
    with_levels o.side (rest_order o.side o (levels o.side b))
      (record b { index = Index.assign o.id (record { side = o.side; price = o.price }) b.index })

unfoldable pub finish_limit : OrderBook → Order → Drain → Outcome
finish_limit b o d =
    let o' = with_status (limit_status d.incoming) d.incoming in
    let b' = drained_book b o d in
    record {
      book = if is_filled o' then b' else rest_in b' o';
      trades = d.trades;
      order = o';
      released = d.released;
    }

unfoldable pub match_limit : (ℕ → ℕ) → OrderBook → Order → Outcome
match_limit now b o = finish_limit b o (drain_for now (limit_crosses o) b o)

-- The outcome of a drain after which nothing rests.
abbrev pub settle : OrderBook → Order → Drain → OrderStatus → Outcome
settle b o d s = record {
  book = drained_book b o d;
  trades = d.trades;
  order = with_status s d.incoming;
  released = d.released;
}

unfoldable pub match_market : (ℕ → ℕ) → OrderBook → Order → Outcome
match_market now b o =
    let d = drain_for now none b o in
    settle b o d (if is_filled d.incoming then filled else partially_filled)

unfoldable pub match_ioc : (ℕ → ℕ) → OrderBook → Order → Outcome
match_ioc now b o =
    let d = drain_for now (limit_crosses o) b o in
    settle b o d (
      if is_filled d.incoming
      then filled
      else if ltb 0 d.incoming.filled_qty
      then partially_filled
      else cancelled)

-- The loop of `availableFill`, with what it has counted so far.
unfoldable pub available_from : Crosses → ℕ → ℕ → Levels → ℕ
available_from c wanted available [] = available
available_from c wanted available ((p, l) ∷ m) =
    let available' = add64 available l.total_qty in
    let rest = available_from c wanted available' m in
    if passes c p then (if leb wanted available' then available' else rest) else available

unfoldable pub available_fill : Crosses → Levels → Order → ℕ
available_fill c m o = available_from c o.quantity 0 m

unfoldable pub match_fok : (ℕ → ℕ) → OrderBook → Order → Outcome
match_fok now b o =
    let c = limit_crosses o in
    let can_fill = leb o.quantity (available_fill c (levels (opposite o.side) b) o) in
    if can_fill
    then settle b o (drain_for now c b o) filled
    else record { book = b; trades = []; order = with_status cancelled o; released = [] }

unfoldable pub match_by : OrderType → (ℕ → ℕ) → OrderBook → Order → Outcome
match_by market now b o = match_market now b o
match_by ioc now b o = match_ioc now b o
match_by fok now b o = match_fok now b o
match_by limit now b o = match_limit now b o
match_by cancel now b o = match_limit now b o

-- `addOrder`
unfoldable pub add_order : (ℕ → ℕ) → OrderBook → Order → Outcome
add_order now b o = match_by o.type now b (with_status accepted o)

-- `levelIt->second.removeOrder(id)`, and the level goes with its last order.
unfoldable pub remove_at : ℤ → ℕ → Levels → Levels
remove_at p id m = elim (PriceMap.find p m) [
  | none ↦ m
  | some l ↦
      let l' = (remove_order id l).1 in
      if empty l' then PriceMap.erase p m else PriceMap.update p (λ _. l') m
]

-- `cancelOrder`
unfoldable pub cancel_order : OrderBook → ℕ → Bool × OrderBook
cancel_order b id = elim (Index.find id b.index) [
  | none ↦ (false, b)
  | some loc ↦ (
    true,
    with_levels loc.side (remove_at loc.price id (levels loc.side b))
        (record b { index = Index.erase id b.index }),
  )
]
