-- ===== src/MatchingEngine/Defs.antt =====
-- The engine's state and operations. The unordered map of books is an association list by symbol.
use astra_exchange.Base.{
  ℕ, String, Bool, true, false, Option, none, some, List, [], ◌∷◌, length, add64, str_eq,
  if◌then◌else◌,
}
use astra_exchange.Types.{
  OrderType, cancel, ioc, fok, OrderStatus, cancelled, rejected, Order, Trade,
}
use astra_exchange.RiskValidator.{
  RiskValidator, Reason, no_book, unknown_cancel_symbol, order_not_found, fok_liquidity,
  ioc_no_fill, register_symbol, record_id, validate,
}
use astra_exchange.OrderBook.Defs.{OrderBook, new_book}
use astra_exchange.OrderBook.Match.{add_order, cancel_order, with_status}

-- `none` in the reason is the empty string.
pub record EngineResult : Type 0 where
  pub status : OrderStatus
  pub trades : List Trade
  pub reject_reason : Option Reason

abbrev pub Books : Type 0
Books = List (String × OrderBook)

pub record MatchingEngine : Type 0 where
  pub books : Books
  pub validator : RiskValidator
  pub orders_processed : ℕ
  pub trades_generated : ℕ

unfoldable pub new_engine : MatchingEngine
new_engine = record {
  books = [];
  validator = record { symbols = []; used_ids = [] };
  orders_processed = 0;
  trades_generated = 0;
}

unfoldable pub find_book : String → Books → Option OrderBook
find_book s [] = none
find_book s ((t, b) ∷ bs) = if str_eq t s then some b else find_book s bs

-- A write through the iterator that `books_.find(symbol)` returns.
unfoldable pub set_book : String → OrderBook → Books → Books
set_book s b [] = []
set_book s b ((t, c) ∷ bs) = if str_eq t s then (t, b) ∷ bs else (t, c) ∷ set_book s b bs

-- `emplace` leaves a book that is there as it is.
unfoldable pub emplace_book : String → Books → Books
emplace_book s bs = elim (find_book s bs) [ none ↦ (s, new_book s) ∷ bs | some b ↦ bs ]

unfoldable pub register : String → MatchingEngine → MatchingEngine
register s e = record e {
  books = emplace_book s e.books;
  validator = register_symbol s e.validator;
}

-- What a call returns: the engine, the result, and the order as the caller's pointer shows it.
pub record Reply : Type 0 where
  pub engine : MatchingEngine
  pub result : EngineResult
  pub order : Order

abbrev pub refusal : Reason → EngineResult
refusal why = record { status = rejected; trades = []; reject_reason = some why }

-- `cancelOrder`
unfoldable pub cancel_in : MatchingEngine → String → ℕ → MatchingEngine × EngineResult
cancel_in e s id = elim (find_book s e.books) [
  | none ↦ (e, refusal unknown_cancel_symbol)
  | some b ↦
      let r = cancel_order b id in
      let e' = record e { books = set_book s r.1 e.books } in
      if r.0
      then (e', record { status = cancelled; trades = []; reject_reason = none })
      else (e', refusal (order_not_found id))
]

-- The reason of an order that comes back cancelled.
abbrev pub cancel_reason : OrderStatus → OrderType → Option Reason
cancel_reason cancelled fok = some fok_liquidity
cancel_reason cancelled ioc = some ioc_no_fill
cancel_reason _ _ = none

-- The book is found, and takes the order.
unfoldable pub trade_in : (ℕ → ℕ) → MatchingEngine → Order → OrderBook → Reply
trade_in now e o b =
    let r = add_order now b o in
    record {
      engine = record e {
        books = set_book o.symbol r.book e.books;
        trades_generated = add64 e.trades_generated (length r.trades);
      };
      result = record {
        status = r.order.status;
        trades = r.trades;
        reject_reason = cancel_reason r.order.status r.order.type;
      };
      order = r.order;
    }

abbrev pub refuse : MatchingEngine → Order → Reason → Reply
refuse e o why = record { engine = e; result = refusal why; order = with_status rejected o }

-- An order that passes the checks has its id recorded, and goes to the book of its symbol.
unfoldable pub route : (ℕ → ℕ) → MatchingEngine → Order → Reply
route now e o =
    let e' = record e { validator = record_id o.id e.validator } in
    elim (find_book o.symbol e.books) [ none ↦ refuse e' o no_book | some b ↦ trade_in now e' o b ]

unfoldable pub submit_new : (ℕ → ℕ) → MatchingEngine → Order → Reply
submit_new now e o = elim (validate e.validator o) [
  | some why ↦ refuse e o why
  | none ↦ route now e o
]

-- An order of type CANCEL goes to `cancelOrder`, and is not written to.
abbrev pub submit_cancel : MatchingEngine → Order → Reply
submit_cancel e o =
    let r = cancel_in e o.symbol o.id in record { engine = r.0; result = r.1; order = o }

abbrev pub is_cancel : OrderType → Bool
is_cancel cancel = true
is_cancel _ = false

-- `submitOrder`
unfoldable pub submit_order : (ℕ → ℕ) → MatchingEngine → Order → Reply
submit_order now e o =
    let e' = record e { orders_processed = add64 e.orders_processed 1 } in
    if is_cancel o.type then submit_cancel e' o else submit_new now e' o
