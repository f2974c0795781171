-- ===== src/Types.antt =====
-- include/core/Types.hpp, include/core/Order.hpp and include/core/Trade.hpp: the data that the
-- components exchange. A price is a signed fixed-point number, a quantity an unsigned 64-bit one.
use astra_exchange.Base.{ℕ, String, Bool, leb, sub64}
use astra_exchange.Base.Int.{ℤ}

pub data Side : Type 0 where
  buy sell : Side

pub data OrderType : Type 0 where
  limit market cancel ioc fok : OrderType

pub data OrderStatus : Type 0 where
  pending accepted partially_filled filled cancelled rejected : OrderStatus

pub record Order : Type 0 where
  pub id : ℕ
  pub symbol : String
  pub side : Side
  pub type : OrderType
  pub price : ℤ
  pub quantity : ℕ
  pub filled_qty : ℕ
  pub timestamp : ℕ
  pub status : OrderStatus

-- The constructor: nothing is filled yet.
unfoldable pub new_order : ℕ → String → Side → OrderType → ℤ → ℕ → ℕ → Order
new_order id symbol side type price quantity timestamp = record {
  id = id;
  symbol = symbol;
  side = side;
  type = type;
  price = price;
  quantity = quantity;
  filled_qty = 0;
  timestamp = timestamp;
  status = pending;
}

abbrev pub remaining_qty : Order → ℕ
remaining_qty o = sub64 o.quantity o.filled_qty

abbrev pub is_filled : Order → Bool
is_filled o = leb o.quantity o.filled_qty

pub record Trade : Type 0 where
  pub symbol : String
  pub price : ℤ
  pub quantity : ℕ
  pub maker_order_id : ℕ
  pub taker_order_id : ℕ
  pub timestamp : ℕ
