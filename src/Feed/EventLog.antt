-- ===== src/Feed/EventLog.antt =====
-- include/feed/EventLog.hpp and src/feed/EventLog.cpp. How the standard library prints an integer and a double
-- is a parameter. A sink takes the event to the state of what is behind it.
use Prim.Native.String.{◌++◌ as str_append}
use astra_exchange.Base.{ℕ, String, List, [], ◌∷◌}
use astra_exchange.Base.Int.{ℤ}
use astra_exchange.Types.{Side, buy, sell, Order, Trade}

pub data EventType : Type 0 where
  order_accepted order_rejected order_partially_filled order_filled order_cancelled trade
        book_updated :
      EventType

pub record Event : Type 0 where
  pub type : EventType
  pub timestamp : ℕ
  pub detail : String

pub record EventLog (W : Type 0) : Type 0 where
  pub sink : Event → W → W

abbrev pub emit : {W : Type 0} → ℕ → EventLog W → EventType → String → W → W
emit now log type detail = log.sink (record { type = type; timestamp = now; detail = detail })

-- What a string stream holds after these insertions.
abbrev pub concat : List String → String
concat [] = ""
concat (s ∷ ss) = str_append s (concat ss)

abbrev pub side_text : Side → String
side_text buy = "BUY"
side_text sell = "SELL"

module _ (print : ℕ → String) (print_price : ℤ → String) where
  abbrev pub accepted_detail : Order → String
  accepted_detail o = concat (
      "ORDER_ACCEPTED id="
      ∷ print o.id
      ∷ " sym="
      ∷ o.symbol
      ∷ " side="
      ∷ side_text o.side
      ∷ " qty="
      ∷ print o.quantity
      ∷ " price="
      ∷ print_price o.price
      ∷ [])

  abbrev pub trade_detail : Trade → String
  trade_detail t = concat (
      "TRADE sym="
      ∷ t.symbol
      ∷ " price="
      ∷ print_price t.price
      ∷ " qty="
      ∷ print t.quantity
      ∷ " maker="
      ∷ print t.maker_order_id
      ∷ " taker="
      ∷ print t.taker_order_id
      ∷ [])

  module _ {W : Type 0} (now : ℕ) (log : EventLog W) where
    unfoldable pub log_order_accepted : Order → W → W
    log_order_accepted o = emit now log order_accepted (accepted_detail o)

    unfoldable pub log_order_rejected : Order → String → W → W
    log_order_rejected o reason =
        emit now log order_rejected
          (concat ("ORDER_REJECTED id=" ∷ print o.id ∷ " reason=" ∷ reason ∷ []))

    unfoldable pub log_order_filled : Order → W → W
    log_order_filled o =
        emit now log order_filled
          (concat ("ORDER_FILLED id=" ∷ print o.id ∷ " sym=" ∷ o.symbol ∷ []))

    unfoldable pub log_order_partial_fill : Order → W → W
    log_order_partial_fill o = emit now log order_partially_filled (
        concat (
          "ORDER_PARTIAL_FILL id="
          ∷ print o.id
          ∷ " filled="
          ∷ print o.filled_qty
          ∷ "/"
          ∷ print o.quantity
          ∷ []))

    unfoldable pub log_order_cancelled : ℕ → W → W
    log_order_cancelled id =
        emit now log order_cancelled (concat ("ORDER_CANCELLED id=" ∷ print id ∷ []))

    unfoldable pub log_trade : Trade → W → W
    log_trade t = emit now log trade (trade_detail t)
