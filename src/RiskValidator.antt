-- ===== src/RiskValidator.antt =====
-- include/core/RiskValidator.hpp: the checks before an order reaches a book. The two unordered sets
-- are lists without an order that matters.
use astra_exchange.Base.{
  ℕ, ◌≡◌, String, Bool, true, false, not, ◌&&◌, ◌||◌, Option, none, some, List, [], ◌∷◌, arith,
  ◌==◌, str_eq, if◌then◌else◌, eq_iff,
}
use astra_exchange.Base.Int.{pos, leb_ℤ}
use astra_exchange.Types.{OrderType, limit, Order}

-- The texts that a rejection or a cancellation carries, one constructor for each message.
pub data Reason : Type 0 where
  quantity_zero : Reason
  limit_price : Reason
  unknown_symbol : String → Reason
  duplicate_id : ℕ → Reason
  no_book : Reason
  unknown_cancel_symbol : Reason
  order_not_found : ℕ → Reason
  fok_liquidity : Reason
  ioc_no_fill : Reason

pub record RiskValidator : Type 0 where
  pub symbols : List String
  pub used_ids : List ℕ

unfoldable pub has_symbol : String → List String → Bool
has_symbol s [] = false
has_symbol s (x ∷ xs) = str_eq x s || has_symbol s xs

unfoldable pub has_id : ℕ → List ℕ → Bool
has_id i [] = false
has_id i (x ∷ xs) = x == i || has_id i xs

unfoldable pub register_symbol : String → RiskValidator → RiskValidator
register_symbol s v = record v {
  symbols = if has_symbol s v.symbols then v.symbols else s ∷ v.symbols;
}

unfoldable pub record_id : ℕ → RiskValidator → RiskValidator
record_id id v = record v {
  used_ids = if has_id id v.used_ids then v.used_ids else id ∷ v.used_ids;
}

abbrev pub is_limit : OrderType → Bool
is_limit limit = true
is_limit _ = false

-- `validate`: `none` is the answer `{true, ""}`.
unfoldable pub validate : RiskValidator → Order → Option Reason
validate v o =
    if o.quantity == 0
    then some quantity_zero
    else if is_limit o.type && leb_ℤ o.price (pos 0)
    then some limit_price
    else if not (has_symbol o.symbol v.symbols)
    then some (unknown_symbol o.symbol)
    else if has_id o.id v.used_ids
    then some (duplicate_id o.id)
    else none

pub has_id-record_id :
    (i id : ℕ) (v : RiskValidator)
    → has_id i (record_id id v).used_ids ≡ (id == i || has_id i v.used_ids)
unfolding record_id has_id
has_id-record_id i id v = ground arith

pub has_symbol-register_symbol :
    (s t : String) (v : RiskValidator)
    → has_symbol t (register_symbol s v).symbols ≡ (str_eq s t || has_symbol t v.symbols)
unfolding register_symbol has_symbol
has_symbol-register_symbol s t v = ground (arith, eq_iff s t)
