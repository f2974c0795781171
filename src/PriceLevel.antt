-- ===== src/PriceLevel.antt =====
-- include/core/PriceLevel.hpp: the resting orders of one price, oldest first. The head of `orders`
-- is the front of the deque. An order is the level's own value: the program shares it by pointer
-- with the caller, and the model hands it back where the program last touches it.
use astra_exchange.Base.{
  ℕ, ◌-◌, Bool, true, false, Option, none, some, List, [], ◌∷◌, ◌++◌, length, add64, sub64, leb,
  if◌then◌else◌, ◌==◌,
}
use astra_exchange.Base.Int.{ℤ}
use astra_exchange.Types.{Order, remaining_qty}

pub record PriceLevel : Type 0 where
  pub price : ℤ
  pub orders : List Order
  pub total_qty : ℕ

unfoldable pub new_level : ℤ → PriceLevel
new_level p = record { price = p; orders = []; total_qty = 0 }

unfoldable pub add_order : Order → PriceLevel → PriceLevel
add_order o l = record l {
  total_qty = add64 l.total_qty (remaining_qty o);
  orders = l.orders ++ o ∷ [];
}

-- The loop of `removeOrder`: the order found, and the deque without it.
unfoldable pub take_out : ℕ → List Order → Option (Order × List Order)
take_out id [] = none
take_out id (o ∷ os) =
    let rest = take_out id os in
    if o.id == id
    then some (o, os)
    else elim rest [ none ↦ none | some (found, others) ↦ some (found, o ∷ others) ]

unfoldable pub remove_order : ℕ → PriceLevel → Bool × PriceLevel
unfolding take_out
remove_order id l = elim (take_out id l.orders) [
  | none ↦ (false, l)
  | some (o, os) ↦ (true, record l { total_qty = sub64 l.total_qty (remaining_qty o); orders = os })
]

abbrev pub head_of : List Order → Option Order
head_of [] = none
head_of (o ∷ os) = some o

unfoldable pub front : PriceLevel → Option Order
front l = head_of l.orders

abbrev pop_orders : List Order → PriceLevel → PriceLevel
pop_orders [] l = l
pop_orders (o ∷ os) l = record l { total_qty = sub64 l.total_qty (remaining_qty o); orders = os }

unfoldable pub pop_front : PriceLevel → PriceLevel
pop_front l = pop_orders l.orders l

unfoldable pub update_total_qty : ℕ → PriceLevel → PriceLevel
update_total_qty filled l = record l {
  total_qty = if leb filled l.total_qty then l.total_qty - filled else 0;
}

abbrev pub is_empty {ℓ} : {A : Type ℓ} → List A → Bool
is_empty [] = true
is_empty (x ∷ xs) = false

unfoldable pub empty : PriceLevel → Bool
empty l = is_empty l.orders

unfoldable pub order_count : PriceLevel → ℕ
order_count l = length l.orders

-- What the program does to the front order through its pointer.
abbrev pub with_front : Order → List Order → List Order
with_front o [] = []
with_front o (_ ∷ os) = o ∷ os

unfoldable pub set_front : Order → PriceLevel → PriceLevel
set_front o l = record l { orders = with_front o l.orders }
