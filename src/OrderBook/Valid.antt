-- ===== src/OrderBook/Valid.antt =====
-- When a book is well formed, and the counts in which that is said.
use astra_exchange.Base.{
  ℕ, ◌-◌, ◌<◌, ◌≡◌, ◌≢◌, true, Option, none, some, List, [], ◌∷◌, ite, sum_by, All, u64_mod, ◌==◌,
  if◌then◌else◌,
}
use astra_exchange.Base.Int.{ℤ, ◌<ℤ◌, ℤ_discrete}
use astra_exchange.Types.{Side, buy, sell, Order}
use astra_exchange.PriceLevel.{PriceLevel}
use astra_exchange.PriceMap.{PriceMap, ahead}
use astra_exchange.PriceMap
use astra_exchange.Index
use astra_exchange.Index.{Index, OrderLocation, KeysOnce}
use astra_exchange.OrderBook.Defs.{Levels, OrderBook}

-- What is left of an order, in plain numbers.
abbrev pub open_qty : Order → ℕ
open_qty o = o.quantity - o.filled_qty

abbrev pub level_qty : PriceLevel → ℕ
level_qty l = sum_by open_qty l.orders

abbrev pub side_qty : Levels → ℕ
side_qty m = sum_by (λ e. level_qty e.1) m

-- An order that rests at the price `p` of the side `s`: something of it is left.
pub record Rests (s : Side) (p : ℤ) (o : Order) : Type 0 where
  pub on_side : o.side ≡ s
  pub at_price : o.price ≡ p
  pub is_open : o.filled_qty < o.quantity
  pub in_word : o.quantity < u64_mod

pub record LevelValid (s : Side) (p : ℤ) (l : PriceLevel) : Type 0 where
  pub keyed : l.price ≡ p
  pub nonempty : l.orders ≢ []
  pub resting : All (Rests s p) l.orders
  pub totalled : l.total_qty ≡ level_qty l

abbrev pub KeysAfter : Side → ℤ → Levels → Type 0
KeysAfter s p m = All (λ e. ahead s p e.0 ≡ true) m

-- The levels stand in the order of the side, and each is valid.
abbrev pub SideValid : Side → Levels → Type 0
SideValid s [] = Unit {0}
SideValid s ((p, l) ∷ m) = LevelValid s p l × KeysAfter s p m × SideValid s m

-- How often an order with this id rests at the price `p`.
abbrev pub occurrences : ℕ → List Order → ℕ
occurrences id os = sum_by (λ o. if o.id == id then 1 else 0) os

abbrev pub occurs_at : ℕ → ℤ → Levels → ℕ
occurs_at id p m = sum_by (λ e. ite (ℤ_discrete e.0 p) (occurrences id e.1.orders) 0) m

abbrev pub same_side : Side → Side → ℕ
same_side buy buy = 1
same_side sell sell = 1
same_side _ _ = 0

-- 1 at the place that the index names, and 0 elsewhere.
abbrev pub located : Option OrderLocation → Side → ℤ → ℕ
located none s p = 0
located (some loc) s p = ite (ℤ_discrete loc.price p) (same_side loc.side s) 0

-- Each id of the index rests once, at the place it names, and no other id rests at all.
abbrev pub SideIndexed : Side → Levels → Index → Type 0
SideIndexed s m ix = (id : ℕ) (p : ℤ) → occurs_at id p m ≡ located (Index.find id ix) s p

-- Every bid stands below every ask.
abbrev pub Uncrossed : Levels → Levels → Type 0
Uncrossed bids asks =
    (p q : ℤ) → PriceMap.has_key p bids ≡ true → PriceMap.has_key q asks ≡ true → p <ℤ q

pub record BookValid (b : OrderBook) : Type 0 where
  pub bids_valid : SideValid buy b.bids
  pub asks_valid : SideValid sell b.asks
  pub bids_in_word : side_qty b.bids < u64_mod
  pub asks_in_word : side_qty b.asks < u64_mod
  pub uncrossed : Uncrossed b.bids b.asks
  pub bids_indexed : SideIndexed buy b.bids b.index
  pub asks_indexed : SideIndexed sell b.asks b.index
  pub index_once : KeysOnce b.index

-- An order as the callers construct it.
pub record Fresh (o : Order) : Type 0 where
  pub unfilled : o.filled_qty ≡ 0
  pub nonzero : 0 < o.quantity
  pub in_word : o.quantity < u64_mod
