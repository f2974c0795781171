-- ===== src/Index.antt =====
-- `index_` of include/core/OrderBook.hpp: the `unordered_map` from an order's id to its place.
use astra_exchange.Base.{
  ℕ, Option, none, some, List, [], ◌∷◌, if◌then◌else◌, ◌==◌, ◌≡◌, refl, arith,
}
use astra_exchange.Base.Int.{ℤ}
use astra_exchange.Types.{Side}

pub record OrderLocation : Type 0 where
  pub side : Side
  pub price : ℤ

abbrev pub Index : Type 0
Index = List (ℕ × OrderLocation)

unfoldable pub find : ℕ → Index → Option OrderLocation
find id [] = none
find id ((j, loc) ∷ ix) = if j == id then some loc else find id ix

-- `index_[id] = loc`
unfoldable pub assign : ℕ → OrderLocation → Index → Index
assign id loc [] = (id, loc) ∷ []
assign id loc ((j, old) ∷ ix) = if j == id then (j, loc) ∷ ix else (j, old) ∷ assign id loc ix

-- A key stands once in the map; the model drops every entry of it.
unfoldable pub erase : ℕ → Index → Index
erase id [] = []
erase id ((j, loc) ∷ ix) = if j == id then erase id ix else (j, loc) ∷ erase id ix

pub find-erase :
    (i id : ℕ) (ix : Index) → find i (erase id ix) ≡ (if i == id then none else find i ix)
unfolding find erase
find-erase i id [] = ground arith
find-erase i id ((j, loc) ∷ ix) = ground (arith, find-erase i id ix)

pub find-assign :
    (i id : ℕ) (loc : OrderLocation) (ix : Index)
    → find i (assign id loc ix) ≡ (if i == id then some loc else find i ix)
unfolding find assign
find-assign i id loc [] = ground arith
find-assign i id loc ((j, old) ∷ ix) = ground (arith, find-assign i id loc ix)

-- A map holds each key once.
abbrev pub KeysOnce : Index → Type 0
KeysOnce [] = Unit {0}
KeysOnce ((j, loc) ∷ ix) = (find j ix ≡ none) × KeysOnce ix

pub erase-KeysOnce : (id : ℕ) (ix : Index) → KeysOnce ix → KeysOnce (erase id ix)
unfolding erase
erase-KeysOnce id [] k = tt
erase-KeysOnce id ((j, loc) ∷ ix) k = ground (arith, find-erase j id ix, erase-KeysOnce id ix k.1)

pub assign-KeysOnce :
    (id : ℕ) (loc : OrderLocation) (ix : Index) → KeysOnce ix → KeysOnce (assign id loc ix)
unfolding assign find
assign-KeysOnce id loc [] k = (refl, tt)
assign-KeysOnce id loc ((j, old) ∷ ix) k =
    ground (arith, find-assign j id loc ix, assign-KeysOnce id loc ix k.1)
