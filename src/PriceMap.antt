-- ===== src/PriceMap.antt =====
-- The `std::map<Price, …>` of one side of the book, as the sequence that its iterators run through.
-- Bids are ordered by `std::greater`, asks by `std::less`, so the best price stands first.
use astra_exchange.Base.{Bool, true, false, Option, none, some, List, [], ◌∷◌, ite, if◌then◌else◌}
use astra_exchange.Base.Int.{ℤ, ltb_ℤ, ℤ_discrete}
use astra_exchange.Types.{Side, buy, sell}

abbrev pub PriceMap {ℓ} : Type ℓ → Type ℓ
PriceMap V = List (ℤ × V)

-- The comparator of a side.
abbrev pub ahead : Side → ℤ → ℤ → Bool
ahead buy p q = ltb_ℤ q p
ahead sell p q = ltb_ℤ p q

module _ {ℓ} {V : Type ℓ} where
  unfoldable pub find : ℤ → PriceMap V → Option V
  find p [] = none
  find p ((q, v) ∷ m) = ite (ℤ_discrete q p) (some v) (find p m)

  abbrev pub is_some : Option V → Bool
  is_some none = false
  is_some (some v) = true

  -- `count(p) > 0`
  unfoldable pub has_key : ℤ → PriceMap V → Bool
  unfolding find
  has_key p m = is_some (find p m)

  -- A write through the iterator that `find(p)` returns.
  unfoldable pub update : ℤ → (V → V) → PriceMap V → PriceMap V
  update p f [] = []
  update p f ((q, v) ∷ m) = ite (ℤ_discrete q p) ((q, f v) ∷ m) ((q, v) ∷ update p f m)

  unfoldable pub erase : ℤ → PriceMap V → PriceMap V
  erase p [] = []
  erase p ((q, v) ∷ m) = ite (ℤ_discrete q p) m ((q, v) ∷ erase p m)

  -- `emplace` leaves a key that is there as it is.
  unfoldable pub emplace : Side → ℤ → V → PriceMap V → PriceMap V
  emplace s p v [] = (p, v) ∷ []
  emplace s p v ((q, w) ∷ m) =
      if ahead s p q
      then (p, v) ∷ (q, w) ∷ m
      else ite (ℤ_discrete q p) ((q, w) ∷ m) ((q, w) ∷ emplace s p v m)

  unfoldable pub first_key : PriceMap V → Option ℤ
  first_key [] = none
  first_key ((p, v) ∷ m) = some p
