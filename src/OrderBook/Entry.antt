-- ===== src/OrderBook/Entry.antt =====
-- `emplace` of a level that is new, and the update of one that is there, on a valid side.
use astra_exchange.Base.{
  ℕ, ◌+◌, ◌≤◌, ◌≡◌, ◌≢◌, ◌⊎◌, true, false, none, some, [], ◌∷◌, arith, ite, if_pos, if_neg, All-map,
}
use astra_exchange.Base.Int.{ℤ, ℤ_discrete, eq_of_parts}
use astra_exchange.Types.{Side, buy, sell}
use astra_exchange.PriceLevel.{PriceLevel}
use astra_exchange.PriceMap
use astra_exchange.PriceMap.{ahead}
use astra_exchange.OrderBook.Defs.{Levels}
use astra_exchange.OrderBook.Valid.{
  LevelValid, SideValid, KeysAfter, level_qty, side_qty, occurrences, occurs_at,
}

ahead_trans : (s : Side) (p q r : ℤ) → ahead s p q ≡ true → ahead s q r ≡ true → ahead s p r ≡ true
ahead_trans buy p q r h k = ground arith
ahead_trans sell p q r h k = ground arith

ahead_total : (s : Side) (p q : ℤ) → ahead s p q ≡ false → q ≢ p → ahead s q p ≡ true
ahead_total buy p q h k = ground (arith, eq_of_parts q p)
ahead_total sell p q h k = ground (arith, eq_of_parts q p)

KeysAfter-trans :
    (s : Side) (p q : ℤ) (m : Levels) → ahead s p q ≡ true → KeysAfter s q m → KeysAfter s p m
KeysAfter-trans s p q m h k = All-map _ _ m (λ e. ahead_trans s p q e.0 h) k

emplace-KeysAfter :
    (s : Side) (p q : ℤ) (v : PriceLevel) (m : Levels)
    → ahead s q p ≡ true
    → KeysAfter s q m
    → KeysAfter s q (PriceMap.emplace s p v m)
unfolding PriceMap.emplace
emplace-KeysAfter s p q v [] h k = (h, tt)
emplace-KeysAfter s p q v ((r, w) ∷ m) h k = ground (arith, emplace-KeysAfter s p q v m h k.1)

-- A new level goes where the order of the side wants it.
pub emplace-SideValid :
    (s : Side) (p : ℤ) (v : PriceLevel) (m : Levels)
    → LevelValid s p v
    → SideValid s m
    → PriceMap.find p m ≡ none
    → SideValid s (PriceMap.emplace s p v m)
unfolding PriceMap.emplace PriceMap.find
emplace-SideValid s p v [] l h e = (l, tt, tt)
emplace-SideValid s p v ((q, w) ∷ m) l h e = ground (
  arith,
  KeysAfter-trans s p q m,
  ahead_total s p q,
  emplace-KeysAfter s p q v m,
  emplace-SideValid s p v m l h.2,
)

update-KeysAfter :
    (s : Side) (p q : ℤ) (f : PriceLevel → PriceLevel) (m : Levels)
    → KeysAfter s q m
    → KeysAfter s q (PriceMap.update p f m)
unfolding PriceMap.update
update-KeysAfter s p q f [] k = tt
update-KeysAfter s p q f ((r, w) ∷ m) k = ground (arith, update-KeysAfter s p q f m k.1)

-- A level that is found and replaced by a valid one leaves a valid side.
pub update-SideValid :
    (s : Side) (p : ℤ) (f : PriceLevel → PriceLevel) (m : Levels) (l : PriceLevel)
    → PriceMap.find p m ≡ some l
    → (LevelValid s p l → LevelValid s p (f l))
    → SideValid s m
    → SideValid s (PriceMap.update p f m)
unfolding PriceMap.update PriceMap.find
update-SideValid s p f [] l e k h = tt
update-SideValid s p f ((q, w) ∷ m) l e k h = elim (ℤ_discrete q p) [
  | yes y ↦
      let j : w ≡ l = ground arith in
      let v : LevelValid s q (f w) = rw (y, j) (k (rw (y, j) at h.0)) in
      rw (if_pos (ℤ_discrete q p) y) (v, h.1, h.2)
  | no n ↦ rw (if_neg (ℤ_discrete q p) n) (
    h.0,
    update-KeysAfter s p q f m h.1,
    update-SideValid s p f m l (rw (if_neg (ℤ_discrete q p) n) at e) k h.2,
  )
]

pub update-occurs :
    (i : ℕ) (q p : ℤ) (f : PriceLevel → PriceLevel) (m : Levels) (l : PriceLevel)
    → PriceMap.find p m ≡ some l
    → occurs_at i q (PriceMap.update p f m) + ite (ℤ_discrete p q) (occurrences i l.orders) 0
      ≡ occurs_at i q m + ite (ℤ_discrete p q) (occurrences i (f l).orders) 0
unfolding PriceMap.update PriceMap.find
update-occurs i q p f [] l e = cc
update-occurs i q p f ((r, w) ∷ m) l e = ground (arith, update-occurs i q p f m l)

pub update-qty :
    (p : ℤ) (f : PriceLevel → PriceLevel) (m : Levels) (l : PriceLevel)
    → PriceMap.find p m ≡ some l
    → side_qty (PriceMap.update p f m) + level_qty l ≡ side_qty m + level_qty (f l)
unfolding PriceMap.update PriceMap.find
update-qty p f [] l e = cc
update-qty p f ((r, w) ∷ m) l e = ground (arith, update-qty p f m l)

pub update-has_key :
    (q p : ℤ) (f : PriceLevel → PriceLevel) (m : Levels)
    → PriceMap.has_key q (PriceMap.update p f m) ≡ true
    → PriceMap.has_key q m ≡ true
unfolding PriceMap.update PriceMap.has_key
update-has_key q p f [] h = h
update-has_key q p f ((r, w) ∷ m) h = ground (arith, update-has_key q p f m)

pub emplace-occurs :
    (s : Side) (i : ℕ) (q p : ℤ) (v : PriceLevel) (m : Levels)
    → PriceMap.find p m ≡ none
    → occurs_at i q (PriceMap.emplace s p v m)
      ≡ occurs_at i q m + ite (ℤ_discrete p q) (occurrences i v.orders) 0
unfolding PriceMap.emplace PriceMap.find
emplace-occurs s i q p v [] e = omega arith
emplace-occurs s i q p v ((r, w) ∷ m) e = ground (arith, emplace-occurs s i q p v m)

pub emplace-qty :
    (s : Side) (p : ℤ) (v : PriceLevel) (m : Levels)
    → PriceMap.find p m ≡ none
    → side_qty (PriceMap.emplace s p v m) ≡ side_qty m + level_qty v
unfolding PriceMap.emplace PriceMap.find
emplace-qty s p v [] e = omega arith
emplace-qty s p v ((r, w) ∷ m) e = ground (arith, emplace-qty s p v m)

pub emplace-has_key :
    (s : Side) (q p : ℤ) (v : PriceLevel) (m : Levels)
    → PriceMap.has_key q (PriceMap.emplace s p v m) ≡ true
    → (p ≡ q) ⊎ (PriceMap.has_key q m ≡ true)
unfolding PriceMap.emplace PriceMap.has_key
emplace-has_key s q p v [] h = ground arith
emplace-has_key s q p v ((r, w) ∷ m) h = ground (arith, emplace-has_key s q p v m)

-- The level that is put in empty takes the order at once.
pub update-emplace :
    (s : Side) (p : ℤ) (f : PriceLevel → PriceLevel) (v : PriceLevel) (m : Levels)
    → PriceMap.find p m ≡ none
    → PriceMap.update p f (PriceMap.emplace s p v m) ≡ PriceMap.emplace s p (f v) m
unfolding PriceMap.update PriceMap.emplace PriceMap.find
update-emplace s p f v [] e = ground arith
update-emplace s p f v ((r, w) ∷ m) e = ground (arith, update-emplace s p f v m)

pub find-qty-le :
    (p : ℤ) (m : Levels) (l : PriceLevel) → PriceMap.find p m ≡ some l → level_qty l ≤ side_qty m
unfolding PriceMap.find
find-qty-le p [] l e = cc
find-qty-le p ((r, w) ∷ m) l e = ground (arith, find-qty-le p m l)
