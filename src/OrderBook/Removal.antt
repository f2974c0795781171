-- ===== src/OrderBook/Removal.antt =====
-- The level of a cancelled order in its side: how `cancelOrder` shortens or erases it.
use astra_exchange.Base.{
  ℕ, ◌+◌, ◌<◌, ◌≡◌, ◌≢◌, refl, ap, ◌∙◌, sym, inl, inr, true, some, [], ◌∷◌, arith, ite, if_pos,
  if_neg, sum_by, sum_by-append, All, if◌then◌else◌, ◌==◌, u64_mod, Bool-cases,
}
use astra_exchange.Base.Int.{ℤ, ℤ_discrete}
use astra_exchange.Types.{Side, buy, sell, Order}
use astra_exchange.PriceLevel.{PriceLevel, remove_order, empty, is_empty}
use astra_exchange.PriceMap
use astra_exchange.PriceMap.{ahead}
use astra_exchange.OrderBook.Defs.{Levels}
use astra_exchange.OrderBook.Match.{remove_at}
use astra_exchange.OrderBook.Valid.{
  Rests, LevelValid, SideValid, KeysAfter, level_qty, side_qty, open_qty, occurrences, occurs_at,
}
use astra_exchange.OrderBook.Priority.{queue}
use astra_exchange.OrderBook.Places.{Removes}
use astra_exchange.OrderBook.Entry.{update-SideValid, update-occurs, update-has_key, find-qty-le}
use astra_exchange.OrderBook.Cancel.{
  Without, Without-prepend, Without-extend, Without-sum, remove_order-Without,
}

ahead_irrefl : (s : Side) (p q : ℤ) → ahead s p q ≡ true → p ≢ q
ahead_irrefl buy p q h e = ground arith
ahead_irrefl sell p q h e = ground arith

-- Behind its own level a price does not come again.
KeysAfter-occurs : (s : Side) (i : ℕ) (p : ℤ) (m : Levels) → KeysAfter s p m → occurs_at i p m ≡ 0
KeysAfter-occurs s i p [] k = refl
KeysAfter-occurs s i p ((q, l) ∷ m) k =
    rw (if_neg (ℤ_discrete q p) (λ e. ahead_irrefl s p q k.0 (sym e)))
      (omega (arith, KeysAfter-occurs s i p m k.1))

-- An order that occurs at a price is in the level that is found there.
pub occurs-find :
    (s : Side) (i : ℕ) (p : ℤ) (m : Levels)
    → SideValid s m
    → 0 < occurs_at i p m
    → (l : PriceLevel) × (PriceMap.find p m ≡ some l)
      × (0 < occurrences i l.orders)
      × LevelValid s p l
unfolding PriceMap.find
occurs-find s i p [] v h = absurd (omega arith)
occurs-find s i p ((q, l) ∷ m) v h = elim (ℤ_discrete q p) [
  | yes y ↦
      let k : KeysAfter s p m = rw y at v.1 in
      let w : LevelValid s p l = rw y at v.0 in
      (l, rw (if_pos (ℤ_discrete q p) y) refl, ground (arith, KeysAfter-occurs s i p m k), w)
  | no n ↦
      let (l', e, o, w) = occurs-find s i p m v.2 (ground arith) in
      (l', rw (if_neg (ℤ_discrete q p) n) e, o, w)
]

erase-KeysAfter :
    (s : Side) (p q : ℤ) (m : Levels) → KeysAfter s q m → KeysAfter s q (PriceMap.erase p m)
unfolding PriceMap.erase
erase-KeysAfter s p q [] k = tt
erase-KeysAfter s p q ((r, w) ∷ m) k = ground (arith, erase-KeysAfter s p q m k.1)

erase-SideValid : (s : Side) (p : ℤ) (m : Levels) → SideValid s m → SideValid s (PriceMap.erase p m)
unfolding PriceMap.erase
erase-SideValid s p [] v = tt
erase-SideValid s p ((q, l) ∷ m) v =
    ground (arith, erase-KeysAfter s p q m v.1, erase-SideValid s p m v.2)

erase-occurs :
    (i : ℕ) (q p : ℤ) (m : Levels) (l : PriceLevel)
    → PriceMap.find p m ≡ some l
    → occurs_at i q (PriceMap.erase p m) + ite (ℤ_discrete p q) (occurrences i l.orders) 0
      ≡ occurs_at i q m
unfolding PriceMap.erase PriceMap.find
erase-occurs i q p [] l e = cc
erase-occurs i q p ((r, w) ∷ m) l e = ground (arith, erase-occurs i q p m l)

erase-has_key :
    (q p : ℤ) (m : Levels)
    → PriceMap.has_key q (PriceMap.erase p m) ≡ true
    → PriceMap.has_key q m ≡ true
unfolding PriceMap.erase PriceMap.has_key
erase-has_key q p [] h = h
erase-has_key q p ((r, w) ∷ m) h = ground (arith, erase-has_key q p m)

erase-Without :
    (o : Order) (p : ℤ) (m : Levels) (l : PriceLevel)
    → PriceMap.find p m ≡ some l
    → Without o l.orders []
    → Without o (queue m) (queue (PriceMap.erase p m))
unfolding PriceMap.erase PriceMap.find
erase-Without o p [] l e w = cc
erase-Without o p ((r, x) ∷ m) l e w = elim (ℤ_discrete r p) [
  | yes y ↦
      let j : x ≡ l = ground arith in
      rw (if_pos (ℤ_discrete r p) y, j) (Without-extend o l.orders [] (queue m) w)
  | no n ↦ rw (if_neg (ℤ_discrete r p) n) (
      Without-prepend o x.orders (queue m) (queue (PriceMap.erase p m))
        (erase-Without o p m l (rw (if_neg (ℤ_discrete r p) n) at e) w))
]

update-Without :
    (o : Order) (p : ℤ) (m : Levels) (l l' : PriceLevel)
    → PriceMap.find p m ≡ some l
    → Without o l.orders l'.orders
    → Without o (queue m) (queue (PriceMap.update p (λ _. l') m))
unfolding PriceMap.update PriceMap.find
update-Without o p [] l l' e w = cc
update-Without o p ((r, x) ∷ m) l l' e w = elim (ℤ_discrete r p) [
  | yes y ↦
      let j : x ≡ l = ground arith in
      rw (if_pos (ℤ_discrete r p) y, j) (Without-extend o l.orders l'.orders (queue m) w)
  | no n ↦ rw (if_neg (ℤ_discrete r p) n) (
      Without-prepend o x.orders (queue m) (queue (PriceMap.update p (λ _. l') m))
        (update-Without o p m l l' (rw (if_neg (ℤ_discrete r p) n) at e) w))
]

pub queue-qty : (m : Levels) → sum_by open_qty (queue m) ≡ side_qty m
queue-qty [] = refl
queue-qty ((p, l) ∷ m) = rw (sum_by-append open_qty l.orders (queue m), queue-qty m)

-- What `cancelOrder` does to the side of the order.
pub record Removed (s : Side) (p : ℤ) (id : ℕ) (o : Order) (m m' : Levels) : Type 0 where
  pub named : o.id ≡ id
  pub rested : Rests s p o
  pub valid : SideValid s m'
  pub without : Without o (queue m) (queue m')
  pub removes : Removes id p m m'
  pub keys : (q : ℤ) → PriceMap.has_key q m' ≡ true → PriceMap.has_key q m ≡ true

module _ (s : Side) (p : ℤ) (id : ℕ) (m : Levels) (v : SideValid s m)
    (b : side_qty m < u64_mod) where
  Removed-level :
      (l l' : PriceLevel) (o : Order)
      → PriceMap.find p m ≡ some l
      → o.id ≡ id
      → Rests s p o
      → Without o l.orders l'.orders
      → All (Rests s p) l'.orders
      → l'.total_qty ≡ level_qty l'
      → l'.price ≡ p
      → Removed s p id o m (if empty l' then PriceMap.erase p m else PriceMap.update p (λ _. l') m)
  unfolding empty
  Removed-level l l' o e i r w a t k = elim (Bool-cases (is_empty l'.orders)) [
    | inl y ↦
        let z : l'.orders ≡ [] = ground arith in
        rw y (record {
          named = i;
          rested = r;
          valid = erase-SideValid s p m v;
          without = erase-Without o p m l e (rw z at w);
          removes = λ j q. ground (arith, erase-occurs j q p m l e, occ j, ap (occurrences j) z);
          keys = λ q h. erase-has_key q p m h;
        })
    | inr n ↦ rw n (record {
      named = i;
      rested = r;
      valid =
          update-SideValid s p (λ _. l') m l e
            (λ _. record { keyed = k; nonempty = λ h. ground arith; resting = a; totalled = t }) v;
      without = update-Without o p m l l' e w;
      removes = λ j q. ground (arith, update-occurs j q p (λ _. l') m l e, occ j);
      keys = λ q h. update-has_key q p (λ _. l') m h;
    })
  ]
    where
      occ : (j : ℕ) → occurrences j l.orders ≡ occurrences j l'.orders + (if j == id then 1 else 0)
      occ j = Without-sum (λ x. if x.id == j then 1 else 0) o l.orders l'.orders w ∙ ground arith

  -- An order that occurs at its price is removed, alone.
  pub remove_at-Removed : 0 < occurs_at id p m → (o : Order) × Removed s p id o m (remove_at p id m)
  unfolding remove_at
  remove_at-Removed h =
      let (l, e, n, w) = occurs-find s id p m v h in
      let (o, i, r, x, a, t, k) =
        remove_order-Without s p id l n (omega (arith, find-qty-le p m l e)) w in
      (o, rw (e, remove_at) (Removed-level l (remove_order id l).1 o e i r x a t k))
