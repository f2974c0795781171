-- ===== src/OrderBook/Places.antt =====
-- The index of the book against the places where the orders rest, when orders leave or come.
use astra_exchange.Base.{
  ℕ, ◌+◌, ◌<◌, ◌≡◌, refl, String, true, Option, none, some, List, [], ◌∷◌, arith, ite,
  if◌then◌else◌, ◌==◌,
}
use astra_exchange.Base.Int.{ℤ, ℤ_discrete}
use astra_exchange.Types.{Side, buy, sell, Order}
use astra_exchange.PriceLevel.{PriceLevel}
use astra_exchange.PriceMap
use astra_exchange.OrderBook.Defs.{Levels, Crosses, Drain, keep_level, drain_side}
use astra_exchange.Index
use astra_exchange.Index.{Index, OrderLocation, KeysOnce, erase-KeysOnce, find-erase, find-assign}
use astra_exchange.OrderBook.Match.{opposite}
use astra_exchange.OrderBook.Valid.{occurrences, occurs_at, located, same_side, SideIndexed}
use astra_exchange.OrderBook.Round.{Round, completes, reduces, with_orders}
use astra_exchange.OrderBook.Drain.{Good, start, drain_side-keeps}

-- 1 at the one place that changes.
abbrev pub at_place : ℕ → ℤ → ℕ → ℤ → ℕ
at_place id p i q = if i == id then ite (ℤ_discrete p q) 1 0 else 0

-- One order with this id leaves the price `p`.
abbrev pub Removes : ℕ → ℤ → Levels → Levels → Type 0
Removes id p m m' = (i : ℕ) (q : ℤ) → occurs_at i q m ≡ occurs_at i q m' + at_place id p i q

-- An order that the index places somewhere rests there and nowhere else.
located_once :
    (l : Option OrderLocation) (s : Side) (p q : ℤ)
    → 0 < located l s p
    → located l s q ≡ ite (ℤ_discrete p q) 1 0
located_once none s p q h = absurd (omega arith)
located_once (some (loc)) s p q h = ground arith

located_elsewhere :
    (l : Option OrderLocation) (s : Side) (p q : ℤ)
    → 0 < located l s p
    → located l (opposite s) q ≡ 0
located_elsewhere none s p q h = absurd (omega arith)
located_elsewhere (some loc) buy p q h = ground arith
located_elsewhere (some loc) sell p q h = ground arith

module _ (s : Side) (id : ℕ) (p : ℤ) (m m' : Levels) (ix : Index) where
  placed_before : SideIndexed s m ix → Removes id p m m' → 0 < located (Index.find id ix) s p
  placed_before v r = ground (arith, v id p, r id p)

  -- The index of the side follows an order that leaves.
  pub erase-SideIndexed :
      SideIndexed s m ix → Removes id p m m' → SideIndexed s m' (Index.erase id ix)
  erase-SideIndexed v r i q = ground (
    arith,
    find-erase i id ix,
    v i q,
    r i q,
    located_once (Index.find id ix) s p q (placed_before v r),
  )

  -- The other side never had it.
  pub erase-SideIndexed_other :
      (other : Levels)
      → SideIndexed s m ix
      → Removes id p m m'
      → SideIndexed (opposite s) other ix
      → SideIndexed (opposite s) other (Index.erase id ix)
  erase-SideIndexed_other other v r w i q = ground (
    arith,
    find-erase i id ix,
    w i q,
    located_elsewhere (Index.find id ix) s p q (placed_before v r),
  )

pub same_side_self : (s : Side) → same_side s s ≡ 1
same_side_self buy = refl
same_side_self sell = refl

same_side-opposite : (s : Side) → same_side s (opposite s) ≡ 0
same_side-opposite buy = refl
same_side-opposite sell = refl

-- The index of both sides follows an order that comes to the side `s`.
module _ (s : Side) (id : ℕ) (p : ℤ) (ix : Index) (absent : Index.find id ix ≡ none) where
  pub assign-SideIndexed :
      (m m' : Levels)
      → SideIndexed s m ix
      → ((i : ℕ) (q : ℤ) → occurs_at i q m' ≡ occurs_at i q m + at_place id p i q)
      → SideIndexed s m' (Index.assign id (record { side = s; price = p }) ix)
  assign-SideIndexed m m' v a i q =
      ground (
        arith,
        find-assign i id (record { side = s; price = p }) ix,
        v i q,
        a i q,
        same_side_self s,
      )

  pub assign-SideIndexed_other :
      (other : Levels)
      → SideIndexed (opposite s) other ix
      → SideIndexed (opposite s) other (Index.assign id (record { side = s; price = p }) ix)
  assign-SideIndexed_other other v i q =
      ground
        (arith, find-assign i id (record { side = s; price = p }) ix, v i q, same_side-opposite s)

keep_level-occurs :
    (i : ℕ) (q p : ℤ) (l : PriceLevel) (os : List Order) (rest : Levels)
    → occurs_at i q (keep_level p (with_orders os l) rest)
      ≡ ite (ℤ_discrete p q) (occurrences i os) 0 + occurs_at i q rest
unfolding keep_level
keep_level-occurs i q p l [] rest = ground arith
keep_level-occurs i q p l (o ∷ os) rest = refl

keep_level-has_key :
    (q p : ℤ) (l l' : PriceLevel) (rest : Levels)
    → PriceMap.has_key q (keep_level p l' rest) ≡ true
    → PriceMap.has_key q ((p, l) ∷ rest) ≡ true
unfolding keep_level PriceMap.has_key
keep_level-has_key q p l l' rest h = ground arith

same_keys :
    (q p : ℤ) (l l' : PriceLevel) (rest : Levels)
    → PriceMap.has_key q ((p, l') ∷ rest) ≡ true
    → PriceMap.has_key q ((p, l) ∷ rest) ≡ true
unfolding PriceMap.has_key
same_keys q p l l' rest h = ground arith

-- What the loop keeps of the index, beside the side that it does not touch.
module _ (d : Side) (side other : Levels) (ix : Index) where
  pub record Placed (s : Drain) : Type 0 where
    pub here : SideIndexed d s.side s.index
    pub there : SideIndexed (opposite d) other s.index
    pub keys : (q : ℤ) → PriceMap.has_key q s.side ≡ true → PriceMap.has_key q side ≡ true
    pub once : KeysOnce s.index
    pub absent : (i : ℕ) → Index.find i ix ≡ none → Index.find i s.index ≡ none

module _ (symbol : String) (now : ℕ → ℕ) (c : Crosses) (d : Side) (side other : Levels)
    (ix : Index) where
  Round-Placed :
      (s t : Drain)
      → Good d s
      → Placed d side other ix s
      → Round symbol now c s t
      → Placed d side other ix t
  Round-Placed s t g a (completes p l rest maker os m h e) =
      let m' : Levels = keep_level p (with_orders os l) rest in
      let r : Removes maker.id p s.side m' =
        λ i q. rw (keep_level-occurs i q p l os rest, m.side_eq, m.orders_eq) (ground arith) in
      rw e (record {
        here = erase-SideIndexed d maker.id p s.side m' s.index a.here r;
        there = erase-SideIndexed_other d maker.id p s.side m' s.index other a.here r a.there;
        keys = λ q k. a.keys q (rw m.side_eq (keep_level-has_key q p l (with_orders os l) rest k));
        once = erase-KeysOnce maker.id s.index a.once;
        absent = λ i k. ground (arith, find-erase i maker.id s.index, a.absent i k);
      })
  Round-Placed s t g a (reduces p l rest maker os m h e) = rw e (record {
    here = λ i q. rw (m.side_eq, m.orders_eq) at (a.here i q);
    there = a.there;
    keys = λ q k. a.keys q (rw m.side_eq (same_keys q p l _ rest k));
    once = a.once;
    absent = a.absent;
  })

  -- The loop keeps the index in step with both sides, and brings in no price.
  pub drain_side-Placed :
      (o : Order)
      → Good d (start side o ix)
      → SideIndexed d side ix
      → SideIndexed (opposite d) other ix
      → KeysOnce ix
      → Placed d side other ix (drain_side symbol now c side o ix)
  drain_side-Placed o g v w n =
      (drain_side-keeps symbol now c d (Placed d side other ix) Round-Placed side o ix g
        (record { here = v; there = w; keys = λ q k. k; once = n; absent = λ i k. k })).1
