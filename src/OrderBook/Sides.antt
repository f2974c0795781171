-- ===== src/OrderBook/Sides.antt =====
-- A book seen from one side: what holds of a side and of the one opposite, and a book rebuilt from
-- a changed side.
use astra_exchange.Base.{
  ◌<◌, ◌≡◌, refl, true, false, some, [], ◌∷◌, arith, All, All-map, if_neg, ◌⊎◌, inl, inr, u64_mod,
}
use astra_exchange.Base.Int.{ℤ, ℤ_discrete}
use astra_exchange.Types.{Side, buy, sell}
use astra_exchange.PriceMap
use astra_exchange.PriceMap.{ahead}
use astra_exchange.Index.{Index, KeysOnce}
use astra_exchange.OrderBook.Defs.{Levels, OrderBook, best_passes}
use astra_exchange.OrderBook.Match.{levels, with_levels, opposite, crosses_at}
use astra_exchange.OrderBook.Valid.{SideValid, side_qty, SideIndexed, Uncrossed, BookValid}

pub levels-SideValid : (s : Side) {b : OrderBook} → BookValid b → SideValid s (levels s b)
levels-SideValid buy v = v.bids_valid
levels-SideValid sell v = v.asks_valid

pub levels-in_word : (s : Side) {b : OrderBook} → BookValid b → side_qty (levels s b) < u64_mod
levels-in_word buy v = v.bids_in_word
levels-in_word sell v = v.asks_in_word

pub levels-SideIndexed :
    (s : Side) {b : OrderBook} → BookValid b → SideIndexed s (levels s b) b.index
levels-SideIndexed buy v = v.bids_indexed
levels-SideIndexed sell v = v.asks_indexed

-- `Uncrossed`, with the side named first.
abbrev pub Apart : Side → Levels → Levels → Type 0
Apart buy m other = Uncrossed m other
Apart sell m other = Uncrossed other m

pub levels-Apart :
    (s : Side) {b : OrderBook} → BookValid b → Apart s (levels s b) (levels (opposite s) b)
levels-Apart buy v = v.uncrossed
levels-Apart sell v = v.uncrossed

-- A side whose prices were all there before is as far apart as it was.
pub Apart-sub :
    (s : Side) (m m' other : Levels)
    → ((q : ℤ) → PriceMap.has_key q m' ≡ true → PriceMap.has_key q m ≡ true)
    → Apart s m other
    → Apart s m' other
Apart-sub buy m m' other f a = λ p q h k. a p q (f p h) k
Apart-sub sell m m' other f a = λ p q h k. a p q h (f q k)

-- What a side needs beside the other to make a valid book.
pub record Beside (s : Side) (m other : Levels) (ix : Index) : Type 0 where
  pub valid : SideValid s m
  pub in_word : side_qty m < u64_mod
  pub here : SideIndexed s m ix
  pub there : SideIndexed (opposite s) other ix
  pub apart : Apart s m other
  pub once : KeysOnce ix

pub with_levels-BookValid :
    (s : Side) (m : Levels) (ix : Index) (b : OrderBook)
    → BookValid b
    → Beside s m (levels (opposite s) b) ix
    → BookValid (with_levels s m (record b { index = ix }))
with_levels-BookValid buy m ix b v n = record {
  bids_valid = n.valid;
  asks_valid = v.asks_valid;
  bids_in_word = n.in_word;
  asks_in_word = v.asks_in_word;
  uncrossed = n.apart;
  bids_indexed = n.here;
  asks_indexed = n.there;
  index_once = n.once;
}
with_levels-BookValid sell m ix b v n = record {
  bids_valid = v.bids_valid;
  asks_valid = n.valid;
  bids_in_word = v.bids_in_word;
  asks_in_word = n.in_word;
  uncrossed = n.apart;
  bids_indexed = n.there;
  asks_indexed = n.here;
  index_once = n.once;
}

-- What holds of every entry's price holds of every price that is found.
pub All-has_key :
    (K : ℤ → Type 0) (q : ℤ) (m : Levels) → All (λ e. K e.0) m → PriceMap.has_key q m ≡ true → K q
unfolding PriceMap.has_key
All-has_key K q [] a h = cc
All-has_key K q ((p, l) ∷ m) a h = elim (ℤ_discrete p q) [
  | yes y ↦ rw y at a.0
  | no n ↦ All-has_key K q m a.1 (rw (if_neg (ℤ_discrete p q) n) at h)
]

crosses_at_behind :
    (s : Side) (bound p q : ℤ)
    → crosses_at s bound p ≡ false
    → ahead (opposite s) p q ≡ true
    → crosses_at s bound q ≡ false
crosses_at_behind buy bound p q h k = ground arith
crosses_at_behind sell bound p q h k = ground arith

-- If the best price does not cross, none does.
pub no-price-crosses :
    (s : Side) (bound : ℤ) (m : Levels)
    → SideValid (opposite s) m
    → best_passes (some (crosses_at s bound)) m ≡ false
    → (q : ℤ) → PriceMap.has_key q m ≡ true
    → crosses_at s bound q ≡ false
unfolding PriceMap.has_key
no-price-crosses s bound [] v h q k = cc
no-price-crosses s bound ((p, l) ∷ m) v h q k =
    All-has_key (λ r. crosses_at s bound r ≡ false) q ((p, l) ∷ m)
      (h, All-map _ _ m (λ e. crosses_at_behind s bound p e.0 h) v.1) k

-- An order that crosses nothing may rest: its price keeps the sides apart.
pub Apart-rest :
    (s : Side) (bound : ℤ) (m m' other : Levels)
    → ((q : ℤ) → PriceMap.has_key q m' ≡ true → (bound ≡ q) ⊎ (PriceMap.has_key q m ≡ true))
    → ((q : ℤ) → PriceMap.has_key q other ≡ true → crosses_at s bound q ≡ false)
    → Apart s m other
    → Apart s m' other
Apart-rest buy bound m m' other f n a =
    λ p q h k. elim (f p h) [ inl e ↦ rw (← e) (ground (arith, n q k)) | inr j ↦ a p q j k ]
Apart-rest sell bound m m' other f n a =
    λ p q h k. elim (f q k) [ inl e ↦ rw (← e) (ground (arith, n p h)) | inr j ↦ a p q h j ]

module _ (m : Levels) (b : OrderBook) where
  pub index-with_levels : (s : Side) → (with_levels s m b).index ≡ b.index
  index-with_levels buy = refl
  index-with_levels sell = refl

  pub levels-with_levels : (s : Side) → levels s (with_levels s m b) ≡ m
  levels-with_levels buy = refl
  levels-with_levels sell = refl

  pub levels-with_levels_other :
      (ix : Index) (s : Side)
      → levels s (with_levels (opposite s) m (record b { index = ix })) ≡ levels s b
  levels-with_levels_other ix buy = refl
  levels-with_levels_other ix sell = refl

  pub levels-with_levels-opposite :
      (ix : Index) (s : Side)
      → levels (opposite s) (with_levels s m (record b { index = ix })) ≡ levels (opposite s) b
  levels-with_levels-opposite ix buy = refl
  levels-with_levels-opposite ix sell = refl
