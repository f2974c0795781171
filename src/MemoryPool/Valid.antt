-- ===== src/MemoryPool/Valid.antt =====
-- The pool's invariant: the free list names each empty slot once, and no other slot.
use astra_exchange.Base.{
  ℕ, zero, suc, ◌+◌, ◌-◌, ◌%◌, ◌≤◌, ◌<◌, ◌≡◌, refl, ap, ◌∙◌, sym, ◌⊎◌, inl, inr, Option, none, some,
  List, [], ◌∷◌, arith, length, get_elem?, set, sum_by, raw_slots, length-set, ◌==◌, if◌then◌else◌,
  add64, sub64, ltb,
}
use astra_exchange.MemoryPool.Defs.{MemoryPool, u32_mod, push_free, new_pool, alloc, dealloc}

-- How often a slot stands in the free list.
abbrev pub listed : ℕ → List ℕ → ℕ
listed i free = sum_by (λ j. if j == i then 1 else 0) free

listed-push_free :
    (i n : ℕ) (free : List ℕ)
    → n ≤ u32_mod
    → listed i (push_free n free) ≡ (if ltb i n then 1 else 0) + listed i free
unfolding push_free
listed-push_free i zero free h = ground arith
listed-push_free i (suc n) free h = ground (arith, listed-push_free i n (n % u32_mod ∷ free))

length-push_free : (n : ℕ) (free : List ℕ) → length (push_free n free) ≡ n + length free
unfolding push_free
length-push_free zero free = omega arith
length-push_free (suc n) free = omega (arith, length-push_free n (n % u32_mod ∷ free))

module _ {ℓ} {A : Type ℓ} where
  -- 1 for a slot that is there and empty.
  abbrev pub vacant : Option (Option A) → ℕ
  vacant none = 0
  vacant (some none) = 1
  vacant (some (some a)) = 0

  abbrev pub occupied : Option A → ℕ
  occupied none = 0
  occupied (some a) = 1

  pub record PoolValid (p : MemoryPool A) : Type ℓ where
    pub in_word : p.capacity ≤ u32_mod
    pub storage : length p.slots ≡ p.capacity
    pub vacancies : (i : ℕ) → listed i p.freelist ≡ vacant (get_elem? p.slots i)
    pub counted : p.allocated ≡ sum_by occupied p.slots
    pub balanced : p.allocated + length p.freelist ≡ p.capacity

vacant-raw_slots {ℓ} :
    (A : Type ℓ) (n i : ℕ) → vacant (get_elem? (raw_slots {A = A} n) i) ≡ (if ltb i n then 1 else 0)
vacant-raw_slots A zero i = ground arith
vacant-raw_slots A (suc n) zero = ground arith
vacant-raw_slots A (suc n) (suc i) = ground (arith, vacant-raw_slots A n i)

length-raw_slots {ℓ} : (A : Type ℓ) (n : ℕ) → length (raw_slots {A = A} n) ≡ n
length-raw_slots A zero = refl
length-raw_slots A (suc n) = ap suc (length-raw_slots A n)

occupied-raw_slots {ℓ} : (A : Type ℓ) (n : ℕ) → sum_by occupied (raw_slots {A = A} n) ≡ 0
occupied-raw_slots A zero = refl
occupied-raw_slots A (suc n) = omega (arith, occupied-raw_slots A n)

module _ {ℓ} {A : Type ℓ} where
  pub occupied-set :
      (slots : List (Option A)) (i : ℕ) (o v : Option A)
      → get_elem? slots i ≡ some o
      → (sum_by occupied (set slots i v) + occupied o ≡ sum_by occupied slots + occupied v)
        × (i < length slots)
  occupied-set [] i o v e = cc
  occupied-set (s ∷ slots) zero o v e =
      let f : s ≡ o = ground arith in (rw f (omega arith), omega arith)
  occupied-set (s ∷ slots) (suc i) o v e =
      let (f, l) = occupied-set slots i o v e in (omega (arith, f), omega (arith, l))

  vacant-set :
      (slots : List (Option A)) (i j : ℕ) (o v : Option A)
      → get_elem? slots i ≡ some o
      → vacant (get_elem? (set slots i v) j) + (if i == j then vacant (some o) else 0)
        ≡ vacant (get_elem? slots j) + (if i == j then vacant (some v) else 0)
  vacant-set [] i j o v e = cc
  vacant-set (s ∷ slots) zero zero o v e = let f : s ≡ o = ground arith in rw f (omega arith)
  vacant-set (s ∷ slots) zero (suc j) o v e = ground arith
  vacant-set (s ∷ slots) (suc i) zero o v e = ground arith
  vacant-set (s ∷ slots) (suc i) (suc j) o v e = ground (arith, vacant-set slots i j o v e)

  -- A slot that counts as vacant is there and empty.
  vacant-empty : (o : Option (Option A)) → 0 < vacant o → o ≡ some none
  vacant-empty none h = absurd (omega arith)
  vacant-empty (some none) h = refl
  vacant-empty (some (some a)) h = absurd (omega arith)

  -- What a call of `alloc` does to a valid pool.
  abbrev pub Allocates : A → MemoryPool A → Type ℓ
  Allocates item p =
      ((alloc item p ≡ none) × (p.allocated ≡ p.capacity))
      ⊎ ((i : ℕ) × (q : MemoryPool A) × (alloc item p ≡ some (i, q))
          × (get_elem? p.slots i ≡ some none)
          × (q.slots ≡ set p.slots i (some item))
          × PoolValid q)

  alloc-taken :
      (item : A) (p : MemoryPool A) (i : ℕ) (free : List ℕ)
      → PoolValid p
      → p.freelist ≡ i ∷ free
      → Allocates item p
  unfolding alloc
  alloc-taken item p i free v e =
      let n : (j : ℕ) → listed j (i ∷ free) ≡ vacant (get_elem? p.slots j) =
        λ j. sym (ap (listed j) e) ∙ v.vacancies j in
      let h : get_elem? p.slots i ≡ some none =
        vacant-empty (get_elem? p.slots i) (ground (arith, n i)) in
      let (f, l) = occupied-set p.slots i none (some item) h in
      let b : p.allocated + suc (length free) ≡ p.capacity =
        omega (arith, v.balanced, ap length e) in
      let s : add64 p.allocated 1 ≡ p.allocated + 1 = omega (arith, b, v.in_word) in
      inr (
        i,
        record p {
          slots = set p.slots i (some item);
          freelist = free;
          allocated = add64 p.allocated 1;
        },
        rw e refl,
        h,
        refl,
        record {
          in_word = v.in_word;
          storage = length-set p.slots i (some item) ∙ v.storage;
          vacancies = λ j. ground (arith, n j, vacant-set p.slots i j none (some item) h);
          counted = omega (arith, s, f, v.counted);
          balanced = omega (arith, s, b);
        },
      )

  alloc-by :
      (item : A) (p : MemoryPool A) (free : List ℕ)
      → PoolValid p
      → p.freelist ≡ free
      → Allocates item p
  unfolding alloc
  alloc-by item p [] v e = inl (rw e refl, omega (arith, v.balanced, ap length e))
  alloc-by item p (i ∷ free) v e = alloc-taken item p i free v e

  -- `alloc` on a valid pool throws just where all slots are taken, and otherwise takes an empty
  -- slot for the item, leaves every other slot, and keeps the pool valid.
  pub alloc-Allocates : (item : A) (p : MemoryPool A) → PoolValid p → Allocates item p
  alloc-Allocates item p v = alloc-by item p p.freelist v refl

  -- `dealloc` of a live object empties its slot and keeps the pool valid.
  pub dealloc-PoolValid :
      (i : ℕ) (a : A) (p : MemoryPool A)
      → PoolValid p
      → get_elem? p.slots i ≡ some (some a)
      → PoolValid (dealloc (some i) p) × ((dealloc (some i) p).slots ≡ set p.slots i none)
  unfolding dealloc
  dealloc-PoolValid i a p v e =
      let (f, l) = occupied-set p.slots i (some a) none e in
      let m : i % u32_mod ≡ i = omega (arith, l, v.storage, v.in_word) in
      let s : sub64 p.allocated 1 ≡ p.allocated - 1 =
        omega (arith, f, v.counted, v.balanced, v.in_word) in
      (
        record {
          in_word = v.in_word;
          storage = length-set p.slots i none ∙ v.storage;
          vacancies = λ j. ground (arith, v.vacancies j, vacant-set p.slots i j (some a) none e, m);
          counted = omega (arith, s, f, v.counted);
          balanced = omega (arith, s, f, v.counted, v.balanced);
        },
        refl,
      )

  -- A new pool of at most 2^32 slots is valid.
  pub new_pool-PoolValid : (n : ℕ) → n ≤ u32_mod → PoolValid (new_pool {A = A} n)
  unfolding new_pool
  new_pool-PoolValid n h = record {
    in_word = h;
    storage = length-raw_slots A n;
    vacancies = λ i. listed-push_free i n [] h ∙ omega (arith, vacant-raw_slots A n i);
    counted = sym (occupied-raw_slots A n);
    balanced = omega (arith, length-push_free n []);
  }
