-- ===== src/MemoryPool/Defs.antt =====
-- The pool's state and operations. A pointer into the pool is the index of its slot, `none` the null
-- pointer. A slot is `none` where no object lives. The free list stands with its back first.
use astra_exchange.Base.{
  ℕ, zero, suc, ◌%◌, ◌^◌, Bool, true, false, Option, none, some, List, [], ◌∷◌, length, set,
  raw_slots, add64, sub64,
}

pub record MemoryPool {ℓ} (A : Type ℓ) : Type ℓ where
  pub capacity : ℕ
  pub allocated : ℕ
  pub slots : List (Option A)
  pub freelist : List ℕ

abbrev pub u32_mod : ℕ
u32_mod = 2 ^ 32

-- `for (size_t i = capacity_; i-- > 0; ) freelist_.push_back(static_cast<uint32_t>(i));`
unfoldable pub push_free : ℕ → List ℕ → List ℕ
push_free zero free = free
push_free (suc i) free = push_free i (i % u32_mod ∷ free)

module _ {ℓ} {A : Type ℓ} where
  unfoldable pub new_pool : ℕ → MemoryPool A
  new_pool capacity = record {
    capacity = capacity;
    allocated = 0;
    slots = raw_slots capacity;
    freelist = push_free capacity [];
  }

  -- `none` is the exception `std::bad_alloc`.
  unfoldable pub alloc : A → MemoryPool A → Option (ℕ × MemoryPool A)
  alloc item p = elim p.freelist [
    | [] ↦ none
    | i ∷ free ↦ some (
      i,
      record p {
        slots = set p.slots i (some item);
        freelist = free;
        allocated = add64 p.allocated 1;
      },
    )
  ]

  unfoldable pub dealloc : Option ℕ → MemoryPool A → MemoryPool A
  dealloc none p = p
  dealloc (some i) p = record p {
    slots = set p.slots i none;
    freelist = i % u32_mod ∷ p.freelist;
    allocated = sub64 p.allocated 1;
  }

  abbrev pub available : MemoryPool A → ℕ
  available p = length p.freelist

  unfoldable pub full : MemoryPool A → Bool
  full p = elim p.freelist [ [] ↦ true | i ∷ free ↦ false ]
