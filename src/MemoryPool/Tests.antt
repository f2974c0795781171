-- ===== src/MemoryPool/Tests.antt =====
-- The pool at concrete inputs: two slots, one of them taken.
use astra_exchange.Base.{ℕ, zero, suc, ◌≡◌, refl, none, some, [], ◌∷◌, arith, get_elem?, set}
use astra_exchange.MemoryPool.Defs.{MemoryPool, new_pool, dealloc}
use astra_exchange.MemoryPool.Valid.{
  PoolValid, Allocates, listed, vacant, new_pool-PoolValid, alloc-Allocates, dealloc-PoolValid,
}

pool : MemoryPool ℕ
pool = new_pool 2

pool-PoolValid : PoolValid pool
unfolding pool
pool-PoolValid = new_pool-PoolValid 2 (omega arith)

alloc-Allocates_example : Allocates 7 pool
alloc-Allocates_example = alloc-Allocates 7 pool pool-PoolValid

taken : MemoryPool ℕ
taken = record { capacity = 2; allocated = 1; slots = some 7 ∷ none ∷ []; freelist = 1 ∷ [] }

taken-vacancies : (i : ℕ) → listed i (1 ∷ []) ≡ vacant {A = ℕ} (get_elem? (some 7 ∷ none ∷ []) i)
taken-vacancies zero = refl
taken-vacancies (suc zero) = refl
taken-vacancies (suc (suc i)) = ground arith

taken-PoolValid : PoolValid taken
unfolding taken
taken-PoolValid = record {
  in_word = omega arith;
  storage = refl;
  vacancies = taken-vacancies;
  counted = refl;
  balanced = refl;
}

dealloc-PoolValid_example :
    PoolValid (dealloc (some 0) taken) × ((dealloc (some 0) taken).slots ≡ set taken.slots 0 none)
unfolding taken
dealloc-PoolValid_example = dealloc-PoolValid 0 7 taken taken-PoolValid refl
