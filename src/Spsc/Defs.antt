-- ===== src/Spsc/Defs.antt =====
-- The ring buffer's state and operations. An item of `slots` is `none` where no object lives in the
-- raw storage. Each operation runs here as a whole, as it does while the other thread waits.
use Prim.Native.Nat.{bit_and}
use astra_exchange.Base.{
  ℕ, ◌+◌, ◌*◌, ◌%◌, Bool, true, false, Option, none, some, List, get_elem?, set, ltb, ◌==◌,
  raw_slots, add64, sub64, u64_mod, if◌then◌else◌,
}
use astra_exchange.Base.Loop.{while}

pub record SpscRingBuffer {ℓ} (A : Type ℓ) : Type ℓ where
  pub capacity : ℕ
  pub mask : ℕ
  pub slots : List (Option A)
  pub head : ℕ
  pub tail : ℕ

-- `while (p < n) p <<= 1;` in 64 bits. Each round adds at least one to `p`, so `n + 1` rounds are
-- enough where the shift does not wrap.
unfoldable pub next_pow2 : ℕ → ℕ
unfolding while
next_pow2 n = if ltb n 2 then 2 else while (λ p. ltb p n) (λ p. p * 2 % u64_mod) (n + 1) 1

module _ {ℓ} {A : Type ℓ} where
  unfoldable pub new_ring : ℕ → SpscRingBuffer A
  new_ring wanted =
      let capacity = next_pow2 wanted in
      record {
        capacity = capacity;
        mask = sub64 capacity 1;
        slots = raw_slots capacity;
        head = 0;
        tail = 0;
      }

  unfoldable pub push : A → SpscRingBuffer A → Bool × SpscRingBuffer A
  push item r =
      let next = bit_and (add64 r.tail 1) r.mask in
      if next == r.head
      then (false, r)
      else (true, record r { slots = set r.slots r.tail (some item); tail = next })

  abbrev pub live : Option (Option A) → Option A
  live none = none
  live (some o) = o

  -- The program reads the object at `head` unseen; a ring that is valid has one there.
  unfoldable pub pop : SpscRingBuffer A → Option A × SpscRingBuffer A
  pop r = if r.head == r.tail then (none, r) else (
    live (get_elem? r.slots r.head),
    record r { slots = set r.slots r.head none; head = bit_and (add64 r.head 1) r.mask },
  )

  unfoldable pub empty : SpscRingBuffer A → Bool
  empty r = r.head == r.tail

  unfoldable pub approx_size : SpscRingBuffer A → ℕ
  approx_size r = bit_and (add64 (sub64 r.tail r.head) r.capacity) r.mask
