-- ===== src/Spsc/Shape.antt =====
-- The indices of a ring of `n` items, and how they go on.
use Prim.Native.Nat.{bit_and}
use native.Mathlib.Nat.{mod-eq_of_lt, mod-add-mod, mod-lt}
use astra_exchange.Base.{
  ℕ, suc, ◌+◌, ◌-◌, ◌%◌, ◌^◌, ◌<◌, ◌≡◌, ◌≢◌, ap, ◌∙◌, sym, Option, arith, length, set, length-set,
  add64, u64_mod, dec_lt,
}
use astra_exchange.Spsc.Mask.{bit_and-mask}
use astra_exchange.Spsc.Slots.{shift, full_round, round_ne}
use astra_exchange.Spsc.Defs.{SpscRingBuffer}

-- The ring has `n` items between its head and its tail.
pub record Shape {ℓ} {A : Type ℓ} (r : SpscRingBuffer A) (n : ℕ) : Type ℓ where
  pub bits : ℕ
  pub is_power : r.capacity ≡ 2 ^ bits
  pub mask_eq : r.mask ≡ r.capacity - 1
  pub in_word : r.capacity < u64_mod
  pub wide : 1 < r.capacity
  pub storage : length r.slots ≡ r.capacity
  pub head_in : r.head < r.capacity
  pub fits : n < r.capacity
  pub tail_eq : r.tail ≡ (r.head + n) % r.capacity

module _ {ℓ} {A : Type ℓ} (r : SpscRingBuffer A) (n : ℕ) (m : Shape r n) where
  -- The next index, as the mask computes it.
  pub wrap : (k : ℕ) → k < r.capacity → bit_and (add64 k 1) r.mask ≡ (k + 1) % r.capacity
  wrap k h =
      let e : add64 k 1 ≡ k + 1 = omega (arith, m.in_word) in
      rw (e, m.mask_eq, m.is_power) (bit_and-mask m.bits (k + 1))

  -- The index that a pop goes on to.
  pub next-head : bit_and (add64 r.head 1) r.mask ≡ (r.head + 1) % r.capacity
  next-head = wrap r.head m.head_in

  -- The index that a push goes on to.
  pub next-tail : bit_and (add64 r.tail 1) r.mask ≡ (r.head + suc n) % r.capacity
  next-tail =
      let z : 0 < r.capacity = omega (arith, m.head_in) in
      let t : r.tail < r.capacity = rw m.tail_eq (mod-lt (r.head + n) z) in
      wrap r.tail t
      ∙ ap (λ k. (k + 1) % r.capacity) m.tail_eq
      ∙ mod-add-mod (r.head + n) r.capacity 1
      ∙ ap (λ k. k % r.capacity) (omega arith)

  -- The next tail meets the head just where one slot is left.
  pub full_lem : bit_and (add64 r.tail 1) r.mask ≡ r.head → suc n ≡ r.capacity
  full_lem e = elim (dec_lt (suc n) r.capacity) [
    | yes l ↦ absurd (round_ne r.capacity r.head n m.head_in l (sym next-tail ∙ e))
    | no k ↦ omega (arith, k, m.fits)
  ]

  pub room_lem : bit_and (add64 r.tail 1) r.mask ≢ r.head → suc n < r.capacity
  room_lem d = elim (dec_lt (suc n) r.capacity) [
    | yes l ↦ l
    | no k ↦
        let e : suc n ≡ r.capacity = omega (arith, k, m.fits) in
        absurd (d (next-tail ∙ full_round r.capacity r.head n m.head_in e))
  ]

  -- The head meets the tail just where there is no item.
  pub empty_lem : n ≡ 0 → r.head ≡ r.tail
  empty_lem e =
      sym (m.tail_eq ∙ ap (λ k. k % r.capacity) (omega (arith, e)) ∙ mod-eq_of_lt m.head_in)

  pub nonempty_lem : 0 < n → r.head ≢ r.tail
  nonempty_lem z e =
      round_ne r.capacity r.head (n - 1) m.head_in (omega (arith, z, m.fits))
        (ap (λ k. (r.head + k) % r.capacity) (omega (arith, z)) ∙ sym m.tail_eq ∙ sym e)

  -- The slots alone are written.
  pub write-Shape : (i : ℕ) (o : Option A) → Shape (record r { slots = set r.slots i o }) n
  write-Shape i o = record {
    bits = m.bits;
    is_power = m.is_power;
    mask_eq = m.mask_eq;
    in_word = m.in_word;
    wide = m.wide;
    storage = length-set r.slots i o ∙ m.storage;
    head_in = m.head_in;
    fits = m.fits;
    tail_eq = m.tail_eq;
  }

  -- The tail goes on.
  pub publish-Shape :
      suc n < r.capacity → Shape (record r { tail = bit_and (add64 r.tail 1) r.mask }) (suc n)
  publish-Shape l = record {
    bits = m.bits;
    is_power = m.is_power;
    mask_eq = m.mask_eq;
    in_word = m.in_word;
    wide = m.wide;
    storage = m.storage;
    head_in = m.head_in;
    fits = l;
    tail_eq = next-tail;
  }

-- The head goes on.
pub release-Shape {ℓ} :
    {A : Type ℓ} (r : SpscRingBuffer A) (n : ℕ)
    → Shape r (suc n)
    → Shape (record r { head = bit_and (add64 r.head 1) r.mask }) n
release-Shape r n m =
    let z : 0 < r.capacity = omega (arith, m.head_in) in
    let e = next-head r (suc n) m in
    record {
      bits = m.bits;
      is_power = m.is_power;
      mask_eq = m.mask_eq;
      in_word = m.in_word;
      wide = m.wide;
      storage = m.storage;
      head_in = rw e (mod-lt (r.head + 1) z);
      fits = omega (arith, m.fits);
      tail_eq = rw e (m.tail_eq ∙ sym (shift r.capacity r.head n));
    }
