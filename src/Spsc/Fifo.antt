-- ===== src/Spsc/Fifo.antt =====
-- The ring buffer as a queue of at most `capacity - 1` items: one slot stays free.
use Prim.Native.Nat.{bit_and}
use native.Mathlib.Nat.{mod-lt}
use astra_exchange.Base.{
  suc, ◌+◌, ◌%◌, ◌<◌, ◌≡◌, refl, ap, sym, ◌⊎◌, inl, inr, true, false, none, some, List, [], ◌∷◌,
  ◌++◌, arith, length, length-append, set, ◌==◌, ==_iff, add64, Bool-cases,
}
use mathlib.Core.Path.{subst}
use astra_exchange.Spsc.Slots.{Holds, Holds-away, Holds-snoc, differ-ne, ne-differ, round_ne, shift}
use astra_exchange.Spsc.Shape.{
  Shape, next-head, full_lem, room_lem, empty_lem, nonempty_lem, write-Shape, publish-Shape,
  release-Shape,
}
use astra_exchange.Spsc.Defs.{SpscRingBuffer, push, pop, live}

module _ {ℓ} {A : Type ℓ} where
  pub record Models (r : SpscRingBuffer A) (xs : List A) : Type ℓ where
    pub shape : Shape r (length xs)
    pub held : Holds r.slots r.capacity r.head xs

  -- Pushing onto a ring that models `xs` is refused, and changes nothing, just where `xs` has
  -- `capacity - 1` items; otherwise it succeeds and the ring models `xs` with the item at its end.
  pub push-Models :
      (item : A) (r : SpscRingBuffer A) (xs : List A)
      → Models r xs
      → ((length xs + 1 ≡ r.capacity) × (push item r ≡ (false, r)))
        ⊎ ((length xs + 1 < r.capacity)
            × ((push item r).0 ≡ true)
            × Models (push item r).1 (xs ++ item ∷ []))
  unfolding push
  push-Models item r xs m =
      let n = length xs in
      elim (Bool-cases (bit_and (add64 r.tail 1) r.mask == r.head)) [
        | inl y ↦
            let e = full_lem r n m.shape ((==_iff (bit_and (add64 r.tail 1) r.mask) r.head).0 y) in
            rw y (inl (omega (arith, e), refl))
        | inr d ↦
            let l = room_lem r n m.shape (differ-ne d) in
            let w = write-Shape r n m.shape r.tail (some item) in
            let e : suc n ≡ length (xs ++ item ∷ []) =
              omega (arith, length-append xs (item ∷ [])) in
            let r' : SpscRingBuffer A = record r { slots = set r.slots r.tail (some item) } in
            rw d (
              inr (
                omega (arith, l),
                refl,
                record {
                  shape =
                      subst (λ k. Shape (record r' { tail = bit_and (add64 r.tail 1) r.mask }) k) e
                        (publish-Shape r' n w l);
                  held =
                      subst
                        (λ j. Holds (set r.slots j (some item)) r.capacity r.head (xs ++ item ∷ []))
                        (sym m.shape.tail_eq)
                        (Holds-snoc r.slots r.capacity r.head item xs m.shape.storage
                          m.shape.head_in m.shape.fits m.held);
                },
              ))
      ]

  -- What a pop does to a ring that models these items.
  abbrev pub Popped : SpscRingBuffer A → List A → Type ℓ
  Popped r [] = pop r ≡ (none, r)
  Popped r (x ∷ xs) = ((pop r).0 ≡ some x) × Models (pop r).1 xs

  -- Popping a ring that models no item gives none and changes nothing; popping one that models
  -- `x ∷ ys` gives `x` and leaves a ring that models `ys`.
  pub pop-Models : (r : SpscRingBuffer A) (xs : List A) → Models r xs → Popped r xs
  unfolding pop
  pop-Models r [] m = rw ((==_iff r.head r.tail).1 (empty_lem r 0 m.shape refl)) refl
  pop-Models r (x ∷ xs) m =
      let z : 0 < r.capacity = omega (arith, m.shape.head_in) in
      let d = nonempty_lem r (suc (length xs)) m.shape (omega arith) in
      let r' : SpscRingBuffer A = record r { slots = set r.slots r.head none } in
      rw (ne-differ d) (
        ap live m.held.0,
        record {
          shape =
              release-Shape r' (length xs) (write-Shape r (suc (length xs)) m.shape r.head none);
          held = rw (next-head r (suc (length xs)) m.shape) (
              Holds-away r.slots r.capacity ((r.head + 1) % r.capacity) r.head none xs
                (mod-lt (r.head + 1) z)
                (λ i q.
                  rw (shift r.capacity r.head i)
                    (round_ne r.capacity r.head i m.shape.head_in (omega (arith, q, m.shape.fits))))
                m.held.1);
        },
      )
