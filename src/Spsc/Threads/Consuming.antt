-- ===== src/Spsc/Threads/Consuming.antt =====
-- Every step of the thread that pops keeps what holds between the steps.
use native.Mathlib.Nat.{mod-lt}
use mathlib.Core.Path.{subst}
use mathlib.Core.List.{append_assoc}
use astra_exchange.Base.{
  ℕ, suc, ◌+◌, ◌%◌, ◌<◌, dec_lt, ◌≡◌, ◌≢◌, refl, ap, ◌∙◌, sym, none, some, List, [], ◌∷◌, ◌++◌,
  arith, length, length-append, get_elem?, set,
}
use astra_exchange.Spsc.Defs.{SpscRingBuffer, live}
use astra_exchange.Spsc.Slots.{Holds, Holds-away, round_ne, shift}
use astra_exchange.Spsc.Shape.{Shape, next-head, empty_lem, write-Shape, release-Shape}
use astra_exchange.Spsc.Threads.Defs.{
  Producer, polling, found, taken, Threads, threads, Consumes, miss, find, take, release, next_head,
}
use astra_exchange.Spsc.Threads.Inv.{flying, placed_of, Room, Inv, placed-lt, Room-less}

module _ {ℓ} {A : Type ℓ} where
  find-Inv :
      (all : List A) (r : SpscRingBuffer A) (p : Producer A) (todo got : List A)
      → r.head ≢ r.tail
      → Inv all (threads r p polling todo got)
      → Inv all (threads r p found todo got)
  find-Inv all r p todo got d i = record {
    body = i.body;
    shape = i.shape;
    held = i.held;
    order = i.order;
    room = i.room;
    ready = elim (dec_lt 0 (length i.body)) [
      | yes z ↦ z
      | no k ↦ absurd (d (empty_lem r (length i.body) i.shape (omega (arith, k))))
    ];
  }

  take-held :
      (r : SpscRingBuffer A) (p : Producer A) (n : ℕ) (xs : List A)
      → Shape r (suc n)
      → suc n + length (placed_of p) < r.capacity
      → length xs ≡ n + length (placed_of p)
      → Holds r.slots r.capacity ((r.head + 1) % r.capacity) xs
      → Holds (set r.slots r.head none) r.capacity ((r.head + 1) % r.capacity) xs
  take-held r p n xs m l e h =
      Holds-away r.slots r.capacity ((r.head + 1) % r.capacity) r.head none xs
        (mod-lt (r.head + 1) (omega (arith, m.head_in)))
        (λ i q.
          rw (shift r.capacity r.head i)
            (round_ne r.capacity r.head i m.head_in (omega (arith, q, l, e))))
        h

  take-Inv :
      (all : List A) (r : SpscRingBuffer A) (p : Producer A) (x : A) (todo got body : List A)
      → live (get_elem? r.slots r.head) ≡ some x
      → (i : Inv all (threads r p found todo got)) → i.body ≡ body
      → Inv all (threads (record r { slots = set r.slots r.head none }) p (taken x) todo got)
  take-Inv all r p x todo got [] e i b = absurd (omega (arith, i.ready, ap length b))
  take-Inv all r p x todo got (z ∷ rest) e i b =
      let n : ℕ = length rest in
      let m : Shape r (suc n) = subst (λ l. Shape r (length l)) b i.shape in
      let w : Room p (suc n) r.capacity = subst (λ l. Room p (length l) r.capacity) b i.room in
      let h : Holds r.slots r.capacity r.head (z ∷ rest ++ placed_of p) =
        subst (λ l. Holds r.slots r.capacity r.head (l ++ placed_of p)) b i.held in
      let k : some z ≡ some x = sym (ap live h.0) ∙ e in
      let q : z ≡ x = cc in
      record {
        body = rest;
        shape = write-Shape r (suc n) m r.head none;
        held =
            take-held r p n (rest ++ placed_of p) m (placed-lt p (suc n) r.capacity m.fits w)
              (length-append rest (placed_of p)) h.1;
        order =
            ap (λ a. got ++ (a ∷ rest ++ (flying p ++ todo))) (sym q)
            ∙ ap (λ l. got ++ (l ++ (flying p ++ todo))) (sym b)
            ∙ i.order;
        room = w;
        ready = tt;
      }

  release-Inv :
      (all : List A) (r : SpscRingBuffer A) (p : Producer A) (x : A) (todo got : List A)
      → Inv all (threads r p (taken x) todo got)
      → Inv all (threads (record r { head = next_head r }) p polling todo (got ++ x ∷ []))
  release-Inv all r p x todo got i =
      let n = length i.body in
      record {
        body = i.body;
        shape = release-Shape r n i.shape;
        held =
            subst (λ h. Holds r.slots r.capacity h (i.body ++ placed_of p))
              (sym (next-head r (suc n) i.shape)) i.held;
        order = append_assoc got (x ∷ []) (i.body ++ (flying p ++ todo)) ∙ i.order;
        room = Room-less p n r.capacity i.room;
        ready = tt;
      }

  pub Consumes-Inv : {s t : Threads A} (all : List A) → Consumes s t → Inv all s → Inv all t
  Consumes-Inv all (miss r p todo got e) i = i
  Consumes-Inv all (find r p todo got d) i = find-Inv all r p todo got d i
  Consumes-Inv all (take r p x todo got e) i = take-Inv all r p x todo got i.body e i refl
  Consumes-Inv all (release r p x todo got) i = release-Inv all r p x todo got i
