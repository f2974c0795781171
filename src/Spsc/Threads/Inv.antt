-- ===== src/Spsc/Threads/Inv.antt =====
-- What holds between the steps of the two threads.
use native.Mathlib.Nat.{mod-lt}
use astra_exchange.Base.{
  ℕ, suc, ◌+◌, ◌%◌, ◌<◌, ◌≤◌, ◌≡◌, refl, ap, ◌∙◌, sym, some, List, [], ◌∷◌, ◌++◌, arith, length,
  get_elem?,
}
use astra_exchange.Spsc.Defs.{SpscRingBuffer, live}
use astra_exchange.Spsc.Slots.{Holds, shift}
use astra_exchange.Spsc.Shape.{Shape}
use astra_exchange.Spsc.Fifo.{Models}
use astra_exchange.Spsc.Threads.Defs.{
  Producer, waiting, cleared, placed, Consumer, polling, found, taken, Threads, threads, started,
}

module _ {ℓ} {A : Type ℓ} where
  -- The item that a thread has in hand.
  abbrev pub taken_of : Consumer A → List A
  taken_of polling = []
  taken_of found = []
  taken_of (taken x) = x ∷ []

  abbrev pub flying : Producer A → List A
  flying waiting = []
  flying (cleared y) = y ∷ []
  flying (placed y) = y ∷ []

  abbrev pub placed_of : Producer A → List A
  placed_of waiting = []
  placed_of (cleared y) = []
  placed_of (placed y) = y ∷ []

  -- How many items stand between the indices, of which `n` are in their slots.
  abbrev pub queued : Consumer A → ℕ → ℕ
  queued polling n = n
  queued found n = n
  queued (taken x) n = suc n

  -- The first slot with an item.
  abbrev pub start_of : Consumer A → ℕ → ℕ → ℕ
  start_of polling cap h = h
  start_of found cap h = h
  start_of (taken x) cap h = (h + 1) % cap

  abbrev pub Room : Producer A → ℕ → ℕ → Type 0
  Room waiting n cap = Unit {0}
  Room (cleared y) n cap = suc n < cap
  Room (placed y) n cap = suc n < cap

  abbrev pub Found : Consumer A → ℕ → Type 0
  Found polling n = Unit {0}
  Found found n = 0 < n
  Found (taken x) n = Unit {0}

  -- `body` are the items that are published and not yet taken; every item is in one place, in order.
  pub record Inv (all : List A) (s : Threads A) : Type ℓ where
    pub body : List A
    pub shape : Shape s.ring (queued s.consumer (length body))
    pub held :
        Holds s.ring.slots s.ring.capacity
          (start_of s.consumer s.ring.capacity s.ring.head)
          (body ++ placed_of s.producer)
    pub order : s.got ++ (taken_of s.consumer ++ (body ++ (flying s.producer ++ s.todo))) ≡ all
    pub room : Room s.producer (queued s.consumer (length body)) s.ring.capacity
    pub ready : Found s.consumer (length body)

  pub started-Inv :
      (r : SpscRingBuffer A) (items : List A) → Models r [] → Inv items (started r items)
  started-Inv r items m = record {
    body = [];
    shape = m.shape;
    held = tt;
    order = refl;
    room = tt;
    ready = tt;
  }

  -- The slot at the tail comes after the items.
  pub tail-start :
      (r : SpscRingBuffer A) (c : Consumer A) (n : ℕ)
      → Shape r (queued c n)
      → (start_of c r.capacity r.head + n) % r.capacity ≡ r.tail
  tail-start r polling n m = sym m.tail_eq
  tail-start r found n m = sym m.tail_eq
  tail-start r (taken x) n m = shift r.capacity r.head n ∙ sym m.tail_eq

  pub start_of-lt :
      (r : SpscRingBuffer A) (c : Consumer A) (n : ℕ)
      → Shape r n
      → start_of c r.capacity r.head < r.capacity
  start_of-lt r polling n m = m.head_in
  start_of-lt r found n m = m.head_in
  start_of-lt r (taken x) n m = mod-lt (r.head + 1) (omega (arith, m.head_in))

  pub queued-le : (c : Consumer A) (n : ℕ) → n ≤ queued c n
  queued-le polling n = omega arith
  queued-le found n = omega arith
  queued-le (taken x) n = omega arith

  pub queued-suc : (c : Consumer A) (n : ℕ) → queued c (suc n) ≡ suc (queued c n)
  queued-suc polling n = refl
  queued-suc found n = refl
  queued-suc (taken x) n = refl

  pub Found-suc : (c : Consumer A) (n : ℕ) → Found c (suc n)
  Found-suc polling n = tt
  Found-suc found n = omega arith
  Found-suc (taken x) n = tt

  pub placed-lt :
      (p : Producer A) (n cap : ℕ) → n < cap → Room p n cap → n + length (placed_of p) < cap
  placed-lt waiting n cap f h = omega (arith, f)
  placed-lt (cleared y) n cap f h = omega (arith, f)
  placed-lt (placed y) n cap f h = omega (arith, h)

  pub Room-less : (p : Producer A) (n cap : ℕ) → Room p (suc n) cap → Room p n cap
  Room-less waiting n cap h = tt
  Room-less (cleared y) n cap h = omega (arith, h)
  Room-less (placed y) n cap h = omega (arith, h)

  -- In the slot that a consumer past its test reads there is an object.
  pub found-object :
      (all : List A) (r : SpscRingBuffer A) (p : Producer A) (todo got : List A)
      → Inv all (threads r p found todo got)
      → (x : A) × (live (get_elem? r.slots r.head) ≡ some x)
  found-object all r p todo got i = at i.body (placed_of p) i.ready i.held
    where
      at :
          (body more : List A)
          → 0 < length body
          → Holds r.slots r.capacity r.head (body ++ more)
          → (x : A) × (live (get_elem? r.slots r.head) ≡ some x)
      at [] more z h = absurd (omega (arith, z))
      at (x ∷ body) more z h = (x, ap live h.0)
