-- ===== src/Spsc/Threads/Progress.antt =====
-- The threads never block each other: until all items are returned, some thread goes on.
use mathlib.Core.List.{append-nil}
use astra_exchange.Base.{
  ℕ, ◌+◌, ◌-◌, ◌*◌, ◌<◌, ◌≡◌, refl, ap, ◌∙◌, sym, ◌⊎◌, inl, inr, List, [], ◌∷◌, ◌++◌, arith, length,
  length-append,
}
use astra_exchange.Spsc.Defs.{SpscRingBuffer}
use astra_exchange.Spsc.Shape.{full_lem, nonempty_lem}
use astra_exchange.Spsc.Threads.Defs.{
  Producer, waiting, cleared, placed, Consumer, polling, found, taken, Threads, threads, clear,
  place, publish, find, take, release, Step, produces, consumes,
}
use astra_exchange.Spsc.Threads.Inv.{Inv, taken_of, flying, found-object}

module _ {ℓ} {A : Type ℓ} where
  abbrev pub producer_left : Producer A → ℕ
  producer_left waiting = 0
  producer_left (cleared y) = 2
  producer_left (placed y) = 1

  abbrev pub consumer_left : Consumer A → ℕ
  consumer_left polling = 2
  consumer_left found = 1
  consumer_left (taken x) = 0

  -- The steps that `n` items still take, where none is refused and none misses.
  abbrev pub left : ℕ → Threads A → ℕ
  left n s =
      4 * (n - length s.got)
      + 3 * length s.todo
      + producer_left s.producer
      + consumer_left s.consumer

  -- A step that brings the end nearer.
  abbrev pub Advances : ℕ → Threads A → Type ℓ
  Advances n s = (t : Threads A) × Step s t × (left n t < left n s)

  got-lt :
      (all : List A) (s : Threads A) (x : A) (i : Inv all s)
      → taken_of s.consumer ≡ x ∷ []
      → length s.got < length all
  got-lt all s x i e = omega (
    arith,
    ap length i.order,
    length-append s.got (taken_of s.consumer ++ (i.body ++ (flying s.producer ++ s.todo))),
    length-append (taken_of s.consumer) (i.body ++ (flying s.producer ++ s.todo)),
    ap length e,
  )

  -- A producer in front of a ring without items can go on, unless it has nothing to push.
  produce :
      (all : List A) (r : SpscRingBuffer A) (p : Producer A) (todo got : List A)
      (i : Inv all (threads r p polling todo got))
      → i.body ≡ []
      → Advances (length all) (threads r p polling todo got) ⊎ (got ≡ all)
  produce all r waiting [] got i e =
      inr (sym (append-nil got) ∙ ap (λ l. got ++ (l ++ [])) (sym e) ∙ i.order)
  produce all r waiting (y ∷ todo) got i e = inl (
    threads r (cleared y) polling todo got,
    produces (
        clear r polling y todo got (λ f.
          absurd (omega (arith, full_lem r (length i.body) i.shape f, ap length e, i.shape.wide)))),
    omega arith,
  )
  produce all r (cleared y) todo got i e =
      inl (_, produces (place r polling y todo got), omega arith)
  produce all r (placed y) todo got i e =
      inl (_, produces (publish r polling y todo got), omega arith)

  poll :
      (all : List A) (r : SpscRingBuffer A) (p : Producer A) (todo got : List A)
      (i : Inv all (threads r p polling todo got)) (body : List A)
      → i.body ≡ body
      → Advances (length all) (threads r p polling todo got) ⊎ (got ≡ all)
  poll all r p todo got i [] e = produce all r p todo got i e
  poll all r p todo got i (x ∷ body) e =
      let d = nonempty_lem r (length i.body) i.shape (omega (arith, ap length e)) in
      inl (_, consumes (find r p todo got d), omega arith)

  consume :
      (all : List A) (r : SpscRingBuffer A) (p : Producer A) (c : Consumer A) (todo got : List A)
      → Inv all (threads r p c todo got)
      → Advances (length all) (threads r p c todo got) ⊎ (got ≡ all)
  consume all r p polling todo got i = poll all r p todo got i i.body refl
  consume all r p found todo got i =
      let (x, e) = found-object all r p todo got i in
      inl (_, consumes (take r p x todo got e), omega arith)
  consume all r p (taken x) todo got i =
      let l = got-lt all (threads r p (taken x) todo got) x i refl in
      inl (_, consumes (release r p x todo got), omega (arith, l, length-append got (x ∷ [])))

  -- Until every item is returned, some step brings the end nearer.
  pub advance : (all : List A) (s : Threads A) → Inv all s → Advances (length all) s ⊎ (s.got ≡ all)
  advance all s i = consume all s.ring s.producer s.consumer s.todo s.got i
