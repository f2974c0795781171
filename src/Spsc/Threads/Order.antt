-- ===== src/Spsc/Threads/Order.antt =====
-- The order of the items, in whatever order the steps of the two threads come.
use mathlib.Core.Path.{subst}
use astra_exchange.Base.{◌≡◌, some, List, [], ◌++◌, get_elem?}
use astra_exchange.Spsc.Defs.{SpscRingBuffer, live}
use astra_exchange.Spsc.Fifo.{Models}
use astra_exchange.Spsc.Threads.Defs.{
  found, Threads, threads, Step, produces, consumes, Reach, here, next, started,
}
use astra_exchange.Spsc.Threads.Inv.{taken_of, flying, Inv, started-Inv, found-object}
use astra_exchange.Spsc.Threads.Producing.{Produces-Inv}
use astra_exchange.Spsc.Threads.Consuming.{Consumes-Inv}

module _ {ℓ} {A : Type ℓ} where
  Step-Inv : {s t : Threads A} (all : List A) → Step s t → Inv all s → Inv all t
  Step-Inv all (produces m) i = Produces-Inv all m i
  Step-Inv all (consumes m) i = Consumes-Inv all m i

  Reach-Inv : {s t : Threads A} (all : List A) → Inv all s → Reach s t → Inv all t
  Reach-Inv all i here = i
  Reach-Inv all i (next r m) = Step-Inv all m (Reach-Inv all i r)

  -- In whatever order the steps of the threads come, what `pop` has returned is what was pushed, in its
  -- order, without loss or repetition, and `pop` reads no slot without an object; the ring is one that
  -- models no item at the start.
  pub Reach-fifo :
      (r : SpscRingBuffer A) (items : List A) (t : Threads A)
      → Models r []
      → Reach (started r items) t
      → ((rest : List A) × (t.got ++ rest ≡ items))
        × (t.consumer ≡ found → (x : A) × (live (get_elem? t.ring.slots t.ring.head) ≡ some x))
  Reach-fifo r items t m h =
      let i = Reach-Inv items (started-Inv r items m) h in
      (
        (taken_of t.consumer ++ (i.body ++ (flying t.producer ++ t.todo)), i.order),
        λ e.
            found-object items t.ring t.producer t.todo t.got
              (subst (λ c. Inv items (threads t.ring t.producer c t.todo t.got)) e i),
      )
