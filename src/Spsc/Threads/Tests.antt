-- ===== src/Spsc/Threads/Tests.antt =====
-- Two threads on a ring of four slots: an item is pushed, and then the consumer is past its test.
use astra_exchange.Base.{ℕ, ◌≡◌, ◌≢◌, some, List, [], ◌∷◌, ◌++◌, arith, get_elem?}
use astra_exchange.Base.Loop.{while}
use astra_exchange.Spsc.Defs.{SpscRingBuffer, next_pow2, new_ring, live}
use astra_exchange.Spsc.Fifo.{Models}
use astra_exchange.Spsc.New.{new_ring-Models}
use astra_exchange.Spsc.Threads.Defs.{
  Threads, polling, found, clear, place, publish, find, Reach, here, next, produces, consumes,
  started, next_tail,
}
use astra_exchange.Spsc.Threads.Order.{Reach-fifo}

ring : SpscRingBuffer ℕ
unfolding new_ring next_pow2 while
ring = new_ring 3

ring-Models : Models ring []
unfolding ring
ring-Models = (new_ring-Models 3 (omega arith)).0

clear-now : next_tail ring ≢ ring.head
unfolding ring
clear-now e = absurd (omega (arith, e))

pushed : (t : Threads ℕ) × Reach (started ring (7 ∷ [])) t
unfolding ring
pushed = (
  _,
  next
      (next
        (next (next here (produces (clear ring polling 7 [] [] clear-now)))
          (produces (place _ polling 7 [] [])))
        (produces (publish _ polling 7 [] [])))
      (consumes (find _ _ [] [] (λ e. absurd (omega (arith, e))))),
)

Reach-fifo_example :
    ((rest : List ℕ) × (pushed.0.got ++ rest ≡ 7 ∷ []))
    × (pushed.0.consumer ≡ found
        → (x : ℕ) × (live (get_elem? pushed.0.ring.slots pushed.0.ring.head) ≡ some x))
Reach-fifo_example = Reach-fifo ring (7 ∷ []) pushed.0 ring-Models pushed.1
