-- ===== src/Spsc/Tests.antt =====
-- The ring at concrete inputs: four slots, and one item in them.
use astra_exchange.Base.{ℕ, ◌+◌, ◌<◌, ◌≡◌, ◌⊎◌, refl, true, false, [], ◌∷◌, ◌++◌, arith, length}
use astra_exchange.Base.Loop.{while}
use astra_exchange.Spsc.Defs.{SpscRingBuffer, next_pow2, new_ring, push}
use astra_exchange.Spsc.New.{new_ring-Models}
use astra_exchange.Spsc.Fifo.{Models, push-Models}

ring : SpscRingBuffer ℕ
unfolding new_ring next_pow2 while
ring = new_ring 3

ring-Models : Models ring []
unfolding ring
ring-Models = (new_ring-Models 3 (omega arith)).0

push-Models_example :
    ((length {A = ℕ} [] + 1 ≡ ring.capacity) × (push 7 ring ≡ (false, ring)))
    ⊎ ((length {A = ℕ} [] + 1 < ring.capacity)
        × ((push 7 ring).0 ≡ true)
        × Models (push 7 ring).1 ([] ++ 7 ∷ []))
push-Models_example = push-Models 7 ring [] ring-Models

filled : SpscRingBuffer ℕ
unfolding push ring
filled = (push 7 ring).1

filled-Models : Models filled (7 ∷ [])
unfolding filled
filled-Models = record {
  shape = record {
    bits = 2;
    is_power = refl;
    mask_eq = refl;
    in_word = omega arith;
    wide = omega arith;
    storage = refl;
    head_in = omega arith;
    fits = omega arith;
    tail_eq = refl;
  };
  held = (refl, tt);
}
