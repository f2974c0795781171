-- ===== src/Spsc/Threads/Producing.antt =====
-- Every step of the thread that pushes keeps what holds between the steps.
use mathlib.Core.Path.{subst}
use mathlib.Core.List.{append_assoc, append-nil}
use astra_exchange.Base.{
  suc, ◌≡◌, ◌≢◌, ap, ◌∙◌, sym, some, List, [], ◌∷◌, ◌++◌, arith, length, length-append, set,
}
use astra_exchange.Spsc.Defs.{SpscRingBuffer}
use astra_exchange.Spsc.Slots.{Holds, Holds-snoc}
use astra_exchange.Spsc.Shape.{Shape, room_lem, write-Shape, publish-Shape}
use astra_exchange.Spsc.Threads.Defs.{
  waiting, cleared, placed, Consumer, Threads, threads, Produces, refuse, clear, place, publish,
  next_tail,
}
use astra_exchange.Spsc.Threads.Inv.{
  taken_of, queued, start_of, Found, Inv, tail-start, start_of-lt, queued-le, queued-suc, Found-suc,
}

module _ {ℓ} {A : Type ℓ} where
  clear-Inv :
      (all : List A) (r : SpscRingBuffer A) (c : Consumer A) (y : A) (todo got : List A)
      → next_tail r ≢ r.head
      → Inv all (threads r waiting c (y ∷ todo) got)
      → Inv all (threads r (cleared y) c todo got)
  clear-Inv all r c y todo got d i = record {
    body = i.body;
    shape = i.shape;
    held = i.held;
    order = i.order;
    room = room_lem r (queued c (length i.body)) i.shape d;
    ready = i.ready;
  }

  place-Inv :
      (all : List A) (r : SpscRingBuffer A) (c : Consumer A) (y : A) (todo got : List A)
      → Inv all (threads r (cleared y) c todo got)
      → Inv all (threads (record r { slots = set r.slots r.tail (some y) }) (placed y) c todo got)
  place-Inv all r c y todo got i =
      let n = length i.body in
      let start = start_of c r.capacity r.head in
      let m : Shape r (queued c n) = i.shape in
      let h : Holds r.slots r.capacity start i.body =
        subst (λ l. Holds r.slots r.capacity start l) (append-nil i.body) i.held in
      record {
        body = i.body;
        shape = write-Shape r (queued c n) m r.tail (some y);
        held =
            subst (λ j. Holds (set r.slots j (some y)) r.capacity start (i.body ++ y ∷ []))
              (tail-start r c n m)
              (Holds-snoc r.slots r.capacity start y i.body m.storage
                (start_of-lt r c (queued c n) m) (omega (arith, queued-le c n, m.fits)) h);
        order = i.order;
        room = i.room;
        ready = i.ready;
      }

  publish-Inv :
      (all : List A) (r : SpscRingBuffer A) (c : Consumer A) (y : A) (todo got : List A)
      → Inv all (threads r (placed y) c todo got)
      → Inv all (threads (record r { tail = next_tail r }) waiting c todo got)
  publish-Inv all r c y todo got i =
      let n = length i.body in
      let e : suc n ≡ length (i.body ++ y ∷ []) = omega (arith, length-append i.body (y ∷ [])) in
      record {
        body = i.body ++ y ∷ [];
        shape =
            subst (λ k. Shape (record r { tail = next_tail r }) k)
              (sym (queued-suc c n) ∙ ap (queued c) e)
              (publish-Shape r (queued c n) i.shape i.room);
        held =
            subst (λ l. Holds r.slots r.capacity (start_of c r.capacity r.head) l)
              (sym (append-nil (i.body ++ y ∷ []))) i.held;
        order = ap (λ l. got ++ (taken_of c ++ l)) (append_assoc i.body (y ∷ []) todo) ∙ i.order;
        room = tt;
        ready = subst (λ k. Found c k) e (Found-suc c n);
      }

  pub Produces-Inv : {s t : Threads A} (all : List A) → Produces s t → Inv all s → Inv all t
  Produces-Inv all (refuse r c y todo got e) i = i
  Produces-Inv all (clear r c y todo got d) i = clear-Inv all r c y todo got d i
  Produces-Inv all (place r c y todo got) i = place-Inv all r c y todo got i
  Produces-Inv all (publish r c y todo got) i = publish-Inv all r c y todo got i
