-- ===== src/Spsc/Threads/Defs.antt =====
-- A producer that pushes a list of items, and a consumer that pops for ever. Each step makes at most one
-- access to what the threads share: the other's index, a slot, or the thread's own index. The steps of
-- the two interleave in any order, as the acquire and release operations order them.
use Prim.Native.Nat.{bit_and}
use astra_exchange.Base.{ℕ, ◌≡◌, ◌≢◌, none, some, List, [], ◌∷◌, ◌++◌, get_elem?, set, add64}
use astra_exchange.Spsc.Defs.{SpscRingBuffer, live}

module _ {ℓ} {A : Type ℓ} where
  -- `next` in `push`.
  abbrev pub next_tail : SpscRingBuffer A → ℕ
  next_tail r = bit_and (add64 r.tail 1) r.mask

  abbrev pub next_head : SpscRingBuffer A → ℕ
  next_head r = bit_and (add64 r.head 1) r.mask

-- Where a call of `push` stands: not begun, past its test with the item, past the placement of the item.
pub data Producer {ℓ} (A : Type ℓ) : Type ℓ where
  waiting : Producer A
  cleared : A → Producer A
  placed : A → Producer A

-- Where a call of `pop` stands: not begun, past its test, past the move of the item out of its slot.
pub data Consumer {ℓ} (A : Type ℓ) : Type ℓ where
  polling : Consumer A
  found : Consumer A
  taken : A → Consumer A

-- `todo` are the items still to be pushed, `got` those that `pop` has returned.
pub record Threads {ℓ} (A : Type ℓ) : Type ℓ where
  pub ring : SpscRingBuffer A
  pub producer : Producer A
  pub consumer : Consumer A
  pub todo : List A
  pub got : List A

abbrev pub threads {ℓ} :
    {A : Type ℓ} → SpscRingBuffer A → Producer A → Consumer A → List A → List A → Threads A
threads r p c todo got = record { ring = r; producer = p; consumer = c; todo = todo; got = got }

module _ {ℓ} {A : Type ℓ} where
  -- The steps of `push`.
  pub data Produces : Threads A → Threads A → Type ℓ where
    -- The ring is full: `push` returns false, and is called again.
    refuse :
        (r : SpscRingBuffer A) (c : Consumer A) (y : A) (todo got : List A)
        → next_tail r ≡ r.head
        → Produces (threads r waiting c (y ∷ todo) got) (threads r waiting c (y ∷ todo) got)
    clear :
        (r : SpscRingBuffer A) (c : Consumer A) (y : A) (todo got : List A)
        → next_tail r ≢ r.head
        → Produces (threads r waiting c (y ∷ todo) got) (threads r (cleared y) c todo got)
    place :
        (r : SpscRingBuffer A) (c : Consumer A) (y : A) (todo got : List A)
        → Produces
            (threads r (cleared y) c todo got)
            (threads (record r { slots = set r.slots r.tail (some y) }) (placed y) c todo got)
    publish :
        (r : SpscRingBuffer A) (c : Consumer A) (y : A) (todo got : List A)
        → Produces
            (threads r (placed y) c todo got)
            (threads (record r { tail = next_tail r }) waiting c todo got)

  -- The steps of `pop`. The one that takes the item wants an object in the slot, where the program reads
  -- whatever is there.
  pub data Consumes : Threads A → Threads A → Type ℓ where
    -- The ring is empty: `pop` returns nothing, and is called again.
    miss :
        (r : SpscRingBuffer A) (p : Producer A) (todo got : List A)
        → r.head ≡ r.tail
        → Consumes (threads r p polling todo got) (threads r p polling todo got)
    find :
        (r : SpscRingBuffer A) (p : Producer A) (todo got : List A)
        → r.head ≢ r.tail
        → Consumes (threads r p polling todo got) (threads r p found todo got)
    take :
        (r : SpscRingBuffer A) (p : Producer A) (x : A) (todo got : List A)
        → live (get_elem? r.slots r.head) ≡ some x
        → Consumes
            (threads r p found todo got)
            (threads (record r { slots = set r.slots r.head none }) p (taken x) todo got)
    release :
        (r : SpscRingBuffer A) (p : Producer A) (x : A) (todo got : List A)
        → Consumes
            (threads r p (taken x) todo got)
            (threads (record r { head = next_head r }) p polling todo (got ++ x ∷ []))

  pub data Step (s t : Threads A) : Type ℓ where
    produces : Produces s t → Step s t
    consumes : Consumes s t → Step s t

  pub data Reach (s : Threads A) : Threads A → Type ℓ where
    here : Reach s s
    next : {t u : Threads A} → Reach s t → Step t u → Reach s u

  -- Both threads before their first call.
  abbrev pub started : SpscRingBuffer A → List A → Threads A
  started r items = threads r waiting polling items []
