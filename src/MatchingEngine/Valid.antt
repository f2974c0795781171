-- ===== src/MatchingEngine/Valid.antt =====
-- The engine's invariant, and that each of its calls keeps it.
use astra_exchange.Base.{
  ℕ, ◌+◌, ◌<◌, ◌≡◌, ◌≢◌, refl, inl, inr, String, true, false, none, some, List, [], ◌∷◌, arith, All,
  All-map, str_eq, eq_iff, u64_mod, add64, Bool-cases, Option-cases,
}
use astra_exchange.Types.{Order}
use astra_exchange.PriceMap.{is_some}
use astra_exchange.RiskValidator.{
  RiskValidator, has_id, has_symbol, validate, record_id, has_id-record_id,
}
use astra_exchange.OrderBook.Defs.{OrderBook}
use astra_exchange.OrderBook.Match.{levels, add_order, cancel_order}
use astra_exchange.OrderBook.Query.{has_order}
use astra_exchange.OrderBook.Valid.{BookValid, Fresh, side_qty}
use astra_exchange.OrderBook.Preserve.{add_order-BookValid}
use astra_exchange.OrderBook.Known.{has_order-add_order}
use astra_exchange.OrderBook.Cancelled.{cancel_order-BookValid, cancel_order-has_order}
use astra_exchange.MatchingEngine.Defs.{
  MatchingEngine, Books, find_book, set_book, cancel_in, trade_in, route, submit_new, submit_order,
  is_cancel,
}

-- Every order that a book holds has an id that was used.
abbrev pub BookKnown : List ℕ → OrderBook → Type 0
BookKnown used b = (id : ℕ) → has_order id b ≡ true → has_id id used ≡ true

pub record EngineValid (e : MatchingEngine) : Type 0 where
  pub books_valid : All (λ x. BookValid x.1) e.books
  pub known : All (λ x. BookKnown e.validator.used_ids x.1) e.books
  pub paired :
      (s : String) → has_symbol s e.validator.symbols ≡ true → is_some (find_book s e.books) ≡ true

pub find_book-All :
    (P : OrderBook → Type 0) (s : String) (b : OrderBook) (bs : Books)
    → All (λ x. P x.1) bs
    → find_book s bs ≡ some b
    → P b
unfolding find_book
find_book-All P s b [] a e = cc
find_book-All P s b ((t, c) ∷ bs) a e = elim (Bool-cases (str_eq t s)) [
  | inl y ↦ let j : c ≡ b = ground arith in rw j at a.0
  | inr n ↦ find_book-All P s b bs a.1 (rw n at e)
]

pub set_book-All :
    (P : OrderBook → Type 0) (s : String) (b : OrderBook) (bs : Books)
    → All (λ x. P x.1) bs
    → P b
    → All (λ x. P x.1) (set_book s b bs)
unfolding set_book
set_book-All P s b [] a h = tt
set_book-All P s b ((t, c) ∷ bs) a h = elim (Bool-cases (str_eq t s)) [
  | inl y ↦ rw y (h, a.1)
  | inr n ↦ rw n (a.0, set_book-All P s b bs a.1 h)
]

-- A write to one book is seen under its symbol alone.
pub find_book-set_book_ne :
    (s t : String) (b : OrderBook) (bs : Books)
    → s ≢ t
    → find_book t (set_book s b bs) ≡ find_book t bs
unfolding find_book set_book
find_book-set_book_ne s t b [] n = refl
find_book-set_book_ne s t b ((r, c) ∷ bs) n =
    ground (arith, eq_iff r s, eq_iff r t, find_book-set_book_ne s t b bs n)

pub find_book-set_book_self :
    (s : String) (b c : OrderBook) (bs : Books)
    → find_book s bs ≡ some c
    → find_book s (set_book s b bs) ≡ some b
unfolding find_book set_book
find_book-set_book_self s b c [] e = cc
find_book-set_book_self s b c ((r, d) ∷ bs) e = ground (arith, find_book-set_book_self s b c bs)

set_book-is_some :
    (s t : String) (b : OrderBook) (bs : Books)
    → is_some (find_book t (set_book s b bs)) ≡ is_some (find_book t bs)
unfolding find_book set_book
set_book-is_some s t b [] = refl
set_book-is_some s t b ((r, c) ∷ bs) = ground (arith, set_book-is_some s t b bs)

-- An order that passes the checks has a quantity and a new id, and its symbol is registered.
pub validate-passed :
    (v : RiskValidator) (o : Order)
    → validate v o ≡ none
    → (0 < o.quantity) × (has_id o.id v.used_ids ≡ false) × (has_symbol o.symbol v.symbols ≡ true)
unfolding validate
validate-passed v o h = (ground arith, ground arith, ground arith)

-- The caller's promise that the side of the order has room for it.
abbrev pub HasRoom : MatchingEngine → Order → Type 0
HasRoom e o =
    (b : OrderBook)
    → find_book o.symbol e.books ≡ some b
    → side_qty (levels o.side b) + o.quantity < u64_mod

record_id-known :
    (id : ℕ) (v : RiskValidator) (b : OrderBook)
    → BookKnown v.used_ids b
    → BookKnown (record_id id v).used_ids b
record_id-known id v b k i h = rw has_id-record_id (ground (arith, k i h))

record_id-symbols : (id : ℕ) (v : RiskValidator) → (record_id id v).symbols ≡ v.symbols
unfolding record_id
record_id-symbols id v = refl

trade_in-EngineValid :
    (now : ℕ → ℕ) (e : MatchingEngine) (o : Order) (b : OrderBook)
    → EngineValid e
    → Fresh o
    → has_id o.id e.validator.used_ids ≡ false
    → find_book o.symbol e.books ≡ some b
    → side_qty (levels o.side b) + o.quantity < u64_mod
    → EngineValid (trade_in now (record e { validator = record_id o.id e.validator }) o b).engine
unfolding trade_in
trade_in-EngineValid now e o b v f n g w =
    let k = find_book-All (BookKnown e.validator.used_ids) o.symbol b e.books v.known g in
    let u = find_book-All BookValid o.symbol b e.books v.books_valid g in
    let new : has_order o.id b ≡ false = elim (Bool-cases (has_order o.id b)) [
      | inl y ↦ absurd (ground (arith, k o.id y, n))
      | inr z ↦ z
    ] in
    record {
      books_valid =
          set_book-All BookValid o.symbol (add_order now b o).book e.books v.books_valid
            (add_order-BookValid now b o u f new w);
      known =
          set_book-All (BookKnown (record_id o.id e.validator).used_ids) o.symbol
            (add_order now b o).book e.books
            (All-map _ _ e.books (λ x h. record_id-known o.id e.validator x.1 h) v.known)
            (λ i h. rw has_id-record_id (elim (has_order-add_order i now b o u f h) [
              | inl y ↦ ground (arith, y)
              | inr z ↦ ground (arith, k i z)
            ]));
      paired =
          λ s h. rw set_book-is_some (v.paired s (rw (record_id-symbols o.id e.validator) at h));
    }

cancel_in-EngineValid :
    (e : MatchingEngine) (s : String) (id : ℕ) → EngineValid e → EngineValid (cancel_in e s id).0
unfolding cancel_in
cancel_in-EngineValid e s id v = elim (Option-cases (find_book s e.books)) [
  | inl n ↦ rw (n, cancel_in) v
  | inr (b, g) ↦
      let b' : OrderBook = (cancel_order b id).1 in
      let k = find_book-All (BookKnown e.validator.used_ids) s b e.books v.known g in
      let u = find_book-All BookValid s b e.books v.books_valid g in
      let w : EngineValid (record e { books = set_book s b' e.books }) = record {
        books_valid =
            set_book-All BookValid s b' e.books v.books_valid (cancel_order-BookValid b id u);
        known =
            set_book-All (BookKnown e.validator.used_ids) s b' e.books v.known
              (λ i h. k i (cancel_order-has_order i b id h));
        paired = λ t h. rw set_book-is_some (v.paired t h);
      } in
      elim (Bool-cases (cancel_order b id).0) [
        | inl y ↦ rw (g, cancel_in, y) w
        | inr z ↦ rw (g, cancel_in, z) w
      ]
]

route-EngineValid :
    (now : ℕ → ℕ) (e : MatchingEngine) (o : Order)
    → EngineValid e
    → Fresh o
    → has_id o.id e.validator.used_ids ≡ false
    → HasRoom e o
    → EngineValid (route now e o).engine
unfolding route
route-EngineValid now e o v f n w = elim (Option-cases (find_book o.symbol e.books)) [
  | inl m ↦
      rw (m, route)
        (record {
          books_valid = v.books_valid;
          known = All-map _ _ e.books (λ x h. record_id-known o.id e.validator x.1 h) v.known;
          paired = λ s h. v.paired s (rw (record_id-symbols o.id e.validator) at h);
        })
  | inr (b, g) ↦ rw (g, route) (trade_in-EngineValid now e o b v f n g (w b g))
]

submit_new-EngineValid :
    (now : ℕ → ℕ) (e : MatchingEngine) (o : Order)
    → EngineValid e
    → o.filled_qty ≡ 0
    → o.quantity < u64_mod
    → HasRoom e o
    → EngineValid (submit_new now e o).engine
unfolding submit_new
submit_new-EngineValid now e o v z q w = elim (Option-cases (validate e.validator o)) [
  | inl n ↦
      let p = validate-passed e.validator o n in
      rw (n, submit_new)
        (route-EngineValid now e o v (record { unfilled = z; nonzero = p.0; in_word = q }) p.1 w)
  | inr (why, y) ↦ rw (y, submit_new) v
]

-- `submitOrder` keeps the engine valid: every book of it valid, and every id in a book used. The
-- order comes unfilled, and its side of the book has room for it; the rest the validator checks.
pub submit_order-EngineValid :
    (now : ℕ → ℕ) (e : MatchingEngine) (o : Order)
    → EngineValid e
    → o.filled_qty ≡ 0
    → o.quantity < u64_mod
    → HasRoom e o
    → EngineValid (submit_order now e o).engine
unfolding submit_order
submit_order-EngineValid now e o v z q w =
    let e' : MatchingEngine = record e { orders_processed = add64 e.orders_processed 1 } in
    let v' : EngineValid e' = record {
      books_valid = v.books_valid;
      known = v.known;
      paired = v.paired;
    } in
    elim (Bool-cases (is_cancel o.type)) [
      | inl y ↦ rw y (cancel_in-EngineValid e' o.symbol o.id v')
      | inr n ↦ rw n (submit_new-EngineValid now e' o v' z q w)
    ]
