-- ===== src/MatchingEngine/Behaviour.antt =====
-- What the engine answers, which books a call may touch, and what a history of calls keeps.
use astra_exchange.Base.{
  ℕ, ◌<◌, ◌≡◌, ◌≢◌, refl, inl, inr, String, true, false, none, some, List, [], ◌∷◌, arith, u64_mod,
  add64, Bool-cases, Option-cases,
}
use astra_exchange.Types.{Order, rejected}
use astra_exchange.RiskValidator.{
  RiskValidator, Reason, has_id, validate, record_id, has_id-record_id,
}
use astra_exchange.OrderBook.Defs.{OrderBook}
use astra_exchange.OrderBook.Match.{add_order, cancel_order}
use astra_exchange.OrderBook.Valid.{BookValid, Fresh}
use astra_exchange.OrderBook.Outcomes.{add_order-Answers, status_for, liquidity}
use astra_exchange.MatchingEngine.Defs.{
  MatchingEngine, Reply, find_book, cancel_in, trade_in, route, submit_new, submit_order, is_cancel,
  refuse,
}
use astra_exchange.MatchingEngine.Valid.{
  EngineValid, find_book-All, find_book-set_book_ne, find_book-set_book_self, validate-passed,
}

-- A call with the order `o` leaves the book of another symbol as it is.
cancel_in-other :
    (e : MatchingEngine) (s t : String) (id : ℕ)
    → s ≢ t
    → find_book t (cancel_in e s id).0.books ≡ find_book t e.books
unfolding cancel_in
cancel_in-other e s t id n = elim (Option-cases (find_book s e.books)) [
  | inl m ↦ rw (m, cancel_in) refl
  | inr (b, g) ↦ elim (Bool-cases (cancel_order b id).0) [
    | inl y ↦ rw (g, cancel_in, y) (find_book-set_book_ne s t (cancel_order b id).1 e.books n)
    | inr z ↦ rw (g, cancel_in, z) (find_book-set_book_ne s t (cancel_order b id).1 e.books n)
  ]
]

submit_new-other :
    (now : ℕ → ℕ) (e : MatchingEngine) (o : Order) (t : String)
    → o.symbol ≢ t
    → find_book t (submit_new now e o).engine.books ≡ find_book t e.books
unfolding submit_new route trade_in
submit_new-other now e o t n = elim (Option-cases (validate e.validator o)) [
  | inl p ↦ elim (Option-cases (find_book o.symbol e.books)) [
    | inl m ↦ rw (p, submit_new, m, route) refl
    | inr (b, g) ↦
        rw (p, submit_new, g, route)
          (find_book-set_book_ne o.symbol t (add_order now b o).book e.books n)
  ]
  | inr (why, y) ↦ rw (y, submit_new) refl
]

-- An order, whatever its type, leaves the books of all other symbols as they are.
pub submit_order-isolation :
    (now : ℕ → ℕ) (e : MatchingEngine) (o : Order) (t : String)
    → o.symbol ≢ t
    → find_book t (submit_order now e o).engine.books ≡ find_book t e.books
unfolding submit_order
submit_order-isolation now e o t n =
    let e' : MatchingEngine = record e { orders_processed = add64 e.orders_processed 1 } in
    elim (Bool-cases (is_cancel o.type)) [
      | inl y ↦ rw y (cancel_in-other e' o.symbol t o.id n)
      | inr z ↦ rw z (submit_new-other now e' o t n)
    ]

-- What a new order meets: a refusal that changes nothing, or the book of its symbol.
pub data Answered (now : ℕ → ℕ) (e : MatchingEngine) (o : Order) (r : Reply) : Type 0 where
  refused :
      (why : Reason) → validate e.validator o ≡ some why → r ≡ refuse e o why → Answered now e o r
  traded :
      (b : OrderBook)
      → validate e.validator o ≡ none
      → find_book o.symbol e.books ≡ some b
      → find_book o.symbol r.engine.books ≡ some (add_order now b o).book
      → r.result.trades ≡ (add_order now b o).trades
      → r.result.status ≡ status_for o.type o.quantity (liquidity o.type b o)
      → Answered now e o r

trade_in-Answered :
    (now : ℕ → ℕ) (e : MatchingEngine) (o : Order) (b : OrderBook)
    → validate e.validator o ≡ none
    → find_book o.symbol e.books ≡ some b
    → BookValid b
    → Fresh o
    → Answered now e o (trade_in now (record e { validator = record_id o.id e.validator }) o b)
unfolding trade_in
trade_in-Answered now e o b p g u f =
    traded b p g (find_book-set_book_self o.symbol (add_order now b o).book b e.books g) refl
      (add_order-Answers now b o u f).status

-- In a valid engine, a new order that comes unfilled is refused exactly when a check of the validator fails, and then nothing but its own
-- status changes; otherwise it finds the book of its symbol, and comes back with that book's answer.
pub submit_new-Answered :
    (now : ℕ → ℕ) (e : MatchingEngine) (o : Order)
    → EngineValid e
    → o.filled_qty ≡ 0
    → o.quantity < u64_mod
    → Answered now e o (submit_new now e o)
unfolding submit_new route
submit_new-Answered now e o v z q = elim (Option-cases (validate e.validator o)) [
  | inr (why, y) ↦ rw (y, submit_new) (refused why y refl)
  | inl n ↦
      let p = validate-passed e.validator o n in
      elim (Option-cases (find_book o.symbol e.books)) [
        | inl m ↦ absurd (ground (arith, v.paired o.symbol, p.2, m))
        | inr (b, g) ↦
            rw (n, submit_new, g, route)
              (trade_in-Answered now e o b n g
                (find_book-All BookValid o.symbol b e.books v.books_valid g)
                (record { unfilled = z; nonzero = p.0; in_word = q }))
      ]
]

-- The ids that were used stay used.
cancel_in-validator :
    (e : MatchingEngine) (s : String) (id : ℕ) → (cancel_in e s id).0.validator ≡ e.validator
unfolding cancel_in
cancel_in-validator e s id = ground arith

submit_new-has_id :
    (now : ℕ → ℕ) (e : MatchingEngine) (o : Order) (i : ℕ)
    → has_id i e.validator.used_ids ≡ true
    → has_id i (submit_new now e o).engine.validator.used_ids ≡ true
unfolding submit_new route trade_in
submit_new-has_id now e o i h = ground (arith, has_id-record_id i o.id e.validator)

pub submit_new-records :
    (now : ℕ → ℕ) (e : MatchingEngine) (o : Order)
    → validate e.validator o ≡ none
    → has_id o.id (submit_new now e o).engine.validator.used_ids ≡ true
unfolding submit_new route trade_in
submit_new-records now e o p = ground (arith, has_id-record_id o.id o.id e.validator)

pub submit_order-has_id :
    (now : ℕ → ℕ) (e : MatchingEngine) (o : Order) (i : ℕ)
    → has_id i e.validator.used_ids ≡ true
    → has_id i (submit_order now e o).engine.validator.used_ids ≡ true
unfolding submit_order
submit_order-has_id now e o i h =
    let e' : MatchingEngine = record e { orders_processed = add64 e.orders_processed 1 } in
    elim (Bool-cases (is_cancel o.type)) [
      | inl y ↦ rw (y, cancel_in-validator e' o.symbol o.id) h
      | inr z ↦ rw z (submit_new-has_id now e' o i h)
    ]

-- The engine after a list of orders.
unfoldable pub submit_all : (ℕ → ℕ) → MatchingEngine → List Order → MatchingEngine
submit_all now e [] = e
submit_all now e (o ∷ os) = submit_all now (submit_order now e o).engine os

submit_all-has_id :
    (now : ℕ → ℕ) (e : MatchingEngine) (os : List Order) (i : ℕ)
    → has_id i e.validator.used_ids ≡ true
    → has_id i (submit_all now e os).validator.used_ids ≡ true
unfolding submit_all
submit_all-has_id now e [] i h = h
submit_all-has_id now e (o ∷ os) i h =
    submit_all-has_id now (submit_order now e o).engine os i (submit_order-has_id now e o i h)

used-refused :
    (v : RiskValidator) (o : Order)
    → has_id o.id v.used_ids ≡ true
    → (why : Reason) × (validate v o ≡ some why)
unfolding validate
used-refused v o h = elim (Option-cases (validate v o)) [
  | inl n ↦ absurd (ground (arith, validate-passed v o n))
  | inr s ↦ s
]

-- Once an order has passed the checks, its id is never accepted again, whatever comes between.
pub resubmit-rejected :
    (now : ℕ → ℕ) (e : MatchingEngine) (o again : Order) (os : List Order)
    → is_cancel o.type ≡ false
    → validate e.validator o ≡ none
    → again.id ≡ o.id
    → is_cancel again.type ≡ false
    → let e' = submit_all now (submit_order now e o).engine os in
      let r = submit_order now e' again in
      (r.result.status ≡ rejected) × (r.result.trades ≡ []) × (r.engine.books ≡ e'.books)
unfolding submit_order submit_new
resubmit-rejected now e o again os c p i d =
    let e₁ : MatchingEngine = (submit_order now e o).engine in
    let h : has_id o.id e₁.validator.used_ids ≡ true =
      rw c
        (submit_new-records now (record e { orders_processed = add64 e.orders_processed 1 }) o p) in
    let k = submit_all-has_id now e₁ os o.id h in
    let (why, w) = used-refused (submit_all now e₁ os).validator again (rw i k) in
    (rw (d, w, submit_new) refl, rw (d, w, submit_new) refl, rw (d, w, submit_new) refl)
