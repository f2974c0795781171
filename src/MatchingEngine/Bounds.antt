-- ===== src/MatchingEngine/Bounds.antt =====
-- What the engine's books hold at most, the prices in them, and the trades that a call gives.
use astra_exchange.Base.{
  ℕ, ◌+◌, ◌≤◌, ◌<◌, ◌≡◌, ◌≢◌, refl, inl, inr, String, none, [], arith, All, All-map, u64_mod, add64,
  Bool-cases, Option-cases,
}
use astra_exchange.Types.{buy, sell, limit, cancel, Order}
use astra_exchange.PriceMap
use astra_exchange.RiskValidator.{validate}
use astra_exchange.InvariantChecker.Reports.{Sound}
use astra_exchange.OrderBook.Defs.{OrderBook, new_book}
use astra_exchange.OrderBook.Match.{add_order, cancel_order}
use astra_exchange.OrderBook.Valid.{BookValid, Fresh}
use astra_exchange.OrderBook.Modest.{Modest, Modest-le, Positive}
use astra_exchange.OrderBook.Leaves.{add_order-Leaves, cancel_order-Modest}
use astra_exchange.MatchingEngine.Defs.{
  MatchingEngine, Reply, find_book, register, cancel_in, trade_in, route, submit_new, submit_order,
  is_cancel,
}
use astra_exchange.MatchingEngine.Register.{emplace_book-All}
use astra_exchange.MatchingEngine.Valid.{
  EngineValid, HasRoom, find_book-All, set_book-All, validate-passed,
}

-- On each side of each book rest at most `n` units, at positive prices.
abbrev pub Steady : ℕ → MatchingEngine → Type 0
Steady n e = All (λ x. Modest n x.1) e.books

pub Steady-HasRoom :
    (n : ℕ) (e : MatchingEngine) (o : Order) → Steady n e → n + o.quantity < u64_mod → HasRoom e o
Steady-HasRoom n e o s l b f =
    omega (arith, l, (find_book-All (Modest n) o.symbol b e.books s f o.side).0)

Steady-le : (n k : ℕ) (e : MatchingEngine) → n ≤ k → Steady n e → Steady k e
Steady-le n k e l s =
    All-map (λ x. Modest n x.1) (λ x. Modest k x.1) e.books (λ x h. Modest-le n k x.1 l h) s

validate-Positive :
    (e : MatchingEngine) (o : Order)
    → validate e.validator o ≡ none
    → o.type ≡ limit
    → Positive o.price
unfolding validate
validate-Positive e o h t = ground arith

-- What a call leaves, for an order of this quantity.
abbrev pub Leaves : ℕ → Reply → Type 0
Leaves n r = Steady n r.engine × All Sound r.result.trades

cancel_in-Steady :
    (n : ℕ) (e : MatchingEngine) (s : String) (id : ℕ)
    → EngineValid e
    → Steady n e
    → Steady n (cancel_in e s id).0 × ((cancel_in e s id).1.trades ≡ [])
unfolding cancel_in
cancel_in-Steady n e s id v h = elim (Option-cases (find_book s e.books)) [
  | inl m ↦ rw (m, cancel_in) (h, refl)
  | inr (b, g) ↦
      let b' : OrderBook = (cancel_order b id).1 in
      let w = set_book-All (Modest n) s b' e.books h (
        cancel_order-Modest n b id (find_book-All BookValid s b e.books v.books_valid g)
          (find_book-All (Modest n) s b e.books h g)) in
      elim (Bool-cases (cancel_order b id).0) [
        | inl y ↦ rw (g, cancel_in, y) (w, refl)
        | inr y ↦ rw (g, cancel_in, y) (w, refl)
      ]
]

module _ (now : ℕ → ℕ) (n : ℕ) (o : Order) (z : o.filled_qty ≡ 0)
    (l : n + o.quantity < u64_mod) where
  route-Leaves :
      (e : MatchingEngine)
      → EngineValid e
      → o.type ≢ cancel
      → validate e.validator o ≡ none
      → Steady n e
      → Leaves (n + o.quantity) (route now e o)
  unfolding route trade_in
  route-Leaves e v k p s = elim (Option-cases (find_book o.symbol e.books)) [
    | inl m ↦ rw (m, route) (Steady-le n (n + o.quantity) e (omega arith) s, tt)
    | inr (b, g) ↦
        let f : Fresh o = record {
          unfilled = z;
          nonzero = (validate-passed e.validator o p).0;
          in_word = omega (arith, l);
        } in
        let (h, t) =
          add_order-Leaves now n b o (find_book-All BookValid o.symbol b e.books v.books_valid g) f
            k (Steady-HasRoom n e o s l b g) (validate-Positive e o p)
            (find_book-All (Modest n) o.symbol b e.books s g) in
        rw (g, route)
          (
            set_book-All (Modest (n + o.quantity)) o.symbol (add_order now b o).book e.books
                (Steady-le n (n + o.quantity) e (omega arith) s) h,
            t,
          )
  ]

  submit_new-Leaves :
      (e : MatchingEngine)
      → EngineValid e
      → o.type ≢ cancel
      → Steady n e
      → Leaves (n + o.quantity) (submit_new now e o)
  unfolding submit_new
  submit_new-Leaves e v k s = elim (Option-cases (validate e.validator o)) [
    | inl p ↦ rw (p, submit_new) (route-Leaves e v k p s)
    | inr (why, y) ↦ rw (y, submit_new) (Steady-le n (n + o.quantity) e (omega arith) s, tt)
  ]

-- `submitOrder` trades positive quantities at positive prices, keeps the prices of the resting orders
-- positive, and adds at most the order's quantity to what rests on a side of a book, where the sum fits a
-- word. The order comes unfilled.
pub submit_order-Leaves :
    (now : ℕ → ℕ) (n : ℕ) (e : MatchingEngine) (o : Order)
    → EngineValid e
    → o.filled_qty ≡ 0
    → n + o.quantity < u64_mod
    → Steady n e
    → Leaves (n + o.quantity) (submit_order now e o)
unfolding submit_order
submit_order-Leaves now n e o v z l s =
    let e' : MatchingEngine = record e { orders_processed = add64 e.orders_processed 1 } in
    let v' : EngineValid e' = record {
      books_valid = v.books_valid;
      known = v.known;
      paired = v.paired;
    } in
    elim (Bool-cases (is_cancel o.type)) [
      | inl y ↦
          let (h, t) = cancel_in-Steady n e' o.symbol o.id v' s in
          rw y
            (Steady-le n (n + o.quantity) (cancel_in e' o.symbol o.id).0 (omega arith) h, rw t tt)
      | inr m ↦ rw m (submit_new-Leaves now n o z l e' v' (λ q. ground (arith, q, m)) s)
    ]

new_book-Modest : (s : String) → Modest 0 (new_book s)
unfolding new_book PriceMap.has_key PriceMap.find
new_book-Modest s buy = (omega arith, λ q k. cc)
new_book-Modest s sell = (omega arith, λ q k. cc)

pub register-Steady : (s : String) (e : MatchingEngine) → Steady 0 e → Steady 0 (register s e)
unfolding register
register-Steady s e h = emplace_book-All (Modest 0) s e.books (new_book-Modest s) h
