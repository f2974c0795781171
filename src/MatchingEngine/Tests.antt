-- ===== src/MatchingEngine/Tests.antt =====
-- The engine at concrete inputs: one registered symbol, a resting order and its answer.
use astra_exchange.Base.{ℕ, str_eq, eq_iff, ◌≡◌, refl, true, some, [], ◌∷◌, arith}
use astra_exchange.Base.Int.{pos}
use astra_exchange.Types.{Side, buy, sell, limit, Order, new_order, rejected}
use astra_exchange.RiskValidator.{validate, register_symbol, has_symbol, has_id}
use astra_exchange.OrderBook.Defs.{OrderBook, new_book}
use astra_exchange.MatchingEngine.Defs.{
  MatchingEngine, new_engine, find_book, emplace_book, register, submit_new, submit_order,
}
use astra_exchange.MatchingEngine.Valid.{EngineValid, submit_order-EngineValid}
use astra_exchange.MatchingEngine.Register.{new_engine-EngineValid, register-EngineValid}
use astra_exchange.MatchingEngine.Bounds.{Leaves, register-Steady, submit_order-Leaves}
use astra_exchange.MatchingEngine.Behaviour.{
  Answered, submit_all, submit_new-Answered, submit_order-isolation, resubmit-rejected,
}

abbrev now : ℕ → ℕ
now k = k

engine : MatchingEngine
unfolding register new_engine emplace_book find_book new_book register_symbol has_symbol
engine = register "AAPL" new_engine

order : ℕ → Side → ℕ → Order
unfolding new_order
order id side qty = new_order id "AAPL" side limit (pos 100) qty 0

engine-EngineValid : EngineValid engine
unfolding engine
engine-EngineValid = register-EngineValid "AAPL" new_engine new_engine-EngineValid

-- The only book of the engine is empty.
engine-find_book : (b : OrderBook) → find_book "AAPL" engine.books ≡ some b → b ≡ new_book "AAPL"
unfolding engine find_book
engine-find_book b e = cc

submit_order-EngineValid_example : EngineValid (submit_order now engine (order 1 sell 5)).engine
unfolding order new_book
submit_order-EngineValid_example =
    submit_order-EngineValid now engine (order 1 sell 5) engine-EngineValid refl (omega arith)
      (λ b e. rw (engine-find_book b e) (omega arith))

submit_new-Answered_example :
    Answered now engine (order 1 sell 5) (submit_new now engine (order 1 sell 5))
unfolding order
submit_new-Answered_example =
    submit_new-Answered now engine (order 1 sell 5) engine-EngineValid refl (omega arith)

submit_order-isolation_example :
    find_book "MSFT" (submit_order now engine (order 1 sell 5)).engine.books
    ≡ find_book "MSFT" engine.books
unfolding order
submit_order-isolation_example =
    submit_order-isolation now engine (order 1 sell 5) "MSFT"
      (λ e. let h : str_eq "AAPL" "MSFT" ≡ true = (eq_iff "AAPL" "MSFT").1 e in cc)

resubmit-rejected_example :
    let e = submit_all now (submit_order now engine (order 1 sell 5)).engine (order 2 buy 3 ∷ []) in
    let r = submit_order now e (order 1 buy 7) in
    (r.result.status ≡ rejected) × (r.result.trades ≡ []) × (r.engine.books ≡ e.books)
unfolding engine order validate has_symbol has_id
resubmit-rejected_example =
    resubmit-rejected now engine (order 1 sell 5) (order 1 buy 7) (order 2 buy 3 ∷ []) refl refl
      refl refl

submit_order-Leaves_example : Leaves 5 (submit_order now engine (order 1 sell 5))
unfolding engine order
submit_order-Leaves_example =
    submit_order-Leaves now 0 engine (order 1 sell 5) engine-EngineValid refl (omega arith)
      (register-Steady "AAPL" new_engine tt)
