-- ===== src/Benchmark/Ids.antt =====
-- The ids that a run accepts.
use astra_exchange.Base.{
  ℕ, ◌≡◌, ◌≢◌, ◌⊎◌, inl, inr, refl, ap, String, true, false, List, [], ◌∷◌, ◌++◌, arith, All,
  All-append, All-map, Bool-cases, Option-cases, add64,
}
use astra_exchange.Base.Int.{ℤ}
use astra_exchange.Types.{
  OrderStatus, pending, accepted, partially_filled, filled, cancelled, rejected, Order,
}
use astra_exchange.RiskValidator.{has_id, validate}
use astra_exchange.InvariantChecker.Defs.{check_unique_ids}
use astra_exchange.InvariantChecker.Reports.{Distinct, check_unique_ids-Distinct}
use astra_exchange.MatchingEngine.Defs.{
  MatchingEngine, cancel_in, is_cancel, submit_new, submit_order,
}
use astra_exchange.MatchingEngine.Valid.{validate-passed}
use astra_exchange.MatchingEngine.Behaviour.{submit_order-has_id, submit_new-records}
use astra_exchange.Benchmark.Defs.{Run, new_run, tally, run_order, run_orders}

Distinct-append :
    (id : ℕ) (ids : List ℕ) → Distinct ids → All (λ j. j ≢ id) ids → Distinct (ids ++ id ∷ [])
Distinct-append id [] d a = (tt, tt)
Distinct-append id (j ∷ ids) d a =
    (All-append (λ k. j ≢ k) ids (id ∷ []) d.0 (a.0, tt), Distinct-append id ids d.1 a.1)

-- The accepted ids are distinct, and the engine has seen them.
record Tracked (r : Run) : Type 0 where
  distinct : Distinct r.accepted_ids
  seen : All (λ i. has_id i r.engine.validator.used_ids ≡ true) r.accepted_ids

-- The status says that nothing is accepted, or the id was new and is now used.
abbrev New : ℕ → MatchingEngine → MatchingEngine → OrderStatus → Type 0
New id before after s =
    (s ≡ rejected)
    ⊎ (s ≡ cancelled)
    ⊎ ((has_id id before.validator.used_ids ≡ false) × (has_id id after.validator.used_ids ≡ true))

cancel_in-New :
    (e : MatchingEngine) (o : Order) (s : String) (id : ℕ)
    → New o.id e (cancel_in e s id).0 (cancel_in e s id).1.status
unfolding cancel_in
cancel_in-New e o s id = ground arith

submit_new-New :
    (now : ℕ → ℕ) (e : MatchingEngine) (o : Order)
    → New o.id e (submit_new now e o).engine (submit_new now e o).result.status
unfolding submit_new
submit_new-New now e o = elim (Option-cases (validate e.validator o)) [
  | inl n ↦ inr (inr ((validate-passed e.validator o n).1, submit_new-records now e o n))
  | inr (why, y) ↦ inl (rw (y, submit_new) refl)
]

submit_order-New :
    (now : ℕ → ℕ) (e : MatchingEngine) (o : Order)
    → New o.id e (submit_order now e o).engine (submit_order now e o).result.status
unfolding submit_order
submit_order-New now e o =
    let e' : MatchingEngine = record e { orders_processed = add64 e.orders_processed 1 } in
    elim (Bool-cases (is_cancel o.type)) [
      | inl y ↦ rw y (cancel_in-New e' o o.symbol o.id)
      | inr n ↦ rw n (submit_new-New now e' o)
    ]

accept-Tracked :
    (id : ℕ) (r : Run) (used : List ℕ)
    → Tracked r
    → All (λ i. has_id i used ≡ true) r.accepted_ids
    → (has_id id used ≡ false) × (has_id id r.engine.validator.used_ids ≡ true)
    → Tracked (tally filled id r)
accept-Tracked id r used t a n = record {
  distinct = Distinct-append id r.accepted_ids t.distinct (
      All-map (λ i. has_id i used ≡ true) (λ i. i ≢ id) r.accepted_ids
        (λ i h e. ground (arith, h, n.0, ap (λ k. has_id k used) e)) a);
  seen =
      All-append (λ i. has_id i r.engine.validator.used_ids ≡ true) r.accepted_ids (id ∷ []) t.seen
        (n.1, tt);
}

tally-Tracked :
    (o : Order) (s : OrderStatus) (before : MatchingEngine) (r : Run)
    → Tracked r
    → All (λ i. has_id i before.validator.used_ids ≡ true) r.accepted_ids
    → New o.id before r.engine s
    → Tracked (tally s o.id r)
tally-Tracked o rejected b r t a n = record { distinct = t.distinct; seen = t.seen }
tally-Tracked o cancelled b r t a n = record { distinct = t.distinct; seen = t.seen }
tally-Tracked o pending b r t a (inl e) = cc
tally-Tracked o pending b r t a (inr (inl e)) = cc
tally-Tracked o pending b r t a (inr (inr n)) = accept-Tracked o.id r b.validator.used_ids t a n
tally-Tracked o accepted b r t a (inl e) = cc
tally-Tracked o accepted b r t a (inr (inl e)) = cc
tally-Tracked o accepted b r t a (inr (inr n)) = accept-Tracked o.id r b.validator.used_ids t a n
tally-Tracked o partially_filled b r t a (inl e) = cc
tally-Tracked o partially_filled b r t a (inr (inl e)) = cc
tally-Tracked o partially_filled b r t a (inr (inr n)) =
    accept-Tracked o.id r b.validator.used_ids t a n
tally-Tracked o filled b r t a (inl e) = cc
tally-Tracked o filled b r t a (inr (inl e)) = cc
tally-Tracked o filled b r t a (inr (inr n)) = accept-Tracked o.id r b.validator.used_ids t a n

run_order-Tracked :
    (clock : ℕ → ℕ → ℕ) (r : Run) (o : Order) → Tracked r → Tracked (run_order clock r o)
unfolding run_order
run_order-Tracked clock r o t =
    let now = clock r.engine.orders_processed in
    let s = submit_order now r.engine o in
    let h =
      All-map (λ i. has_id i r.engine.validator.used_ids ≡ true)
        (λ i. has_id i s.engine.validator.used_ids ≡ true) r.accepted_ids
        (λ i e. submit_order-has_id now r.engine o i e) t.seen in
    tally-Tracked o s.result.status r.engine _ (record { distinct = t.distinct; seen = h }) t.seen
      (submit_order-New now r.engine o)

run_orders-Tracked :
    (clock : ℕ → ℕ → ℕ) (r : Run) (os : List Order) → Tracked r → Tracked (run_orders clock r os)
unfolding run_orders
run_orders-Tracked clock r [] t = t
run_orders-Tracked clock r (o ∷ os) t =
    run_orders-Tracked clock (run_order clock r o) os (run_order-Tracked clock r o t)

-- The ids that a run accepts are distinct, whatever the orders, so that its check of them passes.
pub run_orders-Distinct :
    (p : ℤ → String) (i : ℕ → String) (f : ℤ → String) (clock : ℕ → ℕ → ℕ) (symbols : List String)
    (os : List Order)
    → let ids = (run_orders clock (new_run symbols) os).accepted_ids in
      Distinct ids × ((check_unique_ids p i f ids).passed ≡ true)
unfolding new_run
run_orders-Distinct p i f clock symbols os =
    let t = run_orders-Tracked clock (new_run symbols) os (record { distinct = tt; seen = tt }) in
    (
      t.distinct,
      (check_unique_ids-Distinct p i f (run_orders clock (new_run symbols) os).accepted_ids).1
          t.distinct,
    )
