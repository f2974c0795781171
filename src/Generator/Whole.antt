-- ===== src/Generator/Whole.antt =====
-- The loops of `generate`, and all of it.
use astra_exchange.Base.{
  ℕ, zero, suc, ◌+◌, ◌-◌, ◌≤◌, ◌<◌, ◌≡◌, refl, ap, inl, inr, String, Bool, true, false, Option,
  some, List, [], ◌∷◌, ◌++◌, ◌>>=◌, arith, length, length-append, get_elem?-some, sub64, u64_mod,
  ltb, if◌then◌else◌,
}
use astra_exchange.Types.{Order, new_order}
use astra_exchange.Floating.{Floating, Randomness, InRange}
use astra_exchange.Generator.Defs.{GeneratorConfig, OrderGenerator, track, make_limit, make_cancel}
use astra_exchange.Generator.Loop.{
  rounds, new_generator, draw_symbol, seed_order, cancel_or_limit, pick_order, main_order,
  seed_count, generate,
}
use astra_exchange.Generator.Stream.{Entry, Stream, done, more, Stream-append}
use astra_exchange.Generator.Made.{
  Keeps, Goes, Issued-Goes, tracked-Goes, make_limit-Issued, make_limit-type, make_market-Issued,
  make_ioc-Issued, make_fok-Issued, make_invalid-Issued, make_cancel-Goes,
}

branch {ℓ κ} :
    {A : Type ℓ} (P : A → Type κ) (b : Bool) (x y : A) → P x → P y → P (if b then x else y)
branch P true x y p q = p
branch P false x y p q = q

-- A round gives an order that may come next.
abbrev Gives : {R : Type 0} → List Entry → ℕ → ℕ → Option (Order × OrderGenerator R) → Type 0
Gives {R} live k ts r =
    (o : Order) × (g : OrderGenerator R) × (r ≡ some (o, g)) × Goes live k ts (o, g)

abbrev GivesEach :
    {R : Type 0} → (ℕ → OrderGenerator R → Option (Order × OrderGenerator R)) → Type 0
GivesEach {R} body =
    (live : List Entry) (k i : ℕ) (g : OrderGenerator R)
    → Keeps live k g
    → suc k < u64_mod
    → Gives live k i (body i g)

record Looped {R : Type 0} (live : List Entry) (k i n : ℕ)
    (r : Option (List Order × OrderGenerator R)) : Type 0 where
  orders : List Order
  after : OrderGenerator R
  live' : List Entry
  last : ℕ
  result : r ≡ some (orders, after)
  stream : Stream live k i orders live' last
  size : length orders ≡ n
  keeps : Keeps live' last after
  few : last ≤ k + n

rounds-Looped :
    {R : Type 0} (body : ℕ → OrderGenerator R → Option (Order × OrderGenerator R))
    → GivesEach body
    → (n : ℕ) (live : List Entry) (k i : ℕ) (g : OrderGenerator R) → Keeps live k g
    → k + n < u64_mod
    → Looped live k i n (rounds body n i g)
unfolding rounds
rounds-Looped body each zero live k i g p l = record {
  orders = [];
  after = g;
  live' = live;
  last = k;
  result = refl;
  stream = done;
  size = refl;
  keeps = p;
  few = omega arith;
}
rounds-Looped body each (suc n) live k i g p l =
    let (o, g1, e, (m, (live', k', s, le, q))) = each live k i g p (omega (arith, l)) in
    let r = rounds-Looped body each n live' k' (suc i) g1 q (omega (arith, l, le)) in
    record {
      orders = o ∷ r.orders;
      after = r.after;
      live' = r.live';
      last = r.last;
      result = rw (e, rounds, r.result) refl;
      stream = more o r.orders m s r.stream;
      size = ap suc r.size;
      keeps = r.keeps;
      few = omega (arith, r.few, le);
    }

module _ {D R : Type 0} (fl : Floating D) (rn : Randomness D R) (fair : InRange rn)
    (cfg : GeneratorConfig D) where
  draw_symbol-Keeps :
      (live : List Entry) (k : ℕ) (g : OrderGenerator R)
      → 0 < length cfg.symbols
      → length cfg.symbols < u64_mod
      → Keeps live k g
      → (s : String) × (g' : OrderGenerator R) × (draw_symbol fl rn cfg g ≡ some (s, g'))
        × Keeps live k g'
  unfolding draw_symbol
  draw_symbol-Keeps live k g z w p =
      let hi = sub64 (length cfg.symbols) 1 in
      let (s, e) =
        get_elem?-some cfg.symbols (rn.uniform_int 0 hi g.rng).0
          (omega (arith, z, w, fair 0 hi g.rng (omega arith))) in
      (
        s,
        record g { rng = (rn.uniform_int 0 hi g.rng).1 },
        rw e refl,
        record { numbered = p.numbered; tracked = p.tracked },
      )

  limit-Goes :
      (live : List Entry) (k ts : ℕ) (g : OrderGenerator R) (s : String)
      → Keeps live k g
      → suc k < u64_mod
      → let (o, g') = make_limit fl rn s ts g in Goes live k ts (o, track s o.id g')
  unfolding make_limit new_order
  limit-Goes live k ts g s p few =
      tracked-Goes live k ts g p few (make_limit fl rn s ts g) (make_limit-Issued fl rn fair s ts g)
        (make_limit-type fl rn fair s ts g).0

  seed_order-Gives :
      0 < length cfg.symbols → length cfg.symbols < u64_mod → GivesEach (seed_order fl rn cfg)
  unfolding seed_order
  seed_order-Gives z w live k i g p few =
      let (s, g1, e, q) = draw_symbol-Keeps live k g z w p in
      (_, _, rw e refl, limit-Goes live k i g1 s q few)

  limit-Gives :
      (s : String) (live : List Entry) (k ts : ℕ) (g : OrderGenerator R)
      → Keeps live k g
      → suc k < u64_mod
      → let (o, g') = make_limit fl rn s ts g in
        Gives live k ts (some (o, if ltb (length g'.resting) 50000 then track s o.id g' else g'))
  limit-Gives s live k ts g p few =
      let (o, g') = make_limit fl rn s ts g in
      (
        o,
        _,
        refl,
        branch (λ h. Goes live k ts (o, h)) (ltb (length g'.resting) 50000) (track s o.id g') g'
            (limit-Goes live k ts g s p few)
            (Issued-Goes live k ts g p few (o, g') (make_limit-Issued fl rn fair s ts g)),
      )

  cancel-Gives :
      (s : String) (live : List Entry) (k ts : ℕ) (g : OrderGenerator R)
      → Keeps live k g
      → suc k < u64_mod
      → Gives live k ts (make_cancel fl rn ts g >>= λ c. some (cancel_or_limit fl rn s ts c))
  unfolding cancel_or_limit
  cancel-Gives s live k ts g p few = elim (make_cancel-Goes fl rn fair live k ts g p) [
    | inl e ↦ rw e (_, _, refl, limit-Goes live k ts g s p few)
    | inr (o, g', e, h) ↦ rw e (o, g', refl, h)
  ]

  pick_order-Gives :
      (r : D) (s : String) (live : List Entry) (k ts : ℕ) (g : OrderGenerator R)
      → Keeps live k g
      → suc k < u64_mod
      → Gives live k ts (pick_order fl rn cfg r s ts g)
  unfolding pick_order
  pick_order-Gives r s live k ts g p few =
      let new = Issued-Goes live k ts g p few in
      let P = Gives live k ts in
      let t_market = fl.plus cfg.frac_limit cfg.frac_market in
      let t_cancel = fl.plus t_market cfg.frac_cancel in
      let t_ioc = fl.plus t_cancel cfg.frac_ioc in
      branch P (fl.below r cfg.frac_limit) _ _ (limit-Gives s live k ts g p few) (
        branch P (fl.below r t_market) _ _
          (_, _, refl, new _ (make_market-Issued fl rn fair s ts g))
          (branch P (fl.below r t_cancel) _ _ (cancel-Gives s live k ts g p few) (
            branch P (fl.below r t_ioc) _ _ (_, _, refl, new _ (make_ioc-Issued fl rn fair s ts g))
              (branch P (fl.below r (fl.plus t_ioc cfg.frac_fok)) _ _
                (_, _, refl, new _ (make_fok-Issued fl rn fair s ts g))
                (_, _, refl, new _ (make_invalid-Issued fl rn fair s ts g))))))

  main_order-Gives :
      0 < length cfg.symbols → length cfg.symbols < u64_mod → GivesEach (main_order fl rn cfg)
  unfolding main_order
  main_order-Gives z w live k i g p few =
      let (s, g1, e, q) = draw_symbol-Keeps live k g z w p in
      let (r, rng) = rn.uniform_real (fl.literal "0.0") (fl.literal "1.0") g1.rng in
      rw e (
        pick_order-Gives r s live k i (record g1 { rng = rng })
          (record { numbered = q.numbered; tracked = q.tracked }) few)

  -- For at least one symbol, and fewer orders than 2^64, `generate` reads no vector beyond its end, and gives
  -- as many orders as configured: new ones with ids upwards from 1, of at most 500 units, and cancels that
  -- name an earlier limit order which no cancel before named. The draws are within their bounds.
  pub generate-Stream :
      0 < length cfg.symbols
      → length cfg.symbols < u64_mod
      → cfg.count < u64_mod
      → (os : List Order) × (live : List Entry) × (k : ℕ) × (generate fl rn cfg ≡ some os)
        × (length os ≡ cfg.count)
        × Stream [] 0 0 os live k
  unfolding generate
  generate-Stream z w c =
      let n = seed_count cfg in
      let a =
        rounds-Looped (seed_order fl rn cfg) (seed_order-Gives z w) n [] 0 0
          (new_generator fl rn cfg) (record { numbered = refl; tracked = λ f. omega arith })
          (omega (arith, c)) in
      let b =
        rounds-Looped (main_order fl rn cfg) (main_order-Gives z w) (cfg.count - n) a.live' a.last n
          a.after a.keeps (omega (arith, a.few, c)) in
      (
        a.orders ++ b.orders,
        b.live',
        b.last,
        rw (a.result, b.result) refl,
        omega (arith, length-append a.orders b.orders, a.size, b.size),
        Stream-append 0 n a.orders b.orders a.stream (omega (arith, a.size)) b.stream,
      )
