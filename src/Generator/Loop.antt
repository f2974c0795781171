-- ===== src/Generator/Loop.antt =====
-- `generate`: its two loops, one order a round.
use astra_exchange.Base.{
  ℕ, zero, suc, ◌-◌, ◌/◌, ◌>>=◌, String, Option, none, some, List, [], ◌∷◌, ◌++◌, length, get_elem?,
  min, sub64, ltb, if◌then◌else◌,
}
use astra_exchange.Types.{Order}
use astra_exchange.Floating.{Floating, Randomness}
use astra_exchange.Generator.Defs.{
  GeneratorConfig, OrderGenerator, track, make_limit, make_market, make_cancel, make_ioc, make_fok,
  make_invalid,
}

-- `n` rounds, with the index of each; the orders of the rounds in their order.
unfoldable pub rounds :
    {G : Type 0} → (ℕ → G → Option (Order × G)) → ℕ → ℕ → G → Option (List Order × G)
rounds body zero i g = some ([], g)
rounds body (suc n) i g = do
  (o, g1) ← body i g
  (os, g2) ← rounds body n (suc i) g1
  some (o ∷ os, g2)

abbrev pub seed_count : {D : Type 0} → GeneratorConfig D → ℕ
seed_count cfg = min (cfg.count / 10) 5000

module _ {D R : Type 0} (fl : Floating D) (rn : Randomness D R) where
  -- The constructor.
  abbrev pub new_generator : GeneratorConfig D → OrderGenerator R
  new_generator cfg = record { rng = rn.seeded cfg.seed; id_counter = 0; resting = [] }

  unfoldable pub draw_symbol :
      GeneratorConfig D → OrderGenerator R → Option (String × OrderGenerator R)
  draw_symbol cfg g =
      let (i, r) = rn.uniform_int 0 (sub64 (length cfg.symbols) 1) g.rng in
      get_elem? cfg.symbols i >>= λ sym. some (sym, record g { rng = r })

  -- A round of the loop that seeds the book.
  unfoldable pub seed_order :
      GeneratorConfig D → ℕ → OrderGenerator R → Option (Order × OrderGenerator R)
  seed_order cfg i g = draw_symbol cfg g >>= λ (sym, g1).
      let (o, g2) = make_limit fl rn sym i g1 in some (o, track sym o.id g2)

  -- A limit order in place of a cancel, where there was nothing to cancel.
  unfoldable pub cancel_or_limit :
      String → ℕ → Option Order × OrderGenerator R → Order × OrderGenerator R
  cancel_or_limit sym ts (some o, g) = (o, g)
  cancel_or_limit sym ts (none, g) =
      let (o, g') = make_limit fl rn sym ts g in (o, track sym o.id g')

  -- The choice among the kinds of orders, by the drawn number.
  unfoldable pub pick_order :
      GeneratorConfig D → D → String → ℕ → OrderGenerator R → Option (Order × OrderGenerator R)
  pick_order cfg r sym ts g =
      let t_limit = cfg.frac_limit in
      let t_market = fl.plus t_limit cfg.frac_market in
      let t_cancel = fl.plus t_market cfg.frac_cancel in
      let t_ioc = fl.plus t_cancel cfg.frac_ioc in
      let t_fok = fl.plus t_ioc cfg.frac_fok in
      if fl.below r t_limit
      then (let (o, g') = make_limit fl rn sym ts g in
          some (o, if ltb (length g'.resting) 50000 then track sym o.id g' else g'))
      else if fl.below r t_market
      then some (make_market fl rn sym ts g)
      else if fl.below r t_cancel
      then (make_cancel fl rn ts g >>= λ c. some (cancel_or_limit sym ts c))
      else if fl.below r t_ioc
      then some (make_ioc fl rn sym ts g)
      else if fl.below r t_fok
      then some (make_fok fl rn sym ts g)
      else some (make_invalid fl rn sym ts g)

  -- A round of the main loop.
  unfoldable pub main_order :
      GeneratorConfig D → ℕ → OrderGenerator R → Option (Order × OrderGenerator R)
  main_order cfg i g = draw_symbol cfg g >>= λ (sym, g1).
      let (r, rng) = rn.uniform_real (fl.literal "0.0") (fl.literal "1.0") g1.rng in
      pick_order cfg r sym i (record g1 { rng = rng })

  unfoldable pub generate : GeneratorConfig D → Option (List Order)
  generate cfg = do
    (seeds, g1) ← rounds (seed_order cfg) (seed_count cfg) 0 (new_generator cfg)
    (os, g2) ← rounds (main_order cfg) (cfg.count - seed_count cfg) (seed_count cfg) g1
    some (seeds ++ os)
