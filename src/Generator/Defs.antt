-- ===== src/Generator/Defs.antt =====
-- The configuration, the state, and one function for each kind of order. `none` stands for a read beyond
-- the end of a vector.
use astra_exchange.Base.{
  ℕ, ◌-◌, ◌>>=◌, ◌==◌, String, Bool, not, Option, none, some, List, [], ◌∷◌, ◌++◌, length,
  get_elem?, set, add64, str_eq, if◌then◌else◌,
}
use astra_exchange.Base.Int.{pos}
use astra_exchange.Types.{
  Side, buy, sell, OrderType, limit, market, cancel, ioc, fok, Order, new_order,
}
use astra_exchange.Floating.{Floating, Randomness, to_fixed_price}

pub record GeneratorConfig (D : Type 0) : Type 0 where
  pub count : ℕ
  pub symbols : List String
  pub seed : ℕ
  pub frac_limit : D
  pub frac_market : D
  pub frac_cancel : D
  pub frac_ioc : D
  pub frac_fok : D
  pub frac_invalid : D

pub record SymbolParams (D : Type 0) : Type 0 where
  pub mid_price : D
  pub half_spread : D
  pub tick_size : D

-- `resting` are the symbol and the id of orders that a cancel may name.
pub record OrderGenerator (R : Type 0) : Type 0 where
  pub rng : R
  pub id_counter : ℕ
  pub resting : List (String × ℕ)

abbrev pub next_id : {R : Type 0} → OrderGenerator R → ℕ × OrderGenerator R
next_id g = (add64 g.id_counter 1, record g { id_counter = add64 g.id_counter 1 })

abbrev pub track : {R : Type 0} → String → ℕ → OrderGenerator R → OrderGenerator R
track sym id g = record g { resting = g.resting ++ (sym, id) ∷ [] }

-- `back`, of a vector that is not empty.
abbrev pub back : {A : Type 0} → A → List A → A
back a [] = a
back a (x ∷ xs) = back x xs

abbrev pub pop_back : {A : Type 0} → List A → List A
pop_back [] = []
pop_back (x ∷ []) = []
pop_back (x ∷ y ∷ xs) = x ∷ pop_back (y ∷ xs)

-- The last element takes the place of the one that goes.
abbrev pub swap_remove : {A : Type 0} → ℕ → A → List A → List A
swap_remove i x xs = pop_back (set xs i (back x xs))

module _ {D R : Type 0} (fl : Floating D) (rn : Randomness D R) where
  abbrev symbol_params : String → String → String → SymbolParams D
  symbol_params mid half tick = record {
    mid_price = fl.literal mid;
    half_spread = fl.literal half;
    tick_size = fl.literal tick;
  }

  unfoldable pub default_symbol_params : String → SymbolParams D
  default_symbol_params sym =
      if str_eq sym "AAPL"
      then symbol_params "185.0" "0.50" "0.01"
      else if str_eq sym "MSFT"
      then symbol_params "415.0" "0.75" "0.01"
      else if str_eq sym "NVDA"
      then symbol_params "875.0" "2.00" "0.01"
      else if str_eq sym "TSLA"
      then symbol_params "180.0" "1.00" "0.01"
      else symbol_params "100.0" "0.50" "0.01"

  -- Above or below the middle, rounded to the tick, and at least a tick.
  unfoldable pub tick_price : Bool → SymbolParams D → D → D
  tick_price above params offset =
      let raw =
        if above then fl.plus params.mid_price offset else fl.minus params.mid_price offset in
      let price = fl.times (fl.rounded (fl.divided raw params.tick_size)) params.tick_size in
      if fl.at_most price (fl.literal "0.0") then params.tick_size else price

  abbrev pub side_of_draw : Bool → Side
  side_of_draw b = if b then buy else sell

  unfoldable pub make_limit : String → ℕ → OrderGenerator R → Order × OrderGenerator R
  make_limit sym ts g =
      let params = default_symbol_params sym in
      let (b, r1) = rn.bernoulli (fl.literal "0.5") g.rng in
      let (offset, r2) = rn.uniform_real (fl.literal "0.0") params.half_spread r1 in
      let (aggressive, r3) = rn.bernoulli (fl.literal "0.30") r2 in
      let (beyond, r4) =
        rn.uniform_real (fl.literal "0.0") (fl.times params.half_spread (fl.literal "2")) r3 in
      let priced : D × R =
        if aggressive
        then (tick_price b params beyond, r4)
        else (tick_price (not b) params offset, r3) in
      let (qty, r6) = rn.uniform_int 1 500 priced.1 in
      let (id, g') = next_id (record g { rng = r6 }) in
      (new_order id sym (side_of_draw b) limit (to_fixed_price fl priced.0) qty ts, g')

  unfoldable pub make_market : String → ℕ → OrderGenerator R → Order × OrderGenerator R
  make_market sym ts g =
      let (b, r1) = rn.bernoulli (fl.literal "0.5") g.rng in
      let (qty, r2) = rn.uniform_int 1 200 r1 in
      let (id, g') = next_id (record g { rng = r2 }) in
      (new_order id sym (side_of_draw b) market (pos 0) qty ts, g')

  -- The null pointer where nothing rests.
  unfoldable pub make_cancel : ℕ → OrderGenerator R → Option (Option Order × OrderGenerator R)
  make_cancel ts g =
      if length g.resting == 0
      then some (none, g)
      else let (idx, r) = rn.uniform_int 0 (length g.resting - 1) g.rng in
        get_elem? g.resting idx >>= λ x. some (
          some (new_order x.1 x.0 buy cancel (pos 0) 1 ts),
          record g { rng = r; resting = swap_remove idx x g.resting },
        )

  -- An order whose price is beyond the middle, within `reach` half spreads.
  unfoldable pub make_crossing :
      OrderType → String → ℕ → String → ℕ → OrderGenerator R → Order × OrderGenerator R
  make_crossing type reach most sym ts g =
      let params = default_symbol_params sym in
      let (b, r1) = rn.bernoulli (fl.literal "0.5") g.rng in
      let (offset, r2) =
        rn.uniform_real (fl.literal "0.0") (fl.times params.half_spread (fl.literal reach)) r1 in
      let (qty, r3) = rn.uniform_int 1 most r2 in
      let (id, g') = next_id (record g { rng = r3 }) in
      (
        new_order id sym (side_of_draw b) type (to_fixed_price fl (tick_price b params offset)) qty
            ts,
        g',
      )

  unfoldable pub make_ioc : String → ℕ → OrderGenerator R → Order × OrderGenerator R
  make_ioc = make_crossing ioc "3" 150

  unfoldable pub make_fok : String → ℕ → OrderGenerator R → Order × OrderGenerator R
  make_fok = make_crossing fok "2" 80

  unfoldable pub make_invalid : String → ℕ → OrderGenerator R → Order × OrderGenerator R
  make_invalid sym ts g =
      let (kind, r) = rn.uniform_int 0 2 g.rng in
      let (id, g') = next_id (record g { rng = r }) in
      let price = to_fixed_price fl (fl.literal "100.0") in
      if kind == 0
      then (new_order id sym buy limit price 0 ts, g')
      else if kind == 1
      then (new_order id sym sell limit (pos 0) 100 ts, g')
      else (new_order id "INVALID" buy limit price 100 ts, g')
