-- ===== src/OrderBook/Drain.antt =====
-- The loop of `drainSide` on a valid side: it ends by its own test, and whatever each round keeps
-- holds at its end.
use astra_exchange.Base.{
  ℕ, ◌+◌, ◌<◌, ◌≤◌, ◌≡◌, refl, String, true, false, List, [], ◌∷◌, arith, length, sum_by, All,
  u64_mod, min,
}
use astra_exchange.Base.Int.{ℤ}
use astra_exchange.Base.Loop.{while_inv}
use astra_exchange.Types.{Side, Order}
use astra_exchange.PriceLevel.{PriceLevel}
use astra_exchange.OrderBook.Defs.{
  Levels, Crosses, Drain, drain_test, drain_body, keep_level, side_count, drain_side,
}
use astra_exchange.Index.{Index}
use astra_exchange.OrderBook.Valid.{Rests, LevelValid, SideValid, KeysAfter, side_qty, open_qty}
use astra_exchange.OrderBook.Round.{
  Round, completes, reduces, Bounded, with_orders, reduced, taken, drain_body-Round,
}

-- A level that keeps its valid orders is valid, and one that has none left goes.
keep_level-SideValid :
    (d : Side) (p : ℤ) (l : PriceLevel) (os : List Order) (rest : Levels)
    → l.price ≡ p
    → All (Rests d p) os
    → KeysAfter d p rest
    → SideValid d rest
    → SideValid d (keep_level p (with_orders os l) rest)
unfolding keep_level
keep_level-SideValid d p l [] rest e r k v = v
keep_level-SideValid d p l (o ∷ os) rest e r k v =
    (record { keyed = e; nonempty = λ h. cc; resting = r; totalled = refl }, k, v)

pub keep_level-qty :
    (p : ℤ) (l : PriceLevel) (os : List Order) (rest : Levels)
    → side_qty (keep_level p (with_orders os l) rest) ≡ sum_by open_qty os + side_qty rest
unfolding keep_level
keep_level-qty p l [] rest = omega arith
keep_level-qty p l (o ∷ os) rest = refl

keep_level-count :
    (p : ℤ) (l : PriceLevel) (os : List Order) (rest : Levels)
    → side_count (keep_level p (with_orders os l) rest) ≡ length os + side_count rest
unfolding keep_level
keep_level-count p l [] rest = omega arith
keep_level-count p l (o ∷ os) rest = refl

-- What the loop needs of its state, and keeps.
pub record Good (d : Side) (s : Drain) : Type 0 where
  pub valid : SideValid d s.side
  pub in_word : side_qty s.side < u64_mod
  pub bounded : Bounded s

-- What is left to do: the orders of the side, and one more round while something is wanted.
abbrev measure : Drain → ℕ
measure s = side_count s.side + min 1 (open_qty s.incoming)

-- The state in which the loop starts.
abbrev pub start : Levels → Order → Index → Drain
start side o ix = record { trades = []; side = side; incoming = o; index = ix; released = [] }

module _ (symbol : String) (now : ℕ → ℕ) (c : Crosses) (d : Side) where
  completes-Good :
      (s t : Drain) (p : ℤ) (l : PriceLevel) (rest : Levels) (maker : Order) (os : List Order)
      → s.side ≡ (p, l) ∷ rest
      → l.orders ≡ maker ∷ os
      → t.side ≡ keep_level p (with_orders os l) rest
      → t.incoming ≡ taken (open_qty maker) s.incoming
      → open_qty maker ≤ open_qty s.incoming
      → Good d s
      → Good d t × (measure t < measure s)
  completes-Good s t p l rest maker os f o e i h g =
      let v : SideValid d ((p, l) ∷ rest) = rw f at g.valid in
      let r : All (Rests d p) (maker ∷ os) = rw o at v.0.resting in
      let q : side_qty s.side ≡ open_qty maker + sum_by open_qty os + side_qty rest =
        rw (f, o) refl in
      let n : side_count s.side ≡ length os + side_count rest + 1 = rw (f, o) (omega arith) in
      (
        record {
          valid = rw e (keep_level-SideValid d p l os rest v.0.keyed r.1 v.1 v.2);
          in_word = rw (e, keep_level-qty p l os rest) (omega (arith, g.in_word));
          bounded = rw i (record { filled_le = omega arith; in_word = g.bounded.in_word });
        },
        rw (e, i, keep_level-count p l os rest) (omega arith),
      )

  reduces-Good :
      (s t : Drain) (p : ℤ) (l : PriceLevel) (rest : Levels) (maker : Order) (os : List Order)
      → s.side ≡ (p, l) ∷ rest
      → l.orders ≡ maker ∷ os
      → t.side ≡ (p, with_orders (reduced (open_qty s.incoming) maker ∷ os) l) ∷ rest
      → t.incoming ≡ taken (open_qty s.incoming) s.incoming
      → open_qty s.incoming < open_qty maker
      → 0 < open_qty s.incoming
      → Good d s
      → Good d t × (measure t < measure s)
  reduces-Good s t p l rest maker os f o e i h w g =
      let v : SideValid d ((p, l) ∷ rest) = rw f at g.valid in
      let r : All (Rests d p) (maker ∷ os) = rw o at v.0.resting in
      let q : side_qty s.side ≡ open_qty maker + sum_by open_qty os + side_qty rest =
        rw (f, o) refl in
      let n : side_count s.side ≡ length os + side_count rest + 1 = rw (f, o) (omega arith) in
      let r' : Rests d p (reduced (open_qty s.incoming) maker) = record {
        on_side = r.0.on_side;
        at_price = r.0.at_price;
        is_open = omega arith;
        in_word = r.0.in_word;
      } in
      let l' : LevelValid d p (with_orders (reduced (open_qty s.incoming) maker ∷ os) l) = record {
        keyed = v.0.keyed;
        nonempty = λ h. cc;
        resting = (r', r.1);
        totalled = refl;
      } in
      (
        record {
          valid = rw e (l', v.1, v.2);
          in_word = rw e (omega (arith, g.in_word));
          bounded = rw i (record { filled_le = omega arith; in_word = g.bounded.in_word });
        },
        rw (e, i) (omega arith),
      )

  Round-Good :
      (s t : Drain) → Round symbol now c s t → Good d s → Good d t × (measure t < measure s)
  Round-Good s t (completes p l rest maker os m h e) g =
      completes-Good s t p l rest maker os m.side_eq m.orders_eq (rw e refl) (rw e refl) h g
  Round-Good s t (reduces p l rest maker os m h e) g =
      reduces-Good s t p l rest maker os m.side_eq m.orders_eq (rw e refl) (rw e refl) h m.wanted g

  -- The rule for the whole loop: the end has what each round keeps, and the test fails there.
  pub drain_side-keeps {κ} :
      (P : Drain → Type κ)
      → ((s t : Drain) → Good d s → P s → Round symbol now c s t → P t)
      → (side : Levels) (o : Order) (ix : Index) → Good d (start side o ix)
      → P (start side o ix)
      → let t = drain_side symbol now c side o ix in Good d t × P t × (drain_test c t ≡ false)
  unfolding drain_side
  drain_side-keeps P keep side o ix g h =
      let r =
        while_inv (drain_test c) (drain_body symbol now) (λ s. Good d s × P s) measure step
          (side_count side + 2) (start side o ix) (omega arith) (g, h) in
      (r.0.0, r.0.1, r.1)
    where
      step :
          (s : Drain)
          → Good d s × P s
          → drain_test c s ≡ true
          → (Good d (drain_body symbol now s) × P (drain_body symbol now s))
            × (measure (drain_body symbol now s) < measure s)
      step s gp h =
          let r = drain_body-Round symbol now c d s gp.0.valid gp.0.in_word gp.0.bounded h in
          let k = Round-Good s (drain_body symbol now s) r gp.0 in
          ((k.0, keep s (drain_body symbol now s) gp.0 gp.1 r), k.1)
