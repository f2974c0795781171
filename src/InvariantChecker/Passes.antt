-- ===== src/InvariantChecker/Passes.antt =====
-- When the reports pass.
use astra_exchange.Base.{
  ℕ, zero, suc, ◌+◌, ◌<◌, ◌≡◌, ◌≢◌, refl, ◌∙◌, String, true, false, ◌&&◌, ◌||◌, List, [], ◌∷◌,
  arith, length, ◌==◌, All, sum_by, u64_mod,
}
use astra_exchange.Base.Int.{ℤ}
use astra_exchange.Types.{Side, buy, sell, Order}
use astra_exchange.PriceLevel.{PriceLevel, order_count}
use astra_exchange.PriceMap
use astra_exchange.PriceMap.{is_some}
use astra_exchange.OrderBook.Defs.{OrderBook, Levels}
use astra_exchange.OrderBook.Query.{
  best_bid, best_ask, crossed, top_levels, top_bids, top_asks, add_totals, total_bid_qty,
  total_ask_qty,
}
use astra_exchange.OrderBook.Valid.{
  Rests, LevelValid, SideValid, BookValid, level_qty, side_qty, open_qty,
}
use astra_exchange.OrderBook.Checks.{check_invariants-BookValid, first_key-crossed}
use astra_exchange.InvariantChecker.Defs.{Report, passing, check_levels, check_book}

orders_pos :
    (s : Side) (p : ℤ) (os : List Order)
    → os ≢ []
    → All (Rests s p) os
    → (0 < sum_by open_qty os) × (0 < length os)
orders_pos s p [] n a = absurd (n refl)
orders_pos s p (o ∷ os) n a = (omega (arith, a.0.is_open), omega arith)

-- A valid level holds something.
level_qty-pos :
    (s : Side) (p : ℤ) (l : PriceLevel)
    → LevelValid s p l
    → (0 < level_qty l) × (0 < length l.orders)
level_qty-pos s p l v = orders_pos s p l.orders v.nonempty v.resting

add_totals-side_qty :
    (s : Side) (m : Levels) (total : ℕ)
    → SideValid s m
    → total + side_qty m < u64_mod
    → add_totals total m ≡ total + side_qty m
unfolding add_totals
add_totals-side_qty s [] total v h = omega arith
add_totals-side_qty s ((p, l) ∷ m) total v h =
    ground (arith, v.0.totalled, add_totals-side_qty s m (total + level_qty l) v.2)

module _ (price_string : ℤ → String) (id_string : ℕ → String) (fixed_string : ℤ → String) where
  check_levels-SideValid :
      (s : Side) (n : ℕ) (m : Levels) (symbol zero_rule empty_rule : String) (r : Report)
      → SideValid s m
      → check_levels price_string id_string fixed_string symbol zero_rule empty_rule
          (top_levels n m)
          r
        ≡ r
  unfolding check_levels top_levels order_count
  check_levels-SideValid s zero m symbol zero_rule empty_rule r v = refl
  check_levels-SideValid s (suc n) [] symbol zero_rule empty_rule r v = refl
  check_levels-SideValid s (suc n) ((p, l) ∷ m) symbol zero_rule empty_rule r v =
      let h = level_qty-pos s p l v.0 in
      let e : (length l.orders == 0) ≡ false = ground (arith, h.1) in
      let f : (l.total_qty == 0) ≡ false = ground (arith, h.0, v.0.totalled) in
      rw (check_levels, e, f) (check_levels-SideValid s n m symbol zero_rule empty_rule r v.2)

  -- A side with a level has volume.
  side_qty-pos :
      (s : Side) (m : Levels)
      → SideValid s m
      → is_some (PriceMap.first_key m) ≡ true
      → 0 < side_qty m
  unfolding PriceMap.first_key
  side_qty-pos s [] v h = cc
  side_qty-pos s ((p, l) ∷ m) v h = omega (arith, (level_qty-pos s p l v.0).0)

  total_bid_qty-BookValid : (b : OrderBook) → BookValid b → total_bid_qty b ≡ side_qty b.bids
  unfolding total_bid_qty
  total_bid_qty-BookValid b v =
      add_totals-side_qty buy b.bids 0 v.bids_valid (omega (arith, v.bids_in_word)) ∙ omega arith

  total_ask_qty-BookValid : (b : OrderBook) → BookValid b → total_ask_qty b ≡ side_qty b.asks
  unfolding total_ask_qty
  total_ask_qty-BookValid b v =
      add_totals-side_qty sell b.asks 0 v.asks_valid (omega (arith, v.asks_in_word)) ∙ omega arith

  volume-BookValid :
      (b : OrderBook)
      → BookValid b
      → ((is_some (best_bid b) || is_some (best_ask b))
          && (total_bid_qty b == 0)
          && (total_ask_qty b == 0))
        ≡ false
  unfolding best_bid best_ask
  volume-BookValid b v = ground (
    arith,
    total_bid_qty-BookValid b v,
    total_ask_qty-BookValid b v,
    side_qty-pos buy b.bids v.bids_valid,
    side_qty-pos sell b.asks v.asks_valid,
  )

  crossed-BookValid : (b : OrderBook) → BookValid b → crossed (best_bid b) (best_ask b) ≡ false
  unfolding best_bid best_ask
  crossed-BookValid b v = first_key-crossed b.bids b.asks v.uncrossed

  -- `checkBook` passes on every valid book, and reports nothing.
  pub check_book-BookValid :
      (b : OrderBook) → BookValid b → check_book price_string id_string fixed_string b ≡ passing
  unfolding check_book top_bids top_asks
  check_book-BookValid b v =
      rw
        (
          crossed-BookValid b v,
          check_levels-SideValid buy 10000 b.bids b.symbol "no_zero_qty_bid_level"
              "no_empty_bid_level" passing v.bids_valid,
          check_levels-SideValid sell 10000 b.asks b.symbol "no_zero_qty_ask_level"
              "no_empty_ask_level" passing v.asks_valid,
          volume-BookValid b v,
          check_invariants-BookValid b v,
        )
        refl
