-- ===== src/OrderBook/Drained.antt =====
-- What the drain of the opposite side leaves, and the book that it runs in.
use astra_exchange.Base.{ℕ, ◌≡◌, refl, ◌⊎◌, false, arith, min}
use astra_exchange.Types.{Side, buy, sell, Order}
use astra_exchange.OrderBook.Defs.{OrderBook, Crosses, Drain, best_passes}
use astra_exchange.OrderBook.Match.{levels, opposite, drain_for, drained_book}
use astra_exchange.OrderBook.Valid.{BookValid, Fresh, open_qty}
use astra_exchange.OrderBook.Drain.{Good, start}
use astra_exchange.OrderBook.Ledger.{
  Ledger, traded_qty, crossing_qty, drain_side-Ledger, drain_side-stops,
}
use astra_exchange.OrderBook.Places.{Placed, drain_side-Placed}
use astra_exchange.OrderBook.Sides.{
  Apart-sub, levels-SideValid, levels-in_word, levels-SideIndexed, levels-Apart,
  with_levels-BookValid,
}

-- The order came unfilled, and its quantity fits a word: the loop may start.
pub start-Good :
    (b : OrderBook) (o : Order)
    → BookValid b
    → Fresh o
    → Good (opposite o.side) (start (levels (opposite o.side) b) o b.index)
start-Good b o v f = record {
  valid = levels-SideValid (opposite o.side) v;
  in_word = levels-in_word (opposite o.side) v;
  bounded = record { filled_le = omega (arith, f.unfilled); in_word = f.in_word };
}

opposite-opposite : (s : Side) → opposite (opposite s) ≡ s
opposite-opposite buy = refl
opposite-opposite sell = refl

-- What a drain leaves, gathered for the book it runs in.
pub record Drained (c : Crosses) (b : OrderBook) (o : Order) (d : Drain) : Type 0 where
  pub good : Good (opposite o.side) d
  pub ledger : Ledger c (levels (opposite o.side) b) o d
  pub qty : traded_qty d.trades ≡ min (open_qty o) (crossing_qty c (levels (opposite o.side) b))
  pub placed :
      Placed
        (opposite o.side)
        (levels (opposite o.side) b)
        (levels (opposite (opposite o.side)) b)
        b.index
        d
  pub stopped : (open_qty d.incoming ≡ 0) ⊎ (best_passes c d.side ≡ false)

pub drain_for-Drained :
    (now : ℕ → ℕ) (c : Crosses) (b : OrderBook) (o : Order)
    → BookValid b
    → Fresh o
    → Drained c b o (drain_for now c b o)
unfolding drain_for
drain_for-Drained now c b o v f =
    let d : Side = opposite o.side in
    let g = start-Good b o v f in
    let r = drain_side-Ledger b.symbol now c d (levels d b) o b.index g in
    record {
      good = r.0;
      ledger = r.1;
      qty = r.2;
      placed =
          drain_side-Placed b.symbol now c d (levels d b) (levels (opposite d) b) b.index o g
            (levels-SideIndexed d v) (levels-SideIndexed (opposite d) v) v.index_once;
      stopped = drain_side-stops b.symbol now c d (levels d b) o b.index g;
    }

-- The book that a drain leaves is valid.
pub drained_book-BookValid :
    (c : Crosses) (b : OrderBook) (o : Order) (d : Drain)
    → BookValid b
    → Drained c b o d
    → BookValid (drained_book b o d)
drained_book-BookValid c b o d v r =
    let s : Side = opposite o.side in
    with_levels-BookValid s d.side d.index b v (record {
      valid = r.good.valid;
      in_word = r.good.in_word;
      here = r.placed.here;
      there = r.placed.there;
      apart =
          Apart-sub s (levels s b) d.side (levels (opposite s) b) r.placed.keys (levels-Apart s v);
      once = r.placed.once;
    })
