-- ===== src/InvariantChecker/Defs.antt =====
-- The reports of include/benchmark/InvariantChecker.hpp and how they are made. How the standard
-- library prints a number is a parameter.
use Prim.Native.String.{◌++◌ as str_append}
use astra_exchange.Base.{
  ℕ, String, Bool, true, false, not, ◌&&◌, ◌||◌, Option, none, some, List, [], ◌∷◌, ◌++◌, length,
  ◌==◌, if◌then◌else◌,
}
use astra_exchange.Base.Int.{ℤ, pos, leb_ℤ, ltb_ℤ}
use astra_exchange.Types.{Trade}
use astra_exchange.PriceMap.{is_some}
use astra_exchange.OrderBook.Defs.{OrderBook}
use astra_exchange.OrderBook.Query.{
  BookLevel, best_bid, best_ask, crossed, top_bids, top_asks, total_bid_qty, total_ask_qty,
  check_invariants,
}

pub record InvariantViolation : Type 0 where
  pub symbol : String
  pub rule : String
  pub detail : String

pub record Report : Type 0 where
  pub passed : Bool
  pub violations : List InvariantViolation

-- `Report report{true, {}}`
abbrev pub passing : Report
passing = record { passed = true; violations = [] }

abbrev pub add_violation : InvariantViolation → Report → Report
add_violation v r = record { passed = false; violations = r.violations ++ v ∷ [] }

-- One `if` of the checks.
abbrev pub flag : Bool → InvariantViolation → Report → Report
flag broken v r = if broken then add_violation v r else r

abbrev pub violation : String → String → String → InvariantViolation
violation symbol rule detail = record { symbol = symbol; rule = rule; detail = detail }

-- `seen.insert(id).second` is false just where the id is in the set.
abbrev pub contains : ℕ → List ℕ → Bool
contains id [] = false
contains id (j ∷ seen) = (j == id) || contains id seen

abbrev pub join : Report → Report → Report
join c r = record { passed = c.passed && r.passed; violations = c.violations ++ r.violations }

unfoldable pub merge_from : Report → List Report → Report
merge_from c [] = c
merge_from c (r ∷ rs) = merge_from (join c r) rs

unfoldable pub merge : List Report → Report
merge rs = merge_from passing rs

-- `std::to_string` of a price and of an id, and how a stream prints the price as a `double`.
module _ (price_string : ℤ → String) (id_string : ℕ → String) (fixed_string : ℤ → String) where
  abbrev price_detail : ℤ → String
  price_detail p = str_append "price=" (price_string p)

  abbrev crossed_detail : Option ℤ → Option ℤ → String
  crossed_detail none ask = ""
  crossed_detail (some bid) none = ""
  crossed_detail (some bid) (some ask) =
      str_append (str_append "bid=" (fixed_string bid)) (str_append " ask=" (fixed_string ask))

  -- The loop over the levels of one side, with its two rules.
  unfoldable pub check_levels : String → String → String → List BookLevel → Report → Report
  check_levels symbol zero_rule empty_rule [] r = r
  check_levels symbol zero_rule empty_rule (l ∷ ls) r =
      check_levels symbol zero_rule empty_rule ls (
        flag (l.order_count == 0) (violation symbol empty_rule (price_detail l.price))
          (flag (l.qty == 0) (violation symbol zero_rule (price_detail l.price)) r))

  unfoldable pub check_book : OrderBook → Report
  check_book b =
      let bid = best_bid b in
      let ask = best_ask b in
      let r1 =
        flag (crossed bid ask) (violation b.symbol "best_bid_lt_best_ask" (crossed_detail bid ask))
          passing in
      let r2 =
        check_levels b.symbol "no_zero_qty_bid_level" "no_empty_bid_level" (top_bids 10000 b) r1 in
      let r3 =
        check_levels b.symbol "no_zero_qty_ask_level" "no_empty_ask_level" (top_asks 10000 b) r2 in
      let r4 =
        flag ((is_some bid || is_some ask) && (total_bid_qty b == 0) && (total_ask_qty b == 0))
          (violation b.symbol "resting_volume_nonzero" "book reports levels but zero total volume")
          r3 in
      flag (not (check_invariants b))
        (violation b.symbol "internal_structural_invariant" "OrderBook::checkInvariants() failed")
        r4

  abbrev trade_detail : Trade → String
  trade_detail t =
      str_append (str_append "trade id maker=" (id_string t.maker_order_id))
        (str_append " price=" (price_string t.price))

  -- The checks of one trade that need no context.
  unfoldable pub check_trade : Trade → Report → Report
  check_trade t r =
      flag (t.quantity == 0)
        (violation t.symbol "trade_nonzero_qty" (str_append "maker=" (id_string t.maker_order_id)))
        (flag (leb_ℤ t.price (pos 0)) (violation t.symbol "trade_positive_price" (trade_detail t))
          r)

  abbrev pub check_context : Trade → ℤ × ℤ → Report → Report
  check_context t (bid, ask) r =
      flag (ltb_ℤ (pos 0) bid && ltb_ℤ (pos 0) ask && leb_ℤ ask bid)
        (violation t.symbol "bid_lt_ask_at_trade" (
          str_append (str_append "bid=" (price_string bid))
            (str_append " ask=" (price_string ask))))
        r

  -- The loop of `checkTrades` where the context has another size, and is not read.
  unfoldable pub check_alone : List Trade → Report → Report
  check_alone [] r = r
  check_alone (t ∷ ts) r = check_alone ts (check_trade t r)

  -- The same loop where the context has one entry for each trade.
  unfoldable pub check_both : List Trade → List (ℤ × ℤ) → Report → Report
  check_both [] cs r = r
  check_both (t ∷ ts) [] r = check_both ts [] (check_trade t r)
  check_both (t ∷ ts) (c ∷ cs) r = check_both ts cs (check_context t c (check_trade t r))

  unfoldable pub check_trades : List Trade → List (ℤ × ℤ) → Report
  check_trades ts cs =
      if length cs == length ts then check_both ts cs passing else check_alone ts passing

  unfoldable pub check_ids_from : List ℕ → List ℕ → Report → Report
  check_ids_from seen [] r = r
  check_ids_from seen (id ∷ ids) r = check_ids_from (id ∷ seen) ids (
      flag (contains id seen)
        (violation "global" "unique_order_ids" (str_append "duplicate id=" (id_string id))) r)

  unfoldable pub check_unique_ids : List ℕ → Report
  check_unique_ids ids = check_ids_from [] ids passing
