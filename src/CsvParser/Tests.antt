-- ===== src/CsvParser/Tests.antt =====
-- The parser at a concrete line, with conversions that read two texts each.
use astra_exchange.Base.{
  ℕ, ◌<◌, ◌≡◌, refl, u64_mod, String, Option, none, some, [], ◌∷◌, arith, str_eq, if◌then◌else◌,
}
use astra_exchange.Base.Int.{ℤ, pos}
use astra_exchange.Types.{buy, limit, Order, new_order, pending}
use astra_exchange.CsvParser.Defs.{split, parse_fields, parse_line}
use astra_exchange.CsvParser.Lines.{join, split-join, parse_line-join, parse_line-unfilled}

abbrev stoull : String → Option ℕ
stoull s = if str_eq s "7" then some 7 else if str_eq s "12" then some 12 else none

abbrev fixed_price : String → Option ℤ
fixed_price s = if str_eq s "100.5" then some (pos 1005000) else none

three_parts : split (join "," ("7" ∷ "" ∷ "BUY" ∷ [])) "," ≡ "7" ∷ "" ∷ "BUY" ∷ []
three_parts =
    split-join "," ("7" ∷ "" ∷ "BUY" ∷ []) ((refl, tt), (tt, ((refl, (refl, (refl, tt))), tt)))
      (λ e. cc)

parse_line-join_example :
    parse_line stoull fixed_price
      (join "," ("7" ∷ "12" ∷ "AAPL" ∷ "BUY" ∷ "LIMIT" ∷ "100.5" ∷ "7" ∷ "x" ∷ []))
    ≡ some (new_order 12 "AAPL" buy limit (pos 1005000) 7 7)
parse_line-join_example =
    parse_line-join stoull fixed_price "7" "12" "AAPL" "BUY" "LIMIT" "100.5" "7" ("x" ∷ []) 7 12 7
      buy limit (pos 1005000)
      (
        (refl, tt),
        (
          (refl, (refl, tt)),
          (
            (refl, (refl, (refl, (refl, tt)))),
            (
              (refl, (refl, (refl, tt))),
              (
                (refl, (refl, (refl, (refl, (refl, tt))))),
                ((refl, (refl, (refl, (refl, (refl, tt))))), ((refl, tt), ((refl, tt), tt))),
              ),
            ),
          ),
        ),
      )
      (λ e. cc) refl refl refl refl refl refl

stoull-bound : (s : String) (n : ℕ) → stoull s ≡ some n → n < u64_mod
stoull-bound s n e = ground (arith, e)

abbrev parsed : Order
parsed = record {
  id = 12;
  symbol = "AAPL";
  side = buy;
  type = limit;
  price = pos 1005000;
  quantity = 7;
  filled_qty = 0;
  timestamp = 7;
  status = pending;
}

parsed_unfilled : (parsed.filled_qty ≡ 0) × (parsed.quantity < u64_mod)
unfolding parse_line parse_fields split new_order
parsed_unfilled =
    parse_line-unfilled stoull fixed_price "7,12,AAPL,BUY,LIMIT,100.5,7" parsed stoull-bound refl
