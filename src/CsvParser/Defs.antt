-- ===== src/CsvParser/Defs.antt =====
-- The parser of include/parser/CsvParser.hpp. The conversions of the standard library are parameters, with
-- `none` for an exception; the lines of the file are given.
use Prim.Native.Char.{Char, code}
use Prim.Native.String.{◌++◌ as str_append}
use astra_exchange.Base.{
  ℕ, ◌>>=◌, ◌==◌, String, Bool, true, false, Option, none, some, List, [], ◌∷◌, ◌++◌, str_eq,
  if◌then◌else◌, add64,
}
use astra_exchange.Base.Int.{ℤ}
use astra_exchange.Types.{
  Side, buy, sell, OrderType, limit, market, cancel, ioc, fok, Order, new_order,
}

-- A character in front of the first token.
abbrev pub push_front : Char → List String → List String
push_front c [] = String.◌∷◌ c String.[] ∷ []
push_front c (t ∷ ts) = String.◌∷◌ c t ∷ ts

-- The loop of `getline`: a delimiter ends a token, and the end of the text ends one that has begun.
unfoldable pub split : String → Char → List String
split String.[] d = []
split (String.◌∷◌ c s) d =
    let rest = split s d in if code c == code d then "" ∷ rest else push_front c rest

abbrev pub side_of : String → Option Side
side_of s = if str_eq s "BUY" then some buy else if str_eq s "SELL" then some sell else none

abbrev pub type_of : String → Option OrderType
type_of s =
    if str_eq s "LIMIT"
    then some limit
    else if str_eq s "MARKET"
    then some market
    else if str_eq s "CANCEL"
    then some cancel
    else if str_eq s "IOC"
    then some ioc
    else if str_eq s "FOK"
    then some fok
    else none

pub record ParseError : Type 0 where
  pub line : ℕ
  pub message : String

pub record ParseResult : Type 0 where
  pub orders : List Order
  pub errors : List ParseError

-- The local variables of the loop of `parseFile`.
pub record Scan : Type 0 where
  pub result : ParseResult
  pub line_num : ℕ
  pub header_skipped : Bool

-- `std::stoull`, and `toFixedPrice` of `std::stod`.
module _ (stoull : String → Option ℕ) (fixed_price : String → Option ℤ) where
  -- The fields in their order. Those after the seventh are not read.
  unfoldable pub parse_fields : List String → Option Order
  parse_fields (f0 ∷ f1 ∷ f2 ∷ f3 ∷ f4 ∷ f5 ∷ f6 ∷ fs) = do
    ts ← stoull f0
    id ← stoull f1
    side ← side_of f3
    type ← type_of f4
    price ← fixed_price f5
    qty ← stoull f6
    some (new_order id f2 side type price qty ts)
  parse_fields _ = none

  unfoldable pub parse_line : String → Option Order
  parse_line line = parse_fields (split line ",")

  -- One round of the loop of `parseFile`.
  unfoldable pub scan_line : String → Scan → Scan
  scan_line line s =
      let n = add64 s.line_num 1 in
      if str_eq line ""
      then record s { line_num = n }
      else if s.header_skipped
      then record s {
        line_num = n;
        result = elim (parse_line line) [
          | some o ↦ record s.result { orders = s.result.orders ++ o ∷ [] }
          | none ↦ record s.result {
            errors =
                s.result.errors
                ++ record { line = n; message = str_append "failed to parse: " line } ∷ [];
          }
        ];
      }
      else record s { line_num = n; header_skipped = true }

  unfoldable pub scan_lines : List String → Scan → Scan
  scan_lines [] s = s
  scan_lines (line ∷ lines) s = scan_lines lines (scan_line line s)

  -- `none` is a file that cannot be opened.
  unfoldable pub parse_file : String → Option (List String) → ParseResult
  parse_file path none = record {
    orders = [];
    errors = record { line = 0; message = str_append "cannot open file: " path } ∷ [];
  }
  parse_file path (some lines) =
      (scan_lines lines (record {
        result = record { orders = []; errors = [] };
        line_num = 0;
        header_skipped = false;
      })).result
