-- ===== src/Interactive/Replays/Tests.antt =====
-- The program with a file of one order and one line that is none.
use astra_exchange.Base.{
  ℕ, ◌+◌, String, Option, none, some, List, [], ◌∷◌, str_eq, if◌then◌else◌, true, false, min,
}
use astra_exchange.Base.Int.{ℤ, pos}
use astra_exchange.Interactive.Defs.{Arguments}

abbrev stoull : String → Option ℕ
stoull s = if str_eq s "7" then some 7 else none

abbrev fixed_price : String → Option ℤ
fixed_price s = if str_eq s "100.5" then some (pos 1005000) else none

abbrev print : {A : Type 0} → A → String
print x = "number"

abbrev column : ℕ → String → String
column width s = s

abbrev clock : ℕ → ℕ → ℕ
clock call k = k

abbrev begins : ℕ → ℕ
begins n = min n 100

abbrev ends : ℕ → ℕ
ends n = min (n + 1) 100

abbrev arguments : Arguments
arguments = record {
  csv_path = "orders.csv";
  symbols = "AAPL" ∷ [];
  do_replay = true;
  do_interactive = false;
  print_trades = true;
  print_book = false;
  verbose = true;
}

abbrev file : Option (List String)
file = some (
    "timestamp,order_id,symbol,side,type,price,quantity" ∷ "7,7,AAPL,BUY,LIMIT,100.5,7" ∷ "no order"
    ∷ [])
