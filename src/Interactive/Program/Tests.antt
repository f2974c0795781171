-- ===== src/Interactive/Program/Tests.antt =====
-- A session on one symbol, from the arguments on.
use astra_exchange.Base.{
  ℕ, ◌≡◌, refl, String, Option, none, some, List, [], ◌∷◌, ◌++◌, map, str_eq, if◌then◌else◌, true,
}
use astra_exchange.Base.Int.{ℤ, pos}
use astra_exchange.CsvParser.Defs.{parse_line}
use astra_exchange.Benchmark.Defs.{new_run, run_orders}
use astra_exchange.Feed.EventLog.{trade_detail}
use astra_exchange.Generator.Samples.{whole}
use astra_exchange.Interactive.Defs.{
  Arguments, Output, text, no_arguments, interactive, choose_action, read_arguments,
}
use astra_exchange.Interactive.Session.{details, orders_of}
use astra_exchange.Interactive.Program.Defs.{greeting, talked, main_program}
use astra_exchange.Interactive.Program.Talks.{main_program-run_orders}
use astra_exchange.Bench.Defs.{split_comma}

abbrev stoull : String → Option ℕ
stoull s = if str_eq s "7" then some 7 else none

abbrev fixed_price : String → Option ℤ
fixed_price s = if str_eq s "100.5" then some (pos 1005000) else none

abbrev print : {A : Type 0} → A → String
print x = "number"

abbrev column : ℕ → String → String
column width s = s

abbrev clock : ℕ → ℕ → ℕ
clock call k = k

abbrev now : ℕ → ℕ
now n = n

abbrev arguments : List String
arguments = "--interactive" ∷ "--symbols" ∷ "AAPL" ∷ []

abbrev chosen : Arguments
chosen = record no_arguments { do_interactive = true; symbols = "AAPL" ∷ [] }

chooses : choose_action arguments ≡ interactive chosen
unfolding choose_action read_arguments split_comma
chooses = refl

abbrev input : List String
input = "7,7,AAPL,BUY,LIMIT,100.5,7" ∷ "no order" ∷ "QUIT" ∷ []

main_program-run_orders_example :
    (screen : List Output) × (main_program whole print print print print print print column now now
        clock now stoull fixed_price 5 "exchange" arguments none input
      ≡ some (talked (map text greeting ++ screen)))
    × (details screen
        ≡ map
            (trade_detail print print)
            (run_orders clock
              (new_run ("AAPL" ∷ []))
              (orders_of (parse_line stoull fixed_price) input)).all_trades)
main_program-run_orders_example =
    main_program-run_orders whole print print print print print print column now now clock now
      stoull fixed_price 5 "exchange" arguments chosen none input chooses
