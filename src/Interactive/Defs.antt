-- ===== src/Interactive/Defs.antt =====
-- The program's arguments, and the loop over the lines.
use astra_exchange.Base.{
  ℕ, ◌||◌, String, Bool, true, false, Option, none, some, List, [], ◌∷◌, ◌++◌, map, length, str_eq,
  if◌then◌else◌,
}
use astra_exchange.Base.Int.{ℤ}
use astra_exchange.Types.{Order, Trade}
use astra_exchange.MatchingEngine.Defs.{MatchingEngine, new_engine, find_book, submit_order}
use astra_exchange.CsvParser.Defs.{parse_line}
use astra_exchange.Bench.Defs.{split_comma}
use astra_exchange.Benchmark.Defs.{register_all}
use astra_exchange.Feed.EventLog.{Event, EventLog, log_trade}
use astra_exchange.Feed.MarketData.{publish}

pub record Arguments : Type 0 where
  pub csv_path : String
  pub symbols : List String
  pub do_replay : Bool
  pub do_interactive : Bool
  pub print_trades : Bool
  pub print_book : Bool
  pub verbose : Bool

abbrev pub no_arguments : Arguments
no_arguments = record {
  csv_path = "";
  symbols = "AAPL" ∷ "MSFT" ∷ "TSLA" ∷ "NVDA" ∷ [];
  do_replay = false;
  do_interactive = false;
  print_trades = false;
  print_book = false;
  verbose = false;
}

-- An option without a value. An argument that is none of them is passed over.
abbrev pub switch : String → Arguments → Arguments
switch a args =
    if str_eq a "--interactive"
    then record args { do_interactive = true }
    else if str_eq a "--trades"
    then record args { print_trades = true }
    else if str_eq a "--book"
    then record args { print_book = true }
    else if str_eq a "--verbose"
    then record args { verbose = true }
    else args

unfoldable pub read_arguments : List String → Arguments → Arguments
read_arguments [] args = args
read_arguments (a ∷ []) args = switch a args
read_arguments (a ∷ v ∷ rest) args =
    let after = read_arguments rest in
    let next = read_arguments (v ∷ rest) in
    if str_eq a "--replay"
    then after (record args { do_replay = true; csv_path = v })
    else if str_eq a "--symbols"
    then after (record args { symbols = split_comma v })
    else next (switch a args)

-- What the program does for its arguments; the usage alone is a failure.
pub data Action : Type 0 where
  usage : Action
  replay interactive : Arguments → Action

unfoldable pub choose_action : List String → Action
choose_action [] = usage
choose_action (a ∷ rest) =
    let args = read_arguments (a ∷ rest) no_arguments in
    if args.do_replay then replay args else if args.do_interactive then interactive args else usage

abbrev pub exit_status : Action → ℕ
exit_status usage = 1
exit_status _ = 0

-- What a session writes: an event of the log, a line of the feed, or a line to the standard error.
pub data Output : Type 0 where
  event : Event → Output
  text : String → Output
  error_text : String → Output

pub record Session : Type 0 where
  pub engine : MatchingEngine
  pub screen : List Output

abbrev pub new_session : List String → Session
new_session symbols = record { engine = register_all symbols new_engine; screen = [] }

-- The default sink.
abbrev pub default_log : EventLog (List Output)
default_log = record { sink = λ e screen. screen ++ event e ∷ [] }

module _ (stoull : String → Option ℕ) (fixed_price : String → Option ℤ) (print : ℕ → String)
    (print_price : ℤ → String) (fixed_string : ℤ → String) (column : ℕ → String → String)
    (clock : ℕ → ℕ → ℕ) (now : ℕ → ℕ) where
  -- The time of an event is read when so many outputs are written.
  unfoldable pub log_trades : List Trade → List Output → List Output
  log_trades [] screen = screen
  log_trades (t ∷ ts) screen =
      log_trades ts (log_trade print print_price (now (length screen)) default_log t screen)

  unfoldable pub enter_order : Order → Session → Session
  enter_order o s =
      let r = submit_order (clock s.engine.orders_processed) s.engine o in
      let logged = log_trades r.result.trades s.screen in
      record {
        engine = r.engine;
        screen = elim (find_book o.symbol r.engine.books) [
          | some b ↦ logged ++ map text (publish print fixed_string column b r.result.trades 5)
          | none ↦ logged
        ];
      }

  unfoldable pub enter_line : String → Session → Session
  enter_line line s = elim (parse_line stoull fixed_price line) [
    | some o ↦ enter_order o s
    | none ↦ record s { screen = s.screen ++ error_text "parse error" ∷ [] }
  ]

  unfoldable pub run_lines : List String → Session → Session
  run_lines [] s = s
  run_lines (line ∷ lines) s =
      let rest = run_lines lines in
      if str_eq line "QUIT" || str_eq line "quit" then s else rest (enter_line line s)
