-- ===== src/Interactive/Program/Defs.antt =====
-- The three ways of the program: its usage, a replay, or a session over the lines of the standard input.
use astra_exchange.Base.{ℕ, ◌>>=◌, String, Option, some, List, [], ◌∷◌, map}
use astra_exchange.Base.Int.{ℤ}
use astra_exchange.Floating.{Floating}
use astra_exchange.MatchingEngine.Defs.{new_engine}
use astra_exchange.Benchmark.Defs.{register_all}
use astra_exchange.Replay.Defs.{Console}
use astra_exchange.Interactive.Defs.{
  Output, text, Session, usage, replay, interactive, choose_action, run_lines,
}
use astra_exchange.Interactive.Replays.Defs.{usage_lines, replay_program}

abbrev pub greeting : List String
greeting =
    "AstraExchange interactive mode. Enter CSV lines:"
    ∷ "  timestamp,order_id,symbol,side,type,price,quantity" ∷ "  (type QUIT to exit)" ∷ []

abbrev pub greeted : List String → Session
greeted symbols = record { engine = register_all symbols new_engine; screen = map text greeting }

-- What is written: on the standard error alone, on the streams of a replay, or line by line in a session.
pub data Ending : Type 0 where
  misused : List String → Ending
  replayed : Console → Ending
  talked : List Output → Ending

module _ {D : Type 0} (fl : Floating D) (print : ℕ → String)
    (default_double fixed_double : D → String)
    (default_string fixed_string print_price : ℤ → String) (column : ℕ → String → String)
    (begins ends : ℕ → ℕ) (clock : ℕ → ℕ → ℕ) (now : ℕ → ℕ) (stoull : String → Option ℕ)
    (fixed_price : String → Option ℤ) (wall_ns : ℕ) where
  -- `file` is what the path of a replay names, and `input` the lines of the standard input.
  unfoldable pub main_program :
      String → List String → Option (List String) → List String → Option Ending
  main_program argv0 args file input = elim (choose_action args) [
    | usage ↦ some (misused (usage_lines argv0))
    | replay a ↦
        replay_program fl print default_double fixed_double default_string fixed_string column
          begins ends clock stoull fixed_price wall_ns a file
        >>= λ c. some (replayed c)
    | interactive a ↦ some (
        talked
          (run_lines stoull fixed_price print print_price fixed_string column clock now input
            (greeted a.symbols)).screen)
  ]
