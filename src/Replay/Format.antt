-- ===== src/Replay/Format.antt =====
-- In which format a replay prints the prices of its trades.
use astra_exchange.Base.{ℕ, String, List}
use astra_exchange.Base.Int.{ℤ}
use astra_exchange.Types.{Order}
use astra_exchange.MatchingEngine.Defs.{MatchingEngine}
use astra_exchange.Replay.Defs.{Replay, ReplayConfig, replay_order}

module _ (print : ℕ → String) (default_string fixed_string : ℤ → String)
    (column : ℕ → String → String) (begins ends : ℕ → ℕ) (clock : ℕ → ℕ → ℕ)
    (cfg : ReplayConfig) where
  abbrev pub shows_order : Replay → Order → Replay
  shows_order = replay_order print default_string fixed_string column begins ends clock cfg
