-- ===== src/Generator/Tests.antt =====
-- The generator with the sample numbers.
use astra_exchange.Base.{ℕ, ◌≡◌, String, some, List, [], ◌∷◌, arith, length}
use astra_exchange.Types.{Order}
use astra_exchange.Generator.Samples.{whole, counter, counter-InRange}
use astra_exchange.Generator.Defs.{GeneratorConfig}
use astra_exchange.Generator.Loop.{generate}
use astra_exchange.Generator.Stream.{Stream}
use astra_exchange.Generator.Whole.{generate-Stream}

abbrev config : GeneratorConfig ℕ
config = record {
  count = 20;
  symbols = "AAPL" ∷ "MSFT" ∷ [];
  seed = 0;
  frac_limit = 10;
  frac_market = 3;
  frac_cancel = 8;
  frac_ioc = 2;
  frac_fok = 2;
  frac_invalid = 1;
}

generate-Stream_example :
    (os : List Order) × (live : List (String × ℕ)) × (k : ℕ) × (generate whole counter config
      ≡ some os)
    × (length os ≡ 20)
    × Stream [] 0 0 os live k
generate-Stream_example =
    generate-Stream whole counter counter-InRange config (omega arith) (omega arith) (omega arith)
