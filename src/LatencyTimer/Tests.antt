-- ===== src/LatencyTimer/Tests.antt =====
-- Three samples, with whole numbers in place of doubles.
use astra_exchange.Base.{◌≡◌, some, [], ◌∷◌, arith}
use astra_exchange.Generator.Samples.{whole}
use astra_exchange.LatencyTimer.Defs.{LatencyTimer, Stats, compute}
use astra_exchange.LatencyTimer.Bounds.{Scales, Summary, compute-Summary}

timer : LatencyTimer
timer = record { t0 = 0; samples = 30 ∷ 10 ∷ 20 ∷ [] }

whole-Scales : Scales whole
whole-Scales n = (omega arith, omega arith, omega arith)

compute-Summary_example :
    (st : Stats) × (compute whole 100 timer ≡ some st) × Summary timer.samples st
unfolding timer
compute-Summary_example = compute-Summary whole 100 timer whole-Scales (omega arith) (omega arith)
