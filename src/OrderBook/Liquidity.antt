-- ===== src/OrderBook/Liquidity.antt =====
-- `availableFill`, the scan before a fill-or-kill order, against what its levels hold.
use astra_exchange.Base.{ℕ, ◌+◌, ◌<◌, ◌≤◌, ◌≡◌, [], ◌∷◌, arith, leb, u64_mod, add64}
use astra_exchange.Types.{Side, Order}
use astra_exchange.OrderBook.Defs.{Levels, Crosses}
use astra_exchange.OrderBook.Match.{available_from, available_fill}
use astra_exchange.OrderBook.Valid.{SideValid, side_qty}
use astra_exchange.OrderBook.Ledger.{crossing_qty}

crossing_qty-le : (c : Crosses) (m : Levels) → crossing_qty c m ≤ side_qty m
crossing_qty-le c [] = omega arith
crossing_qty-le c ((p, l) ∷ m) = ground (arith, crossing_qty-le c m)

-- The scan may stop early, but not before the wanted quantity is reached.
available_from-enough :
    (c : Crosses) (d : Side) (wanted acc : ℕ) (m : Levels)
    → SideValid d m
    → acc + side_qty m < u64_mod
    → leb wanted (available_from c wanted acc m) ≡ leb wanted (acc + crossing_qty c m)
unfolding available_from
available_from-enough c d wanted acc [] v b = ground arith
available_from-enough c d wanted acc ((p, l) ∷ m) v b =
    ground (arith, v.0.totalled, available_from-enough c d wanted (add64 acc l.total_qty) m v.2)

-- On a valid side whose quantities fit a word, the test of `matchFok`, whose scan stops early, passes
-- exactly when the open quantities at crossing prices come to the order's quantity.
pub available_fill-enough :
    (c : Crosses) (d : Side) (m : Levels) (o : Order)
    → SideValid d m
    → side_qty m < u64_mod
    → leb o.quantity (available_fill c m o) ≡ leb o.quantity (crossing_qty c m)
unfolding available_fill
available_fill-enough c d m o v b = ground (arith, available_from-enough c d o.quantity 0 m v)
