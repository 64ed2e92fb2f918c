-- ===== src/Types/Slice.antt =====
-- The quantity that a resting order offers (`Order::matchable_qty`).
use native.Mathlib.Nat.{mod-lt}
use match_x.Base.{◌≤◌, ◌<◌, arith}
use match_x.Types.{Order, remaining, matchable_qty, slice_qty}

-- An order offers at most what it has left, and offers something whenever something is left.
pub matchable_qty_bounds :
    (o : Order) → (matchable_qty o ≤ remaining o) × (0 < remaining o → 0 < matchable_qty o)
unfolding matchable_qty slice_qty remaining
matchable_qty_bounds o = grind (arith, mod-lt)
