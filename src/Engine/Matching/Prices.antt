-- ===== src/Engine/Matching/Prices.antt =====
-- The prices of the fills that the matching loop reports.
use match_x.Base.{ℕ, ◌≤◌, if◌then◌else◌, Bool, true, false, List, [], ◌∷◌}
use match_x.Types.{
  Side, bid, ask, MatchEvent, order_accepted, order_rejected, fill, order_cancelled, order_modified,
  book_update, stop_triggered,
}
use match_x.Engine.Policy.{is_price_acceptable}

-- the code's own test of every fill among the events
unfoldable fills_within : Side → ℕ → List MatchEvent → Bool
fills_within side limit [] = true
fills_within side limit (fill meta maker taker price qty maker_left taker_left ∷ es) =
    if is_price_acceptable side limit price then fills_within side limit es else false
fills_within side limit (order_accepted meta id s price qty type ∷ es) = fills_within side limit es
fills_within side limit (order_rejected meta id reason ∷ es) = fills_within side limit es
fills_within side limit (order_cancelled meta id qty ∷ es) = fills_within side limit es
fills_within side limit (order_modified meta id price qty ∷ es) = fills_within side limit es
fills_within side limit (book_update meta s price qty ∷ es) = fills_within side limit es
fills_within side limit (stop_triggered meta id new ∷ es) = fills_within side limit es

-- A price is no worse than the limit: a buyer pays at most the limit, a seller gets at least it.
abbrev pub NoWorse : Side → ℕ → ℕ → Type 0
NoWorse bid limit price = price ≤ limit
NoWorse ask limit price = limit ≤ price

-- every fill among the events has such a price
abbrev pub FillsWithin : Side → ℕ → List MatchEvent → Type 0
FillsWithin side limit [] = Unit {0}
FillsWithin side limit (fill meta maker taker price qty maker_left taker_left ∷ es) =
    NoWorse side limit price × FillsWithin side limit es
FillsWithin side limit (order_accepted meta id s price qty type ∷ es) = FillsWithin side limit es
FillsWithin side limit (order_rejected meta id reason ∷ es) = FillsWithin side limit es
FillsWithin side limit (order_cancelled meta id qty ∷ es) = FillsWithin side limit es
FillsWithin side limit (order_modified meta id price qty ∷ es) = FillsWithin side limit es
FillsWithin side limit (book_update meta s price qty ∷ es) = FillsWithin side limit es
FillsWithin side limit (stop_triggered meta id new ∷ es) = FillsWithin side limit es
