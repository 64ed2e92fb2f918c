-- ===== src/Engine/Stops/Waiting.antt =====
-- Between two commands no queued stop order is triggered.
use match_x.Base.{
  ℕ, ◌<◌, ◌≡◌, refl, ltb, if◌then◌else◌, Bool, true, false, some, List, [], ◌∷◌, ok, arith,
}
use match_x.Types.{MatchEvent, Command}
use match_x.Book.State.{IndexMap}
use match_x.Engine.State.{MatchingEngine, StopEntry}
use match_x.Engine.Stops.Settled.{
  bids_wait, asks_wait, drain_stop_triggers-bids_wait, drain_stop_triggers-asks_wait,
}
use match_x.Engine.Stops.Sorted.{ascends, descends, descending, StopsSorted, process-StopsSorted}
use match_x.Engine.Process.{process}

-- every trigger is above the price
unfoldable pub all_above : ℕ → List (ℕ × StopEntry) → Bool
all_above p [] = true
all_above p ((px, s) ∷ rest) = if ltb p px then all_above p rest else false

-- every trigger is below the price
unfoldable pub all_below : ℕ → List (ℕ × StopEntry) → Bool
all_below p [] = true
all_below p ((px, s) ∷ rest) = if ltb px p then all_below p rest else false

all_above-ascends :
    (p lo : ℕ) (xs : List (ℕ × StopEntry)) → p < lo → ascends lo xs ≡ true → all_above p xs ≡ true
unfolding all_above ascends
all_above-ascends p lo [] h a = refl
all_above-ascends p lo ((px, s) ∷ xs) h a = ground (arith, all_above-ascends p px xs)

all_below-descends :
    (p hi : ℕ) (xs : List (ℕ × StopEntry)) → hi < p → descends hi xs ≡ true → all_below p xs ≡ true
unfolding all_below descends
all_below-descends p hi [] h a = refl
all_below-descends p hi ((px, s) ∷ xs) h a = ground (arith, all_below-descends p px xs)

all_above-bids_wait :
    (p : ℕ) (xs : List (ℕ × StopEntry))
    → ascends 0 xs ≡ true
    → bids_wait p xs ≡ true
    → all_above p xs ≡ true
unfolding all_above ascends bids_wait
all_above-bids_wait p [] a w = refl
all_above-bids_wait p ((px, s) ∷ xs) a w = ground (arith, all_above-ascends p px xs)

all_below-asks_wait :
    (p : ℕ) (xs : List (ℕ × StopEntry))
    → descending xs ≡ true
    → asks_wait p xs ≡ true
    → all_below p xs ≡ true
unfolding all_below descending asks_wait
all_below-asks_wait p [] a w = refl
all_below-asks_wait p ((px, s) ∷ xs) a w = ground (arith, all_below-descends p px xs)

module _ {M : Type 0} ⦃map : IndexMap M⦄ where
  process-bids_wait :
      (e : MatchingEngine M) (cmd : Command) (r : MatchingEngine M × List MatchEvent) (p : ℕ)
      → process e cmd ≡ ok r
      → r.0.last_trade_price ≡ some p
      → bids_wait p r.0.stop_bids ≡ true
  unfolding process
  process-bids_wait e cmd r p h last = grind (arith, drain_stop_triggers-bids_wait)

  process-asks_wait :
      (e : MatchingEngine M) (cmd : Command) (r : MatchingEngine M × List MatchEvent) (p : ℕ)
      → process e cmd ≡ ok r
      → r.0.last_trade_price ≡ some p
      → asks_wait p r.0.stop_asks ≡ true
  unfolding process
  process-asks_wait e cmd r p h last = grind (arith, drain_stop_triggers-asks_wait)

  -- From a state whose stop queues are sorted, when `process` returns and there is a last trade
  -- price, every buy stop still queued has a trigger above that price and every sell stop a
  -- trigger below it.
  pub process-stops_wait :
      (e : MatchingEngine M) (cmd : Command) (r : MatchingEngine M × List MatchEvent) (p : ℕ)
      → process e cmd ≡ ok r
      → StopsSorted e
      → r.0.last_trade_price ≡ some p
      → (all_above p r.0.stop_bids ≡ true) × (all_below p r.0.stop_asks ≡ true)
  process-stops_wait e cmd r p h sorted last =
      let kept = process-StopsSorted e cmd r h sorted in
      (
        all_above-bids_wait p r.0.stop_bids kept.0 (process-bids_wait e cmd r p h last),
        all_below-asks_wait p r.0.stop_asks kept.1 (process-asks_wait e cmd r p h last),
      )
