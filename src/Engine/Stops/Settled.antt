-- ===== src/Engine/Stops/Settled.antt =====
-- What `drain_stop_triggers` leaves in the queues of stop orders.
use match_x.Base.{ℕ, zero, suc, ◌≡◌, ltb, Bool, true, some, List, [], ◌∷◌, ok, arith}
use match_x.Book.State.{IndexMap}
use match_x.Engine.State.{MatchingEngine, StopEntry}
use match_x.Engine.Stops.{drain_bids, drain_asks, drain_loop, drain_stop_triggers}
use match_x.Engine.Stops.Drain.{drain_asks-keeps_bids}

-- the first buy stop has a trigger above the price, the first sell stop one below it
unfoldable pub bids_wait : ℕ → List (ℕ × StopEntry) → Bool
bids_wait p [] = true
bids_wait p ((stop_px, s) ∷ rest) = ltb p stop_px

unfoldable pub asks_wait : ℕ → List (ℕ × StopEntry) → Bool
asks_wait p [] = true
asks_wait p ((stop_px, s) ∷ rest) = ltb stop_px p

module _ {M : Type 0} ⦃map : IndexMap M⦄ where
  drain_bids_wait :
      (fuel : ℕ) (e e' : MatchingEngine M) (p : ℕ)
      → drain_bids fuel e p ≡ ok e'
      → bids_wait p e'.stop_bids ≡ true
  unfolding drain_bids bids_wait
  drain_bids_wait zero e e' p h = absurd (ground arith)
  drain_bids_wait (suc fuel) e e' p h = grind (arith, drain_bids_wait fuel)

  drain_asks_wait :
      (fuel : ℕ) (e e' : MatchingEngine M) (p : ℕ)
      → drain_asks fuel e p ≡ ok e'
      → asks_wait p e'.stop_asks ≡ true
  unfolding drain_asks asks_wait
  drain_asks_wait zero e e' p h = absurd (ground arith)
  drain_asks_wait (suc fuel) e e' p h = grind (arith, drain_asks_wait fuel)

  drain_loop-bids :
      (fuel : ℕ) (e e' : MatchingEngine M) (p : ℕ)
      → drain_loop fuel e ≡ ok e'
      → e'.last_trade_price ≡ some p
      → bids_wait p e'.stop_bids ≡ true
  unfolding drain_loop
  drain_loop-bids zero e e' p h last = absurd (ground arith)
  drain_loop-bids (suc fuel) e e' p h last =
      grind (arith, drain_bids_wait, drain_asks-keeps_bids, drain_loop-bids fuel)

  drain_loop-asks :
      (fuel : ℕ) (e e' : MatchingEngine M) (p : ℕ)
      → drain_loop fuel e ≡ ok e'
      → e'.last_trade_price ≡ some p
      → asks_wait p e'.stop_asks ≡ true
  unfolding drain_loop
  drain_loop-asks zero e e' p h last = absurd (ground arith)
  drain_loop-asks (suc fuel) e e' p h last = grind (arith, drain_asks_wait, drain_loop-asks fuel)

  pub drain_stop_triggers-bids_wait :
      (e e' : MatchingEngine M) (p : ℕ)
      → drain_stop_triggers e ≡ ok e'
      → e'.last_trade_price ≡ some p
      → bids_wait p e'.stop_bids ≡ true
  unfolding drain_stop_triggers
  drain_stop_triggers-bids_wait e e' p h last = drain_loop-bids _ e e' p h last

  pub drain_stop_triggers-asks_wait :
      (e e' : MatchingEngine M) (p : ℕ)
      → drain_stop_triggers e ≡ ok e'
      → e'.last_trade_price ≡ some p
      → asks_wait p e'.stop_asks ≡ true
  unfolding drain_stop_triggers
  drain_stop_triggers-asks_wait e e' p h last = drain_loop-asks _ e e' p h last
