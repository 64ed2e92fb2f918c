-- ===== src/Engine/Stops/Drain.antt =====
-- The loops of `drain_stop_triggers` end: each pass after which they go on fires a stop, and firing
-- a stop adds none.
use match_x.Base.{ℕ, zero, suc, ◌+◌, ◌≤◌, ◌<◌, ◌≡◌, ◌≢◌, length, ok, out_of_fuel, arith}
use match_x.Book.State.{IndexMap}
use match_x.Engine.State.{MatchingEngine, StopEntry}
use match_x.Engine.Matching.Progress.{emit_fuel}
use match_x.Engine.Orders.{process_new_order}
use match_x.Engine.Orders.Ends.{process_new_order_fuel}
use match_x.Engine.Stops.{fire_stop, drain_bids, drain_asks, drain_loop, drain_stop_triggers}
use match_x.Engine.Stops.Kept.{StopsKept, emit-StopsKept, process_limit-StopsKept}

module _ {M : Type 0} ⦃map : IndexMap M⦄ where
  fire_stop_fuel : (e : MatchingEngine M) (s : StopEntry) → fire_stop e s ≢ out_of_fuel
  unfolding fire_stop
  fire_stop_fuel e s = grind (arith, emit_fuel, process_new_order_fuel)

  -- A stop enters as a limit order, which adds no stop.
  pub fire_stop-StopsKept :
      (e e' : MatchingEngine M) (s : StopEntry) → fire_stop e s ≡ ok e' → StopsKept e e'
  unfolding fire_stop process_new_order
  fire_stop-StopsKept e e' s h = grind (arith, emit-StopsKept, process_limit-StopsKept)

  drain_bids_fuel :
      (fuel : ℕ) (e : MatchingEngine M) (p : ℕ)
      → length e.stop_bids < fuel
      → drain_bids fuel e p ≢ out_of_fuel
  unfolding drain_bids
  drain_bids_fuel zero e p h = absurd (omega arith)
  drain_bids_fuel (suc fuel) e p h =
      grind (arith, fire_stop_fuel, fire_stop-StopsKept, drain_bids_fuel fuel)

  drain_asks_fuel :
      (fuel : ℕ) (e : MatchingEngine M) (p : ℕ)
      → length e.stop_asks < fuel
      → drain_asks fuel e p ≢ out_of_fuel
  unfolding drain_asks
  drain_asks_fuel zero e p h = absurd (omega arith)
  drain_asks_fuel (suc fuel) e p h =
      grind (arith, fire_stop_fuel, fire_stop-StopsKept, drain_asks_fuel fuel)

  pub drain_bids-keeps_asks :
      (fuel : ℕ) (e e' : MatchingEngine M) (p : ℕ)
      → drain_bids fuel e p ≡ ok e'
      → e'.stop_asks ≡ e.stop_asks
  unfolding drain_bids
  drain_bids-keeps_asks zero e e' p h = absurd (ground arith)
  drain_bids-keeps_asks (suc fuel) e e' p h =
      grind (arith, fire_stop-StopsKept, drain_bids-keeps_asks fuel)

  drain_bids_shrinks :
      (fuel : ℕ) (e e' : MatchingEngine M) (p : ℕ)
      → drain_bids fuel e p ≡ ok e'
      → length e'.stop_bids ≤ length e.stop_bids
  unfolding drain_bids
  drain_bids_shrinks zero e e' p h = absurd (ground arith)
  drain_bids_shrinks (suc fuel) e e' p h =
      grind (arith, fire_stop-StopsKept, drain_bids_shrinks fuel)

  -- With no stop fired the last price is as before.
  drain_bids_idle :
      (fuel : ℕ) (e e' : MatchingEngine M) (p : ℕ)
      → drain_bids fuel e p ≡ ok e'
      → length e'.stop_bids ≡ length e.stop_bids
      → e'.last_trade_price ≡ e.last_trade_price
  unfolding drain_bids
  drain_bids_idle zero e e' p h k = absurd (ground arith)
  drain_bids_idle (suc fuel) e e' p h k =
      grind (arith, fire_stop-StopsKept, drain_bids_shrinks fuel)

  pub drain_asks-keeps_bids :
      (fuel : ℕ) (e e' : MatchingEngine M) (p : ℕ)
      → drain_asks fuel e p ≡ ok e'
      → e'.stop_bids ≡ e.stop_bids
  unfolding drain_asks
  drain_asks-keeps_bids zero e e' p h = absurd (ground arith)
  drain_asks-keeps_bids (suc fuel) e e' p h =
      grind (arith, fire_stop-StopsKept, drain_asks-keeps_bids fuel)

  drain_asks_shrinks :
      (fuel : ℕ) (e e' : MatchingEngine M) (p : ℕ)
      → drain_asks fuel e p ≡ ok e'
      → length e'.stop_asks ≤ length e.stop_asks
  unfolding drain_asks
  drain_asks_shrinks zero e e' p h = absurd (ground arith)
  drain_asks_shrinks (suc fuel) e e' p h =
      grind (arith, fire_stop-StopsKept, drain_asks_shrinks fuel)

  -- With no stop fired the last price is as before.
  drain_asks_idle :
      (fuel : ℕ) (e e' : MatchingEngine M) (p : ℕ)
      → drain_asks fuel e p ≡ ok e'
      → length e'.stop_asks ≡ length e.stop_asks
      → e'.last_trade_price ≡ e.last_trade_price
  unfolding drain_asks
  drain_asks_idle zero e e' p h k = absurd (ground arith)
  drain_asks_idle (suc fuel) e e' p h k =
      grind (arith, fire_stop-StopsKept, drain_asks_shrinks fuel)

  drain_loop_fuel :
      (fuel : ℕ) (e : MatchingEngine M)
      → length e.stop_bids + length e.stop_asks < fuel
      → drain_loop fuel e ≢ out_of_fuel
  unfolding drain_loop
  drain_loop_fuel zero e h = absurd (omega arith)
  drain_loop_fuel (suc fuel) e h = grind (
    arith,
    drain_bids_fuel,
    drain_asks_fuel,
    drain_bids_shrinks,
    drain_asks_shrinks,
    drain_bids_idle,
    drain_asks_idle,
    drain_bids-keeps_asks,
    drain_asks-keeps_bids,
    drain_loop_fuel fuel,
  )

  -- The stop triggers are drained in finitely many passes.
  pub drain_stop_triggers_fuel : (e : MatchingEngine M) → drain_stop_triggers e ≢ out_of_fuel
  unfolding drain_stop_triggers
  drain_stop_triggers_fuel e =
      drain_loop_fuel (suc (length e.stop_bids + length e.stop_asks)) e (omega arith)
