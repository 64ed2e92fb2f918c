-- ===== src/Engine/Stops.antt =====
-- crates/matchx-engine/src/lib.rs: `drain_stop_triggers`.
pub mod Drain
pub mod Kept
pub mod Settled
pub mod Sorted
pub mod Waiting
use match_x.Base.{
  ℕ, zero, suc, ◌+◌, ltb, ◌==◌, if◌then◌else◌, Bool, false, Option, none, some, [], ◌∷◌, length,
  Exec, ok, out_of_fuel, ◌>>=◌,
}
use match_x.Types.{limit, stop_triggered}
use match_x.Book.State.{IndexMap}
use match_x.Engine.State.{MatchingEngine, StopEntry, emit}
use match_x.Engine.Orders.{process_new_order}

abbrev pub unchanged : Option ℕ → ℕ → Bool
unchanged none price = false
unchanged (some last) price = last == price

module _ {M : Type 0} ⦃map : IndexMap M⦄ where
  -- the triggered stop enters as a limit order
  unfoldable pub fire_stop : MatchingEngine M → StopEntry → Exec (MatchingEngine M)
  fire_stop e s = do
    e ← emit e (λ meta. stop_triggered meta s.id s.id)
    process_new_order e (record {
      id = s.id;
      side = s.side;
      price = s.limit_price;
      qty = s.qty;
      order_type = limit;
      time_in_force = s.time_in_force;
      visible_qty = s.visible_qty;
      stop_price = none;
      stp_group = s.stp_group;
    })

  -- the two inner loops of `drain_stop_triggers`
  unfoldable pub drain_bids : ℕ → MatchingEngine M → ℕ → Exec (MatchingEngine M)
  drain_bids zero e last_price = out_of_fuel
  drain_bids (suc fuel) e last_price = elim e.stop_bids [
    | [] ↦ ok e
    | (stop_px, s) ∷ rest ↦
        if ltb last_price stop_px
        then ok e
        else (do e ← fire_stop (record e { stop_bids = rest }) s; drain_bids fuel e last_price)
  ]

  unfoldable pub drain_asks : ℕ → MatchingEngine M → ℕ → Exec (MatchingEngine M)
  drain_asks zero e last_price = out_of_fuel
  drain_asks (suc fuel) e last_price = elim e.stop_asks [
    | [] ↦ ok e
    | (stop_px, s) ∷ rest ↦
        if ltb stop_px last_price
        then ok e
        else (do e ← fire_stop (record e { stop_asks = rest }) s; drain_asks fuel e last_price)
  ]

  -- Fuel: a pass that changes the last price fires a stop, and no stop is added.
  unfoldable pub drain_loop : ℕ → MatchingEngine M → Exec (MatchingEngine M)
  drain_loop zero e = out_of_fuel
  drain_loop (suc fuel) e = elim e.last_trade_price [
    | none ↦ ok e
    | some last_price ↦ do
      e ← drain_bids (suc (length e.stop_bids)) e last_price
      e ← drain_asks (suc (length e.stop_asks)) e last_price
      (if unchanged e.last_trade_price last_price then ok e else drain_loop fuel e)
  ]

  unfoldable pub drain_stop_triggers : MatchingEngine M → Exec (MatchingEngine M)
  drain_stop_triggers e = drain_loop (suc (length e.stop_bids + length e.stop_asks)) e
