-- ===== src/Engine/Process.antt =====
-- crates/matchx-engine/src/lib.rs: `process`.
pub mod Termination
use mathlib.Core.List.{reverse}
use match_x.Base.{List, [], Exec, ok, ◌>>=◌}
use match_x.Types.{MatchEvent, Command, new_order, cancel_order, modify_order}
use match_x.Book.State.{IndexMap}
use match_x.Engine.State.{MatchingEngine}
use match_x.Engine.Orders.{process_new_order, process_cancel, process_modify}
use match_x.Engine.Stops.{drain_stop_triggers}

module _ {M : Type 0} ⦃map : IndexMap M⦄ where
  unfoldable pub dispatch : MatchingEngine M → Command → Exec (MatchingEngine M)
  dispatch e
        (new_order id instrument_id side price qty order_type time_in_force visible_qty stop_price
          stp) =
      process_new_order e (record {
        id = id;
        side = side;
        price = price;
        qty = qty;
        order_type = order_type;
        time_in_force = time_in_force;
        visible_qty = visible_qty;
        stop_price = stop_price;
        stp_group = stp;
      })
  dispatch e (cancel_order id) = process_cancel e id
  dispatch e (modify_order id new_price new_qty) = process_modify e id new_price new_qty

  -- The new state, whose buffer read from its start is the slice that the source returns.
  unfoldable pub process : MatchingEngine M → Command → Exec (MatchingEngine M × List MatchEvent)
  process e cmd = do
    e ← dispatch (record e { events = [] }) cmd
    e ← drain_stop_triggers e
    ok (e, reverse e.events)
