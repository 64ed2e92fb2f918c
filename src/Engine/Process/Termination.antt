-- ===== src/Engine/Process/Termination.antt =====
-- `process` always ends.
use match_x.Base.{◌≢◌, out_of_fuel, arith}
use match_x.Types.{Command, new_order, cancel_order, modify_order}
use match_x.Book.State.{IndexMap}
use match_x.Engine.State.{MatchingEngine}
use match_x.Engine.Orders.Ends.{process_new_order_fuel, process_cancel_fuel, process_modify_fuel}
use match_x.Engine.Stops.Drain.{drain_stop_triggers_fuel}
use match_x.Engine.Process.{dispatch, process}

module _ {M : Type 0} ⦃map : IndexMap M⦄ where
  dispatch_fuel : (e : MatchingEngine M) (cmd : Command) → dispatch e cmd ≢ out_of_fuel
  unfolding dispatch
  dispatch_fuel e (new_order id instrument side price qty type tif visible stop stp) =
      process_new_order_fuel e _
  dispatch_fuel e (cancel_order id) = process_cancel_fuel e id
  dispatch_fuel e (modify_order id price qty) = process_modify_fuel e id price qty

  -- Whatever the state and the command, `process` returns or panics: the matching loop and the
  -- cascade of stop triggers end within the fuel that the model gives them.
  pub process_ends : (e : MatchingEngine M) (cmd : Command) → process e cmd ≢ out_of_fuel
  unfolding process
  process_ends e cmd = grind (arith, dispatch_fuel, drain_stop_triggers_fuel)
