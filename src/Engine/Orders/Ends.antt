-- ===== src/Engine/Orders/Ends.antt =====
-- The handlers of the commands end: they panic or return.
use match_x.Base.{◌≢◌, ℕ, out_of_fuel, arith}
use match_x.Types.{OrderId, RejectReason}
use match_x.Arena.Ends.{get_fuel}
use match_x.Book.State.{IndexMap}
use match_x.Book.Ends.{
  get_level_fuel, remove_order_fuel, insert_order_fuel, ask_available_fuel, bid_available_fuel,
}
use match_x.Types.{Side, bid, ask}
use match_x.Engine.State.{MatchingEngine, emit_rejected}
use match_x.Engine.Matching.Progress.{emit_fuel, emit_level_fuel, match_against_book_fuel}
use match_x.Engine.Request.{
  Request, accept, first_maker_matches, stp_rejects, fok_rejects, check_available_liquidity,
  process_stop_limit,
}
use match_x.Engine.Orders.{
  rest_order, handle_remainder, execute, process_limit, process_post_only, process_new_order,
  process_cancel, process_modify,
}

module _ {M : Type 0} where
  pub emit_rejected_fuel :
      (e : MatchingEngine M) (i : OrderId) (r : RejectReason) → emit_rejected e i r ≢ out_of_fuel
  unfolding emit_rejected
  emit_rejected_fuel e i r = emit_fuel e _

  accept_fuel : (e : MatchingEngine M) (r : Request) → accept e r ≢ out_of_fuel
  unfolding accept
  accept_fuel e r = emit_fuel e _

  first_maker_fuel :
      (e : MatchingEngine M) (s : Side) (p : ℕ) (g : _) → first_maker_matches e s p g ≢ out_of_fuel
  unfolding first_maker_matches
  first_maker_fuel e s p g = grind (arith, get_level_fuel, get_fuel)

  stp_rejects_fuel : (e : MatchingEngine M) (r : Request) → stp_rejects e r ≢ out_of_fuel
  unfolding stp_rejects
  stp_rejects_fuel e r = grind (arith, first_maker_fuel)

  liquidity_fuel :
      (e : MatchingEngine M) (s : Side) (p : ℕ) → check_available_liquidity e s p ≢ out_of_fuel
  unfolding check_available_liquidity
  liquidity_fuel e bid p = ask_available_fuel e.book p
  liquidity_fuel e ask p = bid_available_fuel e.book p

  fok_rejects_fuel : (e : MatchingEngine M) (r : Request) → fok_rejects e r ≢ out_of_fuel
  unfolding fok_rejects
  fok_rejects_fuel e r = grind (arith, liquidity_fuel)

  stop_limit_fuel : (e : MatchingEngine M) (r : Request) → process_stop_limit e r ≢ out_of_fuel
  unfolding process_stop_limit
  stop_limit_fuel e r = grind (arith, emit_rejected_fuel, accept_fuel)

module _ {M : Type 0} ⦃map : IndexMap M⦄ where
  rest_order_fuel : (e : MatchingEngine M) (r : Request) (q : ℕ) → rest_order e r q ≢ out_of_fuel
  unfolding rest_order
  rest_order_fuel e r q = grind (arith, insert_order_fuel, emit_fuel)

  remainder_fuel :
      (e : MatchingEngine M) (r : Request) (q : ℕ) → handle_remainder e r q ≢ out_of_fuel
  unfolding handle_remainder
  remainder_fuel e r q = grind (arith, rest_order_fuel, emit_fuel)

  execute_fuel : (e : MatchingEngine M) (r : Request) → execute e r ≢ out_of_fuel
  unfolding execute
  execute_fuel e r = grind (arith, accept_fuel, match_against_book_fuel, emit_fuel, remainder_fuel)

  limit_fuel : (e : MatchingEngine M) (r : Request) → process_limit e r ≢ out_of_fuel
  unfolding process_limit
  limit_fuel e r =
      grind (arith, emit_rejected_fuel, fok_rejects_fuel, stp_rejects_fuel, execute_fuel)

  post_only_fuel : (e : MatchingEngine M) (r : Request) → process_post_only e r ≢ out_of_fuel
  unfolding process_post_only
  post_only_fuel e r = grind (arith, emit_rejected_fuel, accept_fuel, rest_order_fuel)

  pub process_new_order_fuel :
      (e : MatchingEngine M) (r : Request) → process_new_order e r ≢ out_of_fuel
  unfolding process_new_order
  process_new_order_fuel e r = grind (arith, post_only_fuel, stop_limit_fuel, limit_fuel)

  pub process_cancel_fuel : (e : MatchingEngine M) (i : OrderId) → process_cancel e i ≢ out_of_fuel
  unfolding process_cancel
  process_cancel_fuel e i =
      grind (arith, get_fuel, remove_order_fuel, emit_fuel, emit_level_fuel, emit_rejected_fuel)

  pub process_modify_fuel :
      (e : MatchingEngine M) (i : OrderId) (p q : ℕ) → process_modify e i p q ≢ out_of_fuel
  unfolding process_modify
  process_modify_fuel e i p q = grind (
    arith, get_fuel, remove_order_fuel, emit_fuel, emit_level_fuel, emit_rejected_fuel,
    process_new_order_fuel,
  )
