-- ===== src/Engine/Matching/Progress.antt =====
-- Each round of the matching loop fills something or removes a resting order, so the loop ends.
use match_x.Base.{
  ℕ, zero, suc, ◌+◌, ◌≤◌, ◌<◌, ◌≡◌, ◌≢◌, ◌⊎◌, min, ok, out_of_fuel, add64, sub64, arith,
}
use match_x.Types.{ArenaIndex, Side, Order, EventMeta, MatchEvent, matchable_qty}
use match_x.Types.Slice.{matchable_qty_bounds}
use match_x.Arena.Ends.{get_fuel, get_mut_fuel, len-get_mut}
use match_x.Book.State.{IndexMap}
use match_x.Book.Ends.{
  get_level_fuel, level_at_fuel, get_level_qty_fuel, remove_order_fuel, len-remove_order,
  reduce_order_qty_fuel,
}
use match_x.Engine.State.{MatchingEngine, emit}
use match_x.Engine.Matching.{
  Taker, Flow, continue, emit_level, remove_maker, cancel_maker, decrement, prevent_self_trade,
  trade, meet, match_round, match_loop, match_against_book,
}

module _ {M : Type 0} where
  pub emit_fuel : (e : MatchingEngine M) (f : EventMeta → MatchEvent) → emit e f ≢ out_of_fuel
  unfolding emit add64
  emit_fuel e f = ground arith

  arena-emit :
      (e e' : MatchingEngine M) (f : EventMeta → MatchEvent) → emit e f ≡ ok e' → e'.arena ≡ e.arena
  unfolding emit add64
  arena-emit e e' f h = ground arith

  pub emit_level_fuel : (e : MatchingEngine M) (s : Side) (p : ℕ) → emit_level e s p ≢ out_of_fuel
  unfolding emit_level
  emit_level_fuel e s p = grind (arith, get_level_qty_fuel, emit_fuel)

  arena-emit_level :
      (e e' : MatchingEngine M) (s : Side) (p : ℕ) → emit_level e s p ≡ ok e' → e'.arena ≡ e.arena
  unfolding emit_level
  arena-emit_level e e' s p h = grind (arith, arena-emit)

module _ {M : Type 0} ⦃map : IndexMap M⦄ where
  remove_maker_fuel : (e : MatchingEngine M) (i : ArenaIndex) → remove_maker e i ≢ out_of_fuel
  unfolding remove_maker
  remove_maker_fuel e i = grind (arith, remove_order_fuel)

  len-remove_maker :
      (e e' : MatchingEngine M) (i : ArenaIndex)
      → remove_maker e i ≡ ok e'
      → suc e'.arena.len ≡ e.arena.len
  unfolding remove_maker
  len-remove_maker e e' i h = grind (arith, len-remove_order)

  cancel_maker_fuel :
      (e : MatchingEngine M) (i : ArenaIndex) (o : Order) (p : ℕ)
      → cancel_maker e i o p ≢ out_of_fuel
  unfolding cancel_maker
  cancel_maker_fuel e i o p = grind (arith, remove_maker_fuel, emit_fuel, emit_level_fuel)

  len-cancel_maker :
      (e e' : MatchingEngine M) (i : ArenaIndex) (o : Order) (p : ℕ)
      → cancel_maker e i o p ≡ ok e'
      → suc e'.arena.len ≡ e.arena.len
  unfolding cancel_maker
  len-cancel_maker e e' i o p h = grind (arith, len-remove_maker, arena-emit, arena-emit_level)

  decrement_fuel :
      (e : MatchingEngine M) (i : ArenaIndex) (o : Order) (p left : ℕ)
      → decrement e i o p left ≢ out_of_fuel
  unfolding decrement
  decrement_fuel e i o p left =
      grind (arith, remove_maker_fuel, reduce_order_qty_fuel, emit_level_fuel)

  prevent_fuel :
      (e : MatchingEngine M) (i : ArenaIndex) (o : Order) (p left : ℕ)
      → prevent_self_trade e i o p left ≢ out_of_fuel
  unfolding prevent_self_trade
  prevent_fuel e i o p left = grind (arith, cancel_maker_fuel, decrement_fuel)

  prevent_progress :
      (e : MatchingEngine M) (i : ArenaIndex) (o : Order) (p left : ℕ)
      (r : MatchingEngine M × ℕ × Flow)
      → prevent_self_trade e i o p left ≡ ok r
      → r.2 ≡ continue
      → (r.1 ≡ left) × (suc r.0.arena.len ≡ e.arena.len)
  unfolding prevent_self_trade
  prevent_progress e i o p left r h go = grind (arith, len-cancel_maker)

  trade_fuel :
      (t : Taker) (e : MatchingEngine M) (i : ArenaIndex) (o : Order) (p left : ℕ)
      → trade t e i o p left ≢ out_of_fuel
  unfolding trade sub64 add64
  trade_fuel t e i o p left =
      grind (
        arith, get_mut_fuel, level_at_fuel, get_fuel, emit_fuel, emit_level_fuel, remove_maker_fuel,
      )

  trade_progress :
      (t : Taker) (e : MatchingEngine M) (i : ArenaIndex) (o : Order) (p left : ℕ)
      (r : MatchingEngine M × ℕ × Flow)
      → trade t e i o p left ≡ ok r
      → (r.1 + min left (matchable_qty o) ≡ left) × (r.0.arena.len ≤ e.arena.len)
  unfolding trade sub64 add64
  trade_progress t e i o p left r h =
      grind (arith, len-get_mut, arena-emit, arena-emit_level, len-remove_maker)

  meet_fuel :
      (t : Taker) (e : MatchingEngine M) (i : ArenaIndex) (p left : ℕ)
      → meet t e i p left ≢ out_of_fuel
  unfolding meet
  meet_fuel t e i p left = grind (arith, get_fuel, remove_maker_fuel, prevent_fuel, trade_fuel)

  meet_progress :
      (t : Taker) (e : MatchingEngine M) (i : ArenaIndex) (p left : ℕ)
      (r : MatchingEngine M × ℕ × Flow)
      → 0 < left
      → meet t e i p left ≡ ok r
      → r.2 ≡ continue
      → ((r.1 < left) × (r.0.arena.len ≤ e.arena.len))
        ⊎ ((r.1 ≡ left) × (suc r.0.arena.len ≡ e.arena.len))
  unfolding meet
  meet_progress t e i p left r pos h go =
      grind (arith, len-remove_maker, prevent_progress, trade_progress, matchable_qty_bounds)

  pub match_round_fuel :
      (t : Taker) (e : MatchingEngine M) (left : ℕ) → match_round t e left ≢ out_of_fuel
  unfolding match_round
  match_round_fuel t e left = grind (arith, get_level_fuel, meet_fuel)

  -- When there is something left to fill and a round returns and goes on, either less is left and
  -- there are no more resting orders than before, or as much is left and there is exactly one
  -- resting order fewer.
  pub match_round_progress :
      (t : Taker) (e : MatchingEngine M) (left : ℕ) (r : MatchingEngine M × ℕ × Flow)
      → 0 < left
      → match_round t e left ≡ ok r
      → r.2 ≡ continue
      → ((r.1 < left) × (r.0.arena.len ≤ e.arena.len))
        ⊎ ((r.1 ≡ left) × (suc r.0.arena.len ≡ e.arena.len))
  unfolding match_round
  match_round_progress t e left r pos h go = grind (arith, meet_progress)

  match_loop_fuel :
      (fuel : ℕ) (t : Taker) (e : MatchingEngine M) (left : ℕ)
      → left + e.arena.len < fuel
      → match_loop fuel t e left ≢ out_of_fuel
  unfolding match_loop
  match_loop_fuel zero t e left h = absurd (omega arith)
  match_loop_fuel (suc fuel) t e left h =
      grind (arith, match_round_fuel, match_round_progress, match_loop_fuel fuel)

  -- The matching loop ends: with a result or by a panic.
  pub match_against_book_fuel :
      (t : Taker) (e : MatchingEngine M) (left : ℕ) → match_against_book t e left ≢ out_of_fuel
  unfolding match_against_book
  match_against_book_fuel t e left =
      match_loop_fuel (suc (left + e.arena.len)) t e left (omega arith)
