-- ===== src/Engine/Stops/Kept.antt =====
-- What the handling of one order leaves alone: the stop queues.
use match_x.Base.{ℕ, zero, suc, ◌≡◌, Bool, ok, add64, sub64, arith}
use match_x.Types.{OrderId, ArenaIndex, Side, Order, EventMeta, MatchEvent, RejectReason}
use match_x.Book.State.{IndexMap}
use match_x.Engine.State.{MatchingEngine, emit, emit_rejected}
use match_x.Engine.Matching.{
  Taker, Flow, emit_level, remove_maker, cancel_maker, decrement, prevent_self_trade, trade, meet,
  match_round, match_loop, match_against_book,
}
use match_x.Engine.Request.{Request, accept}
use match_x.Engine.Orders.{rest_order, handle_remainder, execute, process_limit}

module _ {M : Type 0} where
  -- The stop queues are those of the earlier state.
  abbrev pub StopsKept : MatchingEngine M → MatchingEngine M → Type 0
  StopsKept e e' = (e'.stop_bids ≡ e.stop_bids) × (e'.stop_asks ≡ e.stop_asks)

  pub emit-StopsKept :
      (e e' : MatchingEngine M) (f : EventMeta → MatchEvent) → emit e f ≡ ok e' → StopsKept e e'
  unfolding emit add64
  emit-StopsKept e e' f h = ground arith

  pub emit_level-StopsKept :
      (e e' : MatchingEngine M) (s : Side) (p : ℕ) → emit_level e s p ≡ ok e' → StopsKept e e'
  unfolding emit_level
  emit_level-StopsKept e e' s p h = grind (arith, emit-StopsKept)

  pub emit_rejected-StopsKept :
      (e e' : MatchingEngine M) (i : OrderId) (r : RejectReason)
      → emit_rejected e i r ≡ ok e'
      → StopsKept e e'
  unfolding emit_rejected
  emit_rejected-StopsKept e e' i r h = emit-StopsKept e e' _ h

  pub accept-StopsKept :
      (e e' : MatchingEngine M) (r : Request) → accept e r ≡ ok e' → StopsKept e e'
  unfolding accept
  accept-StopsKept e e' r h = emit-StopsKept e e' _ h

module _ {M : Type 0} ⦃map : IndexMap M⦄ where
  remove_maker-StopsKept :
      (e e' : MatchingEngine M) (i : ArenaIndex) → remove_maker e i ≡ ok e' → StopsKept e e'
  unfolding remove_maker
  remove_maker-StopsKept e e' i h = ground arith

  cancel_maker-StopsKept :
      (e e' : MatchingEngine M) (i : ArenaIndex) (o : Order) (p : ℕ)
      → cancel_maker e i o p ≡ ok e'
      → StopsKept e e'
  unfolding cancel_maker
  cancel_maker-StopsKept e e' i o p h =
      grind (arith, remove_maker-StopsKept, emit-StopsKept, emit_level-StopsKept)

  decrement-StopsKept :
      (e : MatchingEngine M) (i : ArenaIndex) (o : Order) (p left : ℕ) (r : MatchingEngine M × ℕ)
      → decrement e i o p left ≡ ok r
      → StopsKept e r.0
  unfolding decrement
  decrement-StopsKept e i o p left r h = grind (arith, remove_maker-StopsKept, emit_level-StopsKept)

  prevent-StopsKept :
      (e : MatchingEngine M) (i : ArenaIndex) (o : Order) (p left : ℕ)
      (r : MatchingEngine M × ℕ × Flow)
      → prevent_self_trade e i o p left ≡ ok r
      → StopsKept e r.0
  unfolding prevent_self_trade
  prevent-StopsKept e i o p left r h = grind (arith, cancel_maker-StopsKept, decrement-StopsKept)

  trade-StopsKept :
      (t : Taker) (e : MatchingEngine M) (i : ArenaIndex) (o : Order) (p left : ℕ)
      (r : MatchingEngine M × ℕ × Flow)
      → trade t e i o p left ≡ ok r
      → StopsKept e r.0
  unfolding trade sub64
  trade-StopsKept t e i o p left r h =
      grind (arith, emit-StopsKept, emit_level-StopsKept, remove_maker-StopsKept)

  meet-StopsKept :
      (t : Taker) (e : MatchingEngine M) (i : ArenaIndex) (p left : ℕ)
      (r : MatchingEngine M × ℕ × Flow)
      → meet t e i p left ≡ ok r
      → StopsKept e r.0
  unfolding meet
  meet-StopsKept t e i p left r h =
      grind (arith, remove_maker-StopsKept, prevent-StopsKept, trade-StopsKept)

  match_round-StopsKept :
      (t : Taker) (e : MatchingEngine M) (left : ℕ) (r : MatchingEngine M × ℕ × Flow)
      → match_round t e left ≡ ok r
      → StopsKept e r.0
  unfolding match_round
  match_round-StopsKept t e left r h = grind (arith, meet-StopsKept)

  match_loop-StopsKept :
      (fuel : ℕ) (t : Taker) (e : MatchingEngine M) (left : ℕ) (r : MatchingEngine M × ℕ × Bool)
      → match_loop fuel t e left ≡ ok r
      → StopsKept e r.0
  unfolding match_loop
  match_loop-StopsKept zero t e left r h = absurd (ground arith)
  match_loop-StopsKept (suc fuel) t e left r h =
      grind (arith, match_round-StopsKept, match_loop-StopsKept fuel)

  pub rest_order-StopsKept :
      (e e' : MatchingEngine M) (r : Request) (q : ℕ) → rest_order e r q ≡ ok e' → StopsKept e e'
  unfolding rest_order
  rest_order-StopsKept e e' r q h = grind (arith, emit-StopsKept)

  handle_remainder-StopsKept :
      (e e' : MatchingEngine M) (r : Request) (q : ℕ)
      → handle_remainder e r q ≡ ok e'
      → StopsKept e e'
  unfolding handle_remainder
  handle_remainder-StopsKept e e' r q h = grind (arith, rest_order-StopsKept, emit-StopsKept)

  execute-StopsKept : (e e' : MatchingEngine M) (r : Request) → execute e r ≡ ok e' → StopsKept e e'
  unfolding execute match_against_book
  execute-StopsKept e e' r h =
      grind
        (arith, accept-StopsKept, match_loop-StopsKept, emit-StopsKept, handle_remainder-StopsKept)

  pub process_limit-StopsKept :
      (e e' : MatchingEngine M) (r : Request) → process_limit e r ≡ ok e' → StopsKept e e'
  unfolding process_limit
  process_limit-StopsKept e e' r h = grind (arith, emit_rejected-StopsKept, execute-StopsKept)
