-- ===== src/Engine/Matching/Fills.antt =====
-- What the matching loop reports: the fills account for what the taker loses.
use match_x.Base.{
  true, ℕ, zero, suc, ◌+◌, ◌≤◌, ◌≡◌, ◌≢◌, some, inl, inr, Exec-cases, List, [], ◌∷◌, none, Bool,
  Exec, ok, panic, out_of_fuel, add64, arith,
}
use match_x.Types.{
  ArenaIndex, Side, Order, EventMeta, MatchEvent, order_accepted, order_rejected, fill,
  order_cancelled, order_modified, book_update, stop_triggered, stp_none, stp_none,
}
use match_x.Arena
use match_x.Book.State.{IndexMap, get_level_qty}
use match_x.Engine.State.{MatchingEngine, emit}
use match_x.Engine.Matching.{
  Taker, Flow, same_group, emit_level, remove_maker, cancel_maker, decrement, prevent_self_trade,
  trade, meet, match_round, match_loop, match_against_book,
}

-- the quantity of the fills among the events
unfoldable pub filled_qty : List MatchEvent → ℕ
filled_qty [] = 0
filled_qty (fill meta maker taker price qty maker_left taker_left ∷ es) = qty + filled_qty es
filled_qty (order_accepted meta id side price qty type ∷ es) = filled_qty es
filled_qty (order_rejected meta id reason ∷ es) = filled_qty es
filled_qty (order_cancelled meta id qty ∷ es) = filled_qty es
filled_qty (order_modified meta id price qty ∷ es) = filled_qty es
filled_qty (book_update meta side price qty ∷ es) = filled_qty es
filled_qty (stop_triggered meta id new ∷ es) = filled_qty es

-- the fills among the events
unfoldable pub fills_of : List MatchEvent → List MatchEvent
fills_of [] = []
fills_of (fill meta maker taker price qty maker_left taker_left ∷ es) =
    fill meta maker taker price qty maker_left taker_left ∷ fills_of es
fills_of (order_accepted meta id side price qty type ∷ es) = fills_of es
fills_of (order_rejected meta id reason ∷ es) = fills_of es
fills_of (order_cancelled meta id qty ∷ es) = fills_of es
fills_of (order_modified meta id price qty ∷ es) = fills_of es
fills_of (book_update meta side price qty ∷ es) = fills_of es
fills_of (stop_triggered meta id new ∷ es) = fills_of es

unfoldable pub value_or_0 : Exec ℕ → ℕ
value_or_0 (ok n) = n
value_or_0 panic = 0
value_or_0 out_of_fuel = 0

same_group_self : (group : ℕ) → group ≢ stp_none → same_group (some group) group ≡ true
unfolding same_group
same_group_self group h = ground arith

module _ {M : Type 0} where
  pub events-emit :
      (e e' : MatchingEngine M) (f : EventMeta → MatchEvent)
      → emit e f ≡ ok e'
      → e'.events ≡ f (record { sequence = e'.sequence; timestamp_ns = e'.timestamp_ns }) ∷ e.events
  unfolding emit add64
  events-emit e e' f h = ground arith

  pub events-emit_level :
      (e e' : MatchingEngine M) (s : Side) (p : ℕ)
      → emit_level e s p ≡ ok e'
      → e'.events
        ≡ book_update
            (record { sequence = e'.sequence; timestamp_ns = e'.timestamp_ns })
            s
            p
            (value_or_0 (get_level_qty e.book s p))
          ∷ e.events
  unfolding emit_level value_or_0
  events-emit_level e e' s p h = grind (arith, events-emit)

module _ {M : Type 0} ⦃map : IndexMap M⦄ where
  pub events-remove_maker :
      (e e' : MatchingEngine M) (i : ArenaIndex) → remove_maker e i ≡ ok e' → e'.events ≡ e.events
  unfolding remove_maker
  events-remove_maker e e' i h = ground arith

  filled-cancel_maker :
      (e e' : MatchingEngine M) (i : ArenaIndex) (o : Order) (p : ℕ)
      → cancel_maker e i o p ≡ ok e'
      → filled_qty e'.events ≡ filled_qty e.events
  unfolding cancel_maker filled_qty
  filled-cancel_maker e e' i o p h =
      grind (arith, events-remove_maker, events-emit, events-emit_level)

  filled-decrement :
      (e : MatchingEngine M) (i : ArenaIndex) (o : Order) (p left : ℕ) (r : MatchingEngine M × ℕ)
      → decrement e i o p left ≡ ok r
      → filled_qty r.0.events + r.1 ≤ filled_qty e.events + left
  unfolding decrement filled_qty
  filled-decrement e i o p left r h = grind (arith, events-remove_maker, events-emit_level)

  filled-prevent_self_trade :
      (e : MatchingEngine M) (i : ArenaIndex) (o : Order) (p left : ℕ)
      (r : MatchingEngine M × ℕ × Flow)
      → prevent_self_trade e i o p left ≡ ok r
      → filled_qty r.0.events + r.1 ≤ filled_qty e.events + left
  unfolding prevent_self_trade
  filled-prevent_self_trade e i o p left r h = grind (arith, filled-cancel_maker, filled-decrement)

  fillless-cancel_maker :
      (e e' : MatchingEngine M) (i : ArenaIndex) (o : Order) (p : ℕ)
      → cancel_maker e i o p ≡ ok e'
      → fills_of e'.events ≡ fills_of e.events
  unfolding cancel_maker fills_of
  fillless-cancel_maker e e' i o p h =
      grind (arith, events-remove_maker, events-emit, events-emit_level)

  fillless-decrement :
      (e : MatchingEngine M) (i : ArenaIndex) (o : Order) (p left : ℕ) (r : MatchingEngine M × ℕ)
      → decrement e i o p left ≡ ok r
      → fills_of r.0.events ≡ fills_of e.events
  unfolding decrement fills_of
  fillless-decrement e i o p left r h = grind (arith, events-remove_maker, events-emit_level)

  fillless-prevent_self_trade :
      (e : MatchingEngine M) (i : ArenaIndex) (o : Order) (p left : ℕ)
      (r : MatchingEngine M × ℕ × Flow)
      → prevent_self_trade e i o p left ≡ ok r
      → fills_of r.0.events ≡ fills_of e.events
  unfolding prevent_self_trade
  fillless-prevent_self_trade e i o p left r h =
      grind (arith, fillless-cancel_maker, fillless-decrement)

  -- When the taker has a self-trade group and the maker met has the same, and the round returns,
  -- the fills in the event buffer are those from before, in every self-trade mode.
  pub meet-self_trade :
      (t : Taker) (e : MatchingEngine M) (i : ArenaIndex) (o : Order) (p left : ℕ)
      (r : MatchingEngine M × ℕ × Flow)
      → meet t e i p left ≡ ok r
      → Arena.get e.arena i ≡ ok o
      → t.stp ≡ some o.stp_group
      → o.stp_group ≢ stp_none
      → fills_of r.0.events ≡ fills_of e.events
  unfolding meet
  meet-self_trade t e i o p left r h maker same grouped =
      let met : same_group t.stp o.stp_group ≡ true =
        rw same (same_group_self o.stp_group grouped) in
      grind (arith, events-remove_maker, fillless-prevent_self_trade)

  filled-trade :
      (t : Taker) (e : MatchingEngine M) (i : ArenaIndex) (o : Order) (p left : ℕ)
      (r : MatchingEngine M × ℕ × Flow)
      → trade t e i o p left ≡ ok r
      → filled_qty r.0.events + r.1 ≡ filled_qty e.events + left
  unfolding trade filled_qty
  filled-trade t e i o p left r h =
      grind (arith, events-remove_maker, events-emit, events-emit_level)

  filled-meet :
      (t : Taker) (e : MatchingEngine M) (i : ArenaIndex) (p left : ℕ)
      (r : MatchingEngine M × ℕ × Flow)
      → meet t e i p left ≡ ok r
      → filled_qty r.0.events + r.1 ≤ filled_qty e.events + left
  unfolding meet
  filled-meet t e i p left r h =
      grind (arith, events-remove_maker, filled-prevent_self_trade, filled-trade)

  filled-meet_ungrouped :
      (t : Taker) (e : MatchingEngine M) (i : ArenaIndex) (p left : ℕ)
      (r : MatchingEngine M × ℕ × Flow)
      → meet t e i p left ≡ ok r
      → t.stp ≡ none
      → filled_qty r.0.events + r.1 ≡ filled_qty e.events + left
  unfolding meet same_group
  filled-meet_ungrouped t e i p left r h none_stp = grind (arith, events-remove_maker, filled-trade)

  filled-match_round :
      (t : Taker) (e : MatchingEngine M) (left : ℕ) (r : MatchingEngine M × ℕ × Flow)
      → match_round t e left ≡ ok r
      → filled_qty r.0.events + r.1 ≤ filled_qty e.events + left
  unfolding match_round
  filled-match_round t e left r h = grind (arith, filled-meet)

  filled-match_round_ungrouped :
      (t : Taker) (e : MatchingEngine M) (left : ℕ) (r : MatchingEngine M × ℕ × Flow)
      → match_round t e left ≡ ok r
      → t.stp ≡ none
      → filled_qty r.0.events + r.1 ≡ filled_qty e.events + left
  unfolding match_round
  filled-match_round_ungrouped t e left r h none_stp = grind (arith, filled-meet_ungrouped)

  filled-match_loop :
      (fuel : ℕ) (t : Taker) (e : MatchingEngine M) (left : ℕ) (r : MatchingEngine M × ℕ × Bool)
      → match_loop fuel t e left ≡ ok r
      → filled_qty r.0.events + r.1 ≤ filled_qty e.events + left
  unfolding match_loop
  filled-match_loop zero t e left r h = absurd (ground arith)
  filled-match_loop (suc fuel) t e left r h = elim (Exec-cases (match_round t e left)) [
    | inl (x, hx) ↦
        let round = filled-match_round t e left x hx in
        let rest = filled-match_loop fuel t x.0 x.1 r in grind arith
    | inr fails ↦ grind arith
  ]

  filled-match_loop_ungrouped :
      (fuel : ℕ) (t : Taker) (e : MatchingEngine M) (left : ℕ) (r : MatchingEngine M × ℕ × Bool)
      → match_loop fuel t e left ≡ ok r
      → t.stp ≡ none
      → filled_qty r.0.events + r.1 ≡ filled_qty e.events + left
  unfolding match_loop
  filled-match_loop_ungrouped zero t e left r h none_stp = absurd (ground arith)
  filled-match_loop_ungrouped (suc fuel) t e left r h none_stp =
      elim (Exec-cases (match_round t e left)) [
        | inl (x, hx) ↦
            let round = filled-match_round_ungrouped t e left x hx none_stp in
            let rest = filled-match_loop_ungrouped fuel t x.0 x.1 r in grind arith
        | inr fails ↦ grind arith
      ]

  -- When `match_against_book` returns, the quantity of the fills in the event buffer together with
  -- what is left is at most what they were before, whatever self-trade prevention does.
  pub match_against_book-filled :
      (t : Taker) (e : MatchingEngine M) (left : ℕ) (r : MatchingEngine M × ℕ × Bool)
      → match_against_book t e left ≡ ok r
      → filled_qty r.0.events + r.1 ≤ filled_qty e.events + left
  unfolding match_against_book
  match_against_book-filled t e left r h = filled-match_loop (suc (left + e.arena.len)) t e left r h

  -- When the incoming order has no self-trade group and `match_against_book` returns, the quantity
  -- of the fills in the event buffer has grown by exactly what the order has lost.
  pub match_against_book-filled_ungrouped :
      (t : Taker) (e : MatchingEngine M) (left : ℕ) (r : MatchingEngine M × ℕ × Bool)
      → match_against_book t e left ≡ ok r
      → t.stp ≡ none
      → filled_qty r.0.events + r.1 ≡ filled_qty e.events + left
  unfolding match_against_book
  match_against_book-filled_ungrouped t e left r h none_stp =
      filled-match_loop_ungrouped (suc (left + e.arena.len)) t e left r h none_stp
