-- ===== src/Engine/Matching.antt =====
-- crates/matchx-engine/src/lib.rs: `match_against_book`, a round of its loop and the loop.
pub mod Progress
pub mod Queues
pub mod Fills
pub mod Prices
use match_x.Base.{
  ℕ, zero, suc, ◌+◌, ◌-◌, min, ltb, ◌==◌, if◌then◌else◌, Bool, true, false, Option, none, some,
  Exec, ok, out_of_fuel, ◌>>=◌, add64, sub64,
}
use match_x.Types.{
  OrderId, ArenaIndex, Side, bid, ask, opposite, Order, cancel_newest, cancel_oldest, cancel_both,
  decrement_and_cancel, stp_none, remaining, matchable_qty, fill, order_cancelled, book_update,
}
use match_x.Arena
use match_x.Book.State.{OrderBook, IndexMap, get_level, get_level_qty, level_at, set_level}
use match_x.Book.Remove.{remove_order, reduce_order_qty}
use match_x.Engine.Policy.{is_price_acceptable}
use match_x.Engine.State.{MatchingEngine, emit}

-- What the loop keeps of the incoming order.
pub record Taker : Type 0 where
  pub id : OrderId
  pub side : Side
  pub price : ℕ
  pub stp : Option ℕ

-- A round ends the loop with its result, or goes on.
pub data Flow : Type 0 where
  stop : Bool → Flow
  continue : Flow

-- the pattern `Some(ts) if maker_stp != STP_NONE && ts == maker_stp`
unfoldable pub same_group : Option ℕ → ℕ → Bool
same_group none maker_stp = false
same_group (some ts) maker_stp = if maker_stp == stp_none then false else ts == maker_stp

module _ {M : Type 0} where
  unfoldable pub best_opposing : OrderBook M → Side → Option ℕ
  best_opposing b bid = b.best_ask_tick
  best_opposing b ask = b.best_bid_tick

  -- the `BookUpdate` of a level after a change
  unfoldable pub emit_level : MatchingEngine M → Side → ℕ → Exec (MatchingEngine M)
  emit_level e side price = do
    qty ← get_level_qty e.book side price
    emit e (λ meta. book_update meta side price qty)

module _ {M : Type 0} ⦃map : IndexMap M⦄ where
  unfoldable pub remove_maker : MatchingEngine M → ArenaIndex → Exec (MatchingEngine M)
  remove_maker e maker_idx = do
    (book, arena, _, _) ← remove_order e.book maker_idx e.arena
    ok (record e { book = book; arena = arena })

  -- the resting order goes, with its two events
  unfoldable pub cancel_maker : MatchingEngine M → ArenaIndex → Order → ℕ → Exec (MatchingEngine M)
  cancel_maker e maker_idx maker price = do
    e ← remove_maker e maker_idx
    e ← emit e (λ meta. order_cancelled meta maker.id (remaining maker))
    emit_level e maker.side price

  -- both orders shrink by the overlap; a maker that is used up goes
  unfoldable pub decrement :
      MatchingEngine M → ArenaIndex → Order → ℕ → ℕ → Exec (MatchingEngine M × ℕ)
  decrement e maker_idx maker price left = do
    let overlap = min left (remaining maker)
    e ←
        (if remaining maker == overlap then remove_maker e maker_idx else (do
          (book, arena) ← reduce_order_qty e.book maker_idx overlap e.arena
          ok (record e { book = book; arena = arena })))
    e ← emit_level e maker.side price
    ok (e, left - overlap)

  unfoldable pub prevent_self_trade :
      MatchingEngine M → ArenaIndex → Order → ℕ → ℕ → Exec (MatchingEngine M × ℕ × Flow)
  prevent_self_trade e maker_idx maker price left = elim e.config.stp_mode [
    | cancel_newest ↦ ok (e, left, stop false)
    | cancel_oldest ↦ do e ← cancel_maker e maker_idx maker price; ok (e, left, continue)
    | cancel_both ↦ do e ← cancel_maker e maker_idx maker price; ok (e, left, stop true)
    | decrement_and_cancel ↦ do
      (e, left) ← decrement e maker_idx maker price left
      ok (e, left, stop true)
  ]

  unfoldable pub trade :
      Taker → MatchingEngine M → ArenaIndex → Order → ℕ → ℕ → Exec (MatchingEngine M × ℕ × Flow)
  trade taker e maker_idx maker price left = do
    let fill_qty = min left (matchable_qty maker)
    arena ←
        Arena.get_mut e.arena maker_idx
          (λ o. do filled ← add64 o.filled fill_qty; ok (record o { filled = filled }))
    level ← level_at e.book (opposite taker.side) price
    total ← sub64 level.total_quantity fill_qty
    let book =
        set_level e.book (opposite taker.side) price (record level { total_quantity = total })
    let left = left - fill_qty
    maker' ← Arena.get arena maker_idx
    let e = record e { book = book; arena = arena }
    e ← emit e (λ meta. fill meta maker.id taker.id price fill_qty (remaining maker') left)
    let e = record e { last_trade_price = some price }
    e ← emit_level e maker.side price
    e ← (if remaining maker' == 0 then remove_maker e maker_idx else ok e)
    ok (e, left, continue)

  -- a round with the maker at the head of the best level
  unfoldable pub meet :
      Taker → MatchingEngine M → ArenaIndex → ℕ → ℕ → Exec (MatchingEngine M × ℕ × Flow)
  meet taker e maker_idx price left = do
    maker ← Arena.get e.arena maker_idx
    (if remaining maker == 0
        then (do e ← remove_maker e maker_idx; ok (e, left, continue))
        else if same_group taker.stp maker.stp_group
        then prevent_self_trade e maker_idx maker price left
        else trade taker e maker_idx maker price left)

  -- a round of the loop, with something left to fill
  unfoldable pub match_round : Taker → MatchingEngine M → ℕ → Exec (MatchingEngine M × ℕ × Flow)
  match_round taker e left = elim (best_opposing e.book taker.side) [
    | none ↦ ok (e, left, stop false)
    | some price ↦
        if is_price_acceptable taker.side taker.price price
        then (do
          level ← get_level e.book (opposite taker.side) price
          elim level.head [
            | none ↦ ok (e, left, stop false)
            | some maker_idx ↦ meet taker e maker_idx price left
          ])
        else ok (e, left, stop false)
  ]

  unfoldable pub match_loop : ℕ → Taker → MatchingEngine M → ℕ → Exec (MatchingEngine M × ℕ × Bool)
  match_loop zero taker e left = out_of_fuel
  match_loop (suc fuel) taker e left =
      if ltb 0 left
      then (do
        (e, left, flow) ← match_round taker e left
        elim flow [
          | stop cancel_incoming ↦ ok (e, left, cancel_incoming)
          | continue ↦ match_loop fuel taker e left
        ])
      else ok (e, left, false)

  -- A round fills something or removes a resting order, so this fuel suffices.
  unfoldable pub match_against_book :
      Taker → MatchingEngine M → ℕ → Exec (MatchingEngine M × ℕ × Bool)
  match_against_book taker e left = match_loop (suc (left + e.arena.len)) taker e left
