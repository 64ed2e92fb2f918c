-- ===== src/Engine/Orders.antt =====
-- crates/matchx-engine/src/lib.rs: `process_new_order`, `process_cancel` and `process_modify`.
pub mod Ends
use match_x.Base.{ℕ, ltb, ◌==◌, if◌then◌else◌, none, some, Exec, ok, ◌>>=◌}
use match_x.Types.{
  OrderId, limit, post_only, stop_limit, gtc, invalid_quantity, order_not_found, would_cross_spread,
  insufficient_liquidity, self_trade_prevention_triggered, duplicate_order_id, remaining,
  order_cancelled, order_modified, book_update,
}
use match_x.Arena
use match_x.Book.State.{IndexMap, lookup}
use match_x.Book.Insert.{insert_order}
use match_x.Book.Remove.{remove_order}
use match_x.Engine.State.{MatchingEngine, emit, emit_rejected}
use match_x.Engine.Matching.{emit_level, match_against_book}
use match_x.Engine.Request.{
  Request, effective_price, remainder_of, rest_on_book, cancel_rest, nothing, would_cross,
  stp_rejects, fok_rejects, accept, process_stop_limit,
}

module _ {M : Type 0} ⦃map : IndexMap M⦄ where
  -- `insert_order`, whose result the engine ignores, and the `BookUpdate`
  unfoldable pub rest_order : MatchingEngine M → Request → ℕ → Exec (MatchingEngine M)
  rest_order e r qty = do
    (book, arena, _) ←
        insert_order e.book
          (record {
            id = r.id;
            side = r.side;
            price = r.price;
            qty = qty;
            order_type = r.order_type;
            visible_qty = r.visible_qty;
            stp_group = r.stp_group;
          })
          e.arena
    emit (record e { book = book; arena = arena }) (λ meta. book_update meta r.side r.price qty)

  unfoldable pub process_post_only : MatchingEngine M → Request → Exec (MatchingEngine M)
  process_post_only e r =
      if would_cross e.book r.side r.price
      then emit_rejected e r.id would_cross_spread
      else (do e ← accept e r; rest_order e r r.qty)

  unfoldable pub handle_remainder : MatchingEngine M → Request → ℕ → Exec (MatchingEngine M)
  handle_remainder e r qty =
      if ltb 0 qty
      then elim (remainder_of r.order_type r.time_in_force) [
        | rest_on_book ↦ rest_order e r qty
        | cancel_rest ↦ emit e (λ meta. order_cancelled meta r.id qty)
        | nothing ↦ ok e
      ]
      else ok e

  -- from the acceptance on
  unfoldable pub execute : MatchingEngine M → Request → Exec (MatchingEngine M)
  execute e r = do
    e ← accept e r
    (e, qty, cancel_incoming) ←
        match_against_book
          (record { id = r.id; side = r.side; price = effective_price r; stp = r.stp_group }) e
          r.qty
    (if cancel_incoming
        then emit e (λ meta. order_cancelled meta r.id qty)
        else handle_remainder e r qty)

  -- the checks of an order that is neither post-only nor stop-limit
  unfoldable pub process_limit : MatchingEngine M → Request → Exec (MatchingEngine M)
  process_limit e r =
      if r.qty == 0 then emit_rejected e r.id invalid_quantity else elim (lookup e.book r.id) [
        | some _ ↦ emit_rejected e r.id duplicate_order_id
        | none ↦ do
          short ← fok_rejects e r
          (if short then emit_rejected e r.id insufficient_liquidity else (do
            self ← stp_rejects e r
            (if self then emit_rejected e r.id self_trade_prevention_triggered else execute e r)))
      ]

  unfoldable pub process_new_order : MatchingEngine M → Request → Exec (MatchingEngine M)
  process_new_order e r = elim r.order_type [
    | post_only ↦ process_post_only e r
    | stop_limit ↦ process_stop_limit e r
    | _ ↦ process_limit e r
  ]

  unfoldable pub process_cancel : MatchingEngine M → OrderId → Exec (MatchingEngine M)
  process_cancel e id = elim (lookup e.book id) [
    | some idx ↦ do
      order ← Arena.get e.arena idx
      (book, arena, _, _) ← remove_order e.book idx e.arena
      e ←
          emit (record e { book = book; arena = arena })
            (λ meta. order_cancelled meta id (remaining order))
      emit_level e order.side order.price
    | none ↦ emit_rejected e id order_not_found
  ]

  unfoldable pub process_modify : MatchingEngine M → OrderId → ℕ → ℕ → Exec (MatchingEngine M)
  process_modify e id new_price new_qty = elim (lookup e.book id) [
    | some idx ↦ do
      order ← Arena.get e.arena idx
      (book, arena, _, _) ← remove_order e.book idx e.arena
      e ←
          emit (record e { book = book; arena = arena })
            (λ meta. order_modified meta id new_price new_qty)
      e ← emit_level e order.side order.price
      process_new_order e (record {
        id = id;
        side = order.side;
        price = new_price;
        qty = new_qty;
        order_type = limit;
        time_in_force = gtc;
        visible_qty = none;
        stop_price = none;
        stp_group = none;
      })
    | none ↦ emit_rejected e id order_not_found
  ]
