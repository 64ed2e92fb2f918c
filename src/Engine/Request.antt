-- ===== src/Engine/Request.antt =====
-- crates/matchx-engine/src/lib.rs: the arguments of `process_new_order`, the checks before an order
-- is accepted, and the queue of stop-limit orders.
use match_x.Base.{
  ℕ, ltb, leb, ◌==◌, if◌then◌else◌, Bool, true, false, Option, none, some, Exec, ok, ◌>>=◌, u64_max,
}
use match_x.Types.{
  OrderId, Side, bid, ask, opposite, OrderType, limit, market, iceberg, TimeInForce, gtc, ioc, fok,
  cancel_newest, invalid_price, invalid_quantity, order_accepted,
}
use match_x.Arena
use match_x.Book.State.{OrderBook, get_level}
use match_x.Book.SparseIndex.{partition_point, insert_at}
use match_x.Book.Depth.{ask_available_at_or_below, bid_available_at_or_above}
use match_x.Engine.Policy.{is_price_acceptable}
use match_x.Engine.State.{MatchingEngine, StopEntry, emit, emit_rejected}
use match_x.Engine.Matching.{best_opposing, same_group}

-- the arguments of `process_new_order`
pub record Request : Type 0 where
  pub id : OrderId
  pub side : Side
  pub price : ℕ
  pub qty : ℕ
  pub order_type : OrderType
  pub time_in_force : TimeInForce
  pub visible_qty : Option ℕ
  pub stop_price : Option ℕ
  pub stp_group : Option ℕ

-- a market order takes any price
unfoldable pub effective_price : Request → ℕ
effective_price r = elim r.order_type [
  | market ↦ elim r.side [ bid ↦ u64_max | ask ↦ 0 ]
  | _ ↦ r.price
]

-- what is done with the unfilled part of an order
pub data Remainder : Type 0 where
  rest_on_book cancel_rest : Remainder
  nothing : Remainder

-- the `match (order_type, time_in_force)` for a positive quantity
unfoldable pub remainder_of : OrderType → TimeInForce → Remainder
remainder_of limit gtc = rest_on_book
remainder_of iceberg gtc = rest_on_book
remainder_of market t = cancel_rest
remainder_of o ioc = cancel_rest
remainder_of o fok = cancel_rest
remainder_of o t = nothing

abbrev pub is_fok : TimeInForce → Bool
is_fok fok = true
is_fok _ = false

module _ {M : Type 0} where
  unfoldable pub would_cross : OrderBook M → Side → ℕ → Bool
  would_cross b bid price = elim b.best_ask_tick [ none ↦ false | some best ↦ leb best price ]
  would_cross b ask price = elim b.best_bid_tick [ none ↦ false | some best ↦ leb price best ]

  unfoldable pub check_available_liquidity : MatchingEngine M → Side → ℕ → Exec ℕ
  check_available_liquidity e bid price = ask_available_at_or_below e.book price
  check_available_liquidity e ask price = bid_available_at_or_above e.book price

  -- the group of the maker at the head of a crossable best level is the taker's
  unfoldable pub first_maker_matches : MatchingEngine M → Side → ℕ → Option ℕ → Exec Bool
  first_maker_matches e side price stp = elim (best_opposing e.book side) [
    | none ↦ ok false
    | some resting ↦
        if is_price_acceptable side price resting
        then (do
          level ← get_level e.book (opposite side) resting
          elim level.head [
            | none ↦ ok false
            | some idx ↦ do maker ← Arena.get e.arena idx; ok (same_group stp maker.stp_group)
          ])
        else ok false
  ]

  -- the check before the order is accepted, in the mode `CancelNewest` only
  unfoldable pub stp_rejects : MatchingEngine M → Request → Exec Bool
  stp_rejects e r = elim r.stp_group [
    | none ↦ ok false
    | some _ ↦ elim e.config.stp_mode [
      | cancel_newest ↦ first_maker_matches e r.side (effective_price r) r.stp_group
      | _ ↦ ok false
    ]
  ]

  -- the check that a fill-or-kill order can be filled
  unfoldable pub fok_rejects : MatchingEngine M → Request → Exec Bool
  fok_rejects e r =
      if is_fok r.time_in_force
      then (do
        available ← check_available_liquidity e r.side (effective_price r)
        ok (ltb available r.qty))
      else ok false

  unfoldable pub accept : MatchingEngine M → Request → Exec (MatchingEngine M)
  accept e r = emit e (λ meta. order_accepted meta r.id r.side r.price r.qty r.order_type)

  unfoldable pub queue_stop : MatchingEngine M → Request → ℕ → MatchingEngine M
  queue_stop e r stop_px =
      let entry : StopEntry = record {
        id = r.id;
        side = r.side;
        limit_price = r.price;
        qty = r.qty;
        time_in_force = r.time_in_force;
        visible_qty = r.visible_qty;
        stp_group = r.stp_group;
      } in
      elim r.side [
        | bid ↦ record e {
          stop_bids =
              insert_at (partition_point (λ s. ltb s.0 stop_px) e.stop_bids) (stop_px, entry)
                e.stop_bids;
        }
        | ask ↦ record e {
          stop_asks =
              insert_at (partition_point (λ s. ltb stop_px s.0) e.stop_asks) (stop_px, entry)
                e.stop_asks;
        }
      ]

  unfoldable pub process_stop_limit : MatchingEngine M → Request → Exec (MatchingEngine M)
  process_stop_limit e r =
      if r.qty == 0 then emit_rejected e r.id invalid_quantity else elim r.stop_price [
        | none ↦ emit_rejected e r.id invalid_price
        | some stop_px ↦ do e ← accept e r; ok (queue_stop e r stop_px)
      ]
