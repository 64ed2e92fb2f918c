-- ===== src/Types.antt =====
-- crates/matchx-types/src/lib.rs: orders, price levels, events and commands. The newtypes OrderId
-- and ArenaIndex are their numbers.
pub mod Slice
pub mod Tests
use match_x.Base.{
  ℕ, ◌+◌, ◌-◌, ◌%◌, min, Bool, ◌==◌, leb, ltb, if◌then◌else◌, Option, none, some, u32_max,
}

abbrev pub OrderId : Type 0
OrderId = ℕ

abbrev pub ArenaIndex : Type 0
ArenaIndex = ℕ

pub data Side : Type 0 where
  bid ask : Side

unfoldable pub opposite : Side → Side
opposite bid = ask
opposite ask = bid

pub data OrderType : Type 0 where
  limit market post_only stop_limit iceberg : OrderType

pub data TimeInForce : Type 0 where
  gtc ioc fok : TimeInForce

pub data StpMode : Type 0 where
  cancel_newest cancel_oldest cancel_both decrement_and_cancel : StpMode

pub data RejectReason : Type 0 where
  invalid_price invalid_quantity instrument_not_found order_not_found : RejectReason
  would_cross_spread insufficient_liquidity : RejectReason
  self_trade_prevention_triggered duplicate_order_id : RejectReason

abbrev pub arena_null : ArenaIndex
arena_null = u32_max

abbrev pub stp_none : ℕ
stp_none = u32_max

-- The padding byte `_pad` is left out.
pub record Order : Type 0 where
  pub id : OrderId
  pub price : ℕ
  pub quantity : ℕ
  pub filled : ℕ
  pub timestamp : ℕ
  pub visible_quantity : ℕ
  pub stp_group : ℕ
  pub prev : ArenaIndex
  pub next : ArenaIndex
  pub side : Side
  pub order_type : OrderType
  pub time_in_force : TimeInForce

-- `saturating_sub` is the subtraction that stops at 0.
unfoldable pub remaining : Order → ℕ
remaining o = o.quantity - o.filled

unfoldable pub is_valid_state : Order → Bool
is_valid_state o = leb o.filled o.quantity

unfoldable pub is_filled : Order → Bool
is_filled o = leb o.quantity o.filled

-- the visible slice of an iceberg order, given its peak
slice_qty : Order → ℕ → ℕ
unfolding remaining
slice_qty o peak = min (peak - o.filled % peak) (remaining o)

unfoldable pub matchable_qty : Order → ℕ
unfolding remaining slice_qty
matchable_qty o = elim o.order_type [
  | iceberg ↦ if ltb 0 o.visible_quantity then slice_qty o o.visible_quantity else remaining o
  | _ ↦ remaining o
]

pub record PriceLevel : Type 0 where
  pub total_quantity : ℕ
  pub order_count : ℕ
  pub head : Option ArenaIndex
  pub tail : Option ArenaIndex

abbrev pub empty_level : PriceLevel
empty_level = record { total_quantity = 0; order_count = 0; head = none; tail = none }

unfoldable pub is_empty : PriceLevel → Bool
is_empty l = l.order_count == 0

pub record EventMeta : Type 0 where
  pub sequence : ℕ
  pub timestamp_ns : ℕ

pub data MatchEvent : Type 0 where
  order_accepted :
      (meta : EventMeta) (id : OrderId) (side : Side) (price qty : ℕ) (order_type : OrderType)
      → MatchEvent
  order_rejected : (meta : EventMeta) (id : OrderId) (reason : RejectReason) → MatchEvent
  fill :
      (meta : EventMeta) (maker_id taker_id : OrderId)
      (price qty maker_remaining taker_remaining : ℕ)
      → MatchEvent
  order_cancelled : (meta : EventMeta) (id : OrderId) (remaining_qty : ℕ) → MatchEvent
  order_modified : (meta : EventMeta) (id : OrderId) (new_price new_qty : ℕ) → MatchEvent
  book_update : (meta : EventMeta) (side : Side) (price qty : ℕ) → MatchEvent
  stop_triggered : (meta : EventMeta) (stop_id new_order_id : OrderId) → MatchEvent

pub data Command : Type 0 where
  new_order :
      (id : OrderId) (instrument_id : ℕ) (side : Side) (price qty : ℕ) (order_type : OrderType)
      (time_in_force : TimeInForce) (visible_qty stop_price stp_group : Option ℕ)
      → Command
  cancel_order : (id : OrderId) → Command
  modify_order : (id : OrderId) (new_price new_qty : ℕ) → Command

pub record InstrumentConfig : Type 0 where
  pub id : ℕ
  pub tick_size : ℕ
  pub lot_size : ℕ
  pub base_price : ℕ
  pub max_ticks : ℕ
  pub stp_mode : StpMode
