-- ===== src/Engine/State.antt =====
-- crates/matchx-engine/src/lib.rs: the state of `MatchingEngine`, and `emit`.
use match_x.Base.{ℕ, List, [], ◌∷◌, ltb, Option, none, length, Exec, ok, ◌>>=◌, ◌>>◌, assert, add64}
use match_x.Types.{
  OrderId, Side, TimeInForce, RejectReason, EventMeta, MatchEvent, order_rejected, InstrumentConfig,
}
use match_x.Arena
use match_x.Arena.{Arena}
use match_x.Book.State
use match_x.Book.State.{OrderBook, IndexMap}

abbrev pub max_events_per_call : ℕ
max_events_per_call = 64

pub record StopEntry : Type 0 where
  pub id : OrderId
  pub side : Side
  pub limit_price : ℕ
  pub qty : ℕ
  pub time_in_force : TimeInForce
  pub visible_qty : Option ℕ
  pub stp_group : Option ℕ

-- `events` is the filled part of `event_buf`, the newest event first.
pub record MatchingEngine (M : Type 0) : Type 0 where
  pub book : OrderBook M
  pub arena : Arena
  pub config : InstrumentConfig
  pub sequence : ℕ
  pub timestamp_ns : ℕ
  pub events : List MatchEvent
  pub stop_bids : List (ℕ × StopEntry)
  pub stop_asks : List (ℕ × StopEntry)
  pub last_trade_price : Option ℕ

module _ {M : Type 0} ⦃map : IndexMap M⦄ where
  unfoldable pub new : InstrumentConfig → ℕ → MatchingEngine M
  new config arena_capacity = record {
    book = State.new config;
    arena = Arena.new arena_capacity;
    config = config;
    sequence = 0;
    timestamp_ns = 0;
    events = [];
    stop_bids = [];
    stop_asks = [];
    last_trade_price = none;
  }

module _ {M : Type 0} where
  unfoldable pub emit : MatchingEngine M → (EventMeta → MatchEvent) → Exec (MatchingEngine M)
  emit e event_fn = do
    sequence ← add64 e.sequence 1
    timestamp_ns ← add64 e.timestamp_ns 1
    assert (ltb (length e.events) max_events_per_call)
    ok (record e {
      sequence = sequence;
      timestamp_ns = timestamp_ns;
      events = event_fn (record { sequence = sequence; timestamp_ns = timestamp_ns }) ∷ e.events;
    })

  unfoldable pub emit_rejected : MatchingEngine M → OrderId → RejectReason → Exec (MatchingEngine M)
  emit_rejected e id reason = emit e (λ meta. order_rejected meta id reason)
