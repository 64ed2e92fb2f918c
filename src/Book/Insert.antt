-- ===== src/Book/Insert.antt =====
-- crates/matchx-book/src/lib.rs: `insert_order`.
use match_x.Base.{ℕ, ltb, if◌then◌else◌, Option, none, some, Exec, ok, ◌>>=◌, add64, add32}
use match_x.Types.{
  Order, OrderId, ArenaIndex, Side, bid, ask, OrderType, TimeInForce, PriceLevel, arena_null,
  stp_none,
}
use match_x.Arena
use match_x.Arena.{Arena}
use match_x.Book.State.{
  OrderBook, IndexMap, level_at, set_level, depth_add, dense_index, set_occupied,
}

-- the arguments of `insert_order`
pub record NewEntry : Type 0 where
  pub id : OrderId
  pub side : Side
  pub price : ℕ
  pub qty : ℕ
  pub order_type : OrderType
  pub visible_qty : Option ℕ
  pub stp_group : Option ℕ

abbrev pub unwrap_or {ℓ} : {A : Type ℓ} → Option A → A → A
unwrap_or none d = d
unwrap_or (some a) d = a

unfoldable pub order_of : NewEntry → Order
order_of e = record {
  id = e.id;
  price = e.price;
  quantity = e.qty;
  filled = 0;
  timestamp = 0;
  visible_quantity = unwrap_or e.visible_qty e.qty;
  stp_group = unwrap_or e.stp_group stp_none;
  prev = arena_null;
  next = arena_null;
  side = e.side;
  order_type = e.order_type;
  time_in_force = TimeInForce.gtc;
}

-- Link slot `idx` behind the tail of the level.
unfoldable pub link_tail : Arena → PriceLevel → ArenaIndex → Exec (Arena × PriceLevel)
link_tail arena level idx = do
  arena ←
      Arena.get_mut arena idx
        (λ o. ok (record o { prev = unwrap_or level.tail arena_null; next = arena_null }))
  elim level.tail [
    | some tail ↦ do
      arena ← Arena.get_mut arena tail (λ o. ok (record o { next = idx }))
      ok (arena, record level { tail = some idx })
    | none ↦ ok (arena, record level { head = some idx; tail = some idx })
  ]

module _ {M : Type 0} where
  -- the price becomes the best of its side, if it is better than the best so far
  unfoldable pub improve_best : OrderBook M → Side → ℕ → OrderBook M
  improve_best b bid price = elim b.best_bid_tick [
    | none ↦ record b { best_bid_tick = some price }
    | some best ↦ if ltb best price then record b { best_bid_tick = some price } else b
  ]
  improve_best b ask price = elim b.best_ask_tick [
    | none ↦ record b { best_ask_tick = some price }
    | some best ↦ if ltb price best then record b { best_ask_tick = some price } else b
  ]

  unfoldable pub mark_occupied : OrderBook M → Side → ℕ → Exec (OrderBook M)
  mark_occupied b side price = elim (dense_index b price) [
    | some i ↦ set_occupied b side i
    | none ↦ ok b
  ]

module _ {M : Type 0} ⦃map : IndexMap M⦄ where
  -- from the allocated slot on
  unfoldable pub place_order :
      OrderBook M → NewEntry → Arena → ArenaIndex → Exec (OrderBook M × Arena × Option ArenaIndex)
  place_order b e arena idx = do
    let b = record b { order_index = map.insert b.order_index e.id idx }
    level ← level_at b e.side e.price
    (arena, level) ← link_tail arena level idx
    total ← add64 level.total_quantity e.qty
    count ← add32 level.order_count 1
    let b =
        set_level b e.side e.price (record level { total_quantity = total; order_count = count })
    b ← depth_add b e.side e.price e.qty
    b ← mark_occupied b e.side e.price
    ok (improve_best b e.side e.price, arena, some idx)

  unfoldable pub insert_order :
      OrderBook M → NewEntry → Arena → Exec (OrderBook M × Arena × Option ArenaIndex)
  insert_order b e arena = elim (map.get b.order_index e.id) [
    | some _ ↦ ok (b, arena, none)
    | none ↦ do
      (arena, slot) ← Arena.alloc arena (order_of e)
      elim slot [ none ↦ ok (b, arena, none) | some idx ↦ place_order b e arena idx ]
  ]
