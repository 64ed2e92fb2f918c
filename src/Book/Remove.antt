-- ===== src/Book/Remove.antt =====
-- crates/matchx-book/src/lib.rs: `remove_order`, `reduce_order_qty` and the refresh of the best
-- prices.
use match_x.Base.{
  ℕ, ◌==◌, if◌then◌else◌, Bool, false, Option, none, some, Exec, ok, ◌>>=◌, add64, sub64,
}
use match_x.Types.{ArenaIndex, Side, bid, ask, PriceLevel, arena_null, remaining, is_empty}
use match_x.Arena
use match_x.Arena.{Arena}
use match_x.Book.Bitset
use match_x.Book.PriceMap
use match_x.Book.State.{
  OrderBook, IndexMap, level_at, set_level, depth_remove, dense_index, clear_occupied,
  level_is_empty, sparse_levels, with_sparse,
}

-- A link as an option.
abbrev pub link : ArenaIndex → Option ArenaIndex
link i = if i == arena_null then none else some i

abbrev pub or_else {ℓ} : {A : Type ℓ} → Option A → Option A → Option A
or_else none d = d
or_else (some a) d = some a

abbrev is_best : Option ℕ → ℕ → Bool
is_best none price = false
is_best (some best) price = best == price

-- The link to the order from its front, or from the head of the level.
unfoldable pub link_front :
    Arena → PriceLevel → ArenaIndex → Option ArenaIndex → Exec (Arena × PriceLevel)
link_front arena level next none = ok (arena, record level { head = link next })
link_front arena level next (some p) = do
  arena ← Arena.get_mut arena p (λ o. ok (record o { next = next }))
  ok (arena, level)

-- The link to the order from its back, or from the tail of the level.
unfoldable pub link_back :
    Arena → PriceLevel → ArenaIndex → Option ArenaIndex → Exec (Arena × PriceLevel)
link_back arena level prev none = ok (arena, record level { tail = link prev })
link_back arena level prev (some n) = do
  arena ← Arena.get_mut arena n (λ o. ok (record o { prev = prev }))
  ok (arena, level)

-- Take an order with these links out of the list of its level.
unfoldable pub unlink : Arena → PriceLevel → ArenaIndex → ArenaIndex → Exec (Arena × PriceLevel)
unlink arena level prev next = do
  (arena, level) ← link_front arena level next (link prev)
  link_back arena level prev (link next)

module _ {M : Type 0} where
  unfoldable pub find_highest_occupied_bid : OrderBook M → Exec (Option ℕ)
  find_highest_occupied_bid b = elim (Bitset.highest b.bids_occupied) [
    | none ↦ ok none
    | some tick ↦ do price ← add64 b.dense_base_price tick; ok (some price)
  ]

  unfoldable pub find_lowest_occupied_ask : OrderBook M → Exec (Option ℕ)
  find_lowest_occupied_ask b = elim (Bitset.lowest b.asks_occupied) [
    | none ↦ ok none
    | some tick ↦ do price ← add64 b.dense_base_price tick; ok (some price)
  ]

  unfoldable pub prune_if_sparse_empty : OrderBook M → Side → ℕ → OrderBook M
  prune_if_sparse_empty b side price = elim (dense_index b price) [
    | some _ ↦ b
    | none ↦ elim (PriceMap.get (sparse_levels b side) price) [
      | none ↦ b
      | some l ↦
          if is_empty l
          then with_sparse b side (PriceMap.remove (sparse_levels b side) price)
          else b
    ]
  ]

  -- `best_bid_tick` after the best level has gone: the dense window first, then the sparse map
  unfoldable pub next_best : OrderBook M → Side → Exec (Option ℕ)
  next_best b bid = do
    dense ← find_highest_occupied_bid b
    ok (or_else dense (PriceMap.last_key b.bids_sparse))
  next_best b ask = do
    dense ← find_lowest_occupied_ask b
    ok (or_else dense (PriceMap.first_key b.asks_sparse))

  unfoldable pub clear_if_dense : OrderBook M → Side → ℕ → Exec (OrderBook M)
  clear_if_dense b side price = elim (dense_index b price) [
    | some i ↦ clear_occupied b side i
    | none ↦ ok b
  ]

  unfoldable pub refresh_side : OrderBook M → Side → ℕ → Exec (OrderBook M)
  refresh_side b bid price =
      if is_best b.best_bid_tick price
      then (do best ← next_best b bid; ok (record b { best_bid_tick = best }))
      else ok b
  refresh_side b ask price =
      if is_best b.best_ask_tick price
      then (do best ← next_best b ask; ok (record b { best_ask_tick = best }))
      else ok b

  unfoldable pub refresh_best_after_level_empty : OrderBook M → Side → ℕ → Exec (OrderBook M)
  refresh_best_after_level_empty b side price = do
    b ← clear_if_dense b side price
    refresh_side b side price

  -- `reduce_order_qty`
  unfoldable pub reduce_order_qty :
      OrderBook M → ArenaIndex → ℕ → Arena → Exec (OrderBook M × Arena)
  reduce_order_qty b idx delta arena = do
    arena ←
        Arena.get_mut arena idx
          (λ o. do filled ← add64 o.filled delta; ok (record o { filled = filled }))
    order ← Arena.get arena idx
    level ← level_at b order.side order.price
    total ← sub64 level.total_quantity delta
    let b = set_level b order.side order.price (record level { total_quantity = total })
    b ← depth_remove b order.side order.price delta
    ok (b, arena)

module _ {M : Type 0} ⦃map : IndexMap M⦄ where
  unfoldable pub remove_order :
      OrderBook M → ArenaIndex → Arena → Exec (OrderBook M × Arena × Side × ℕ)
  remove_order b idx arena = do
    order ← Arena.get arena idx
    let side = order.side
    let price = order.price
    let qty = remaining order
    level ← level_at b side price
    (arena, level) ← unlink arena level order.prev order.next
    total ← sub64 level.total_quantity qty
    count ← sub64 level.order_count 1
    let b = set_level b side price (record level { total_quantity = total; order_count = count })
    b ← depth_remove b side price qty
    let b = record b { order_index = map.remove b.order_index order.id }
    arena ← Arena.free arena idx
    gone ← level_is_empty b side price
    b ←
        (if gone
          then refresh_best_after_level_empty (prune_if_sparse_empty b side price) side price
          else ok b)
    ok (b, arena, side, price)
