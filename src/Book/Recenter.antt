-- ===== src/Book/Recenter.antt =====
-- crates/matchx-book/src/lib.rs: `maybe_recenter` and `force_recenter`. The engine calls neither.
use match_x.Base.{
  ℕ, zero, suc, ◌+◌, ◌-◌, ◌*◌, ◌/◌, List, [], ◌∷◌, ◌==◌, ltb, leb, if◌then◌else◌, Bool, true, false,
  Option, none, some, length, get_elem?, set, replicate, Exec, ok, ◌>>=◌, ◌>>◌, assert, unwrap,
  add64,
}
use match_x.Types.{Side, bid, ask, empty_level, is_empty}
use match_x.Book.Fenwick
use match_x.Book.SparseIndex
use match_x.Book.SparseIndex.{SparseIndex}
use match_x.Book.PriceMap
use match_x.Book.PriceMap.{PriceMap}
use match_x.Book.State.{
  OrderBook, dense_levels, sparse_levels, with_dense, with_sparse, set_occupied, level_is_empty,
  bitset_words,
}
use match_x.Book.Remove.{next_best}

-- the loop of `rebuild_sparse_indices` over one map
unfoldable pub index_levels : PriceMap → SparseIndex → Exec SparseIndex
index_levels [] s = ok s
index_levels ((price, l) ∷ m) s = do
  s ← (if is_empty l then ok s else SparseIndex.add s price l.total_quantity)
  index_levels m s

module _ {M : Type 0} where
  -- Move dense level `i` of the side to the sparse map, unless it is empty.
  unfoldable pub evict : OrderBook M → Side → ℕ → ℕ → Exec (OrderBook M)
  evict b side i price = do
    l ← unwrap (get_elem? (dense_levels b side) i)
    let b = with_dense b side (set (dense_levels b side) i empty_level)
    ok (
        if is_empty l
        then b
        else with_sparse b side (PriceMap.insert (sparse_levels b side) price l))

  -- `n` rounds of the loop from tick `i` on
  unfoldable pub evict_all : ℕ → OrderBook M → ℕ → ℕ → Exec (OrderBook M)
  evict_all zero b old_base i = ok b
  evict_all (suc n) b old_base i = do
    price ← add64 old_base i
    b ← evict b bid i price
    b ← evict b ask i price
    evict_all n b old_base (i + 1)

  -- Move the sparse levels with these keys into the window.
  unfoldable pub absorb : List ℕ → OrderBook M → Side → ℕ → Exec (OrderBook M)
  absorb [] b side new_base = ok b
  absorb (price ∷ keys) b side new_base = elim (PriceMap.get (sparse_levels b side) price) [
    | none ↦ absorb keys b side new_base
    | some l ↦ do
      let b = with_sparse b side (PriceMap.remove (sparse_levels b side) price)
      assert (ltb (price - new_base) (length (dense_levels b side)))
      absorb keys (with_dense b side (set (dense_levels b side) (price - new_base) l)) side new_base
  ]

  -- the part of `rebuild_indices` for dense level `i` of one side
  unfoldable pub index_tick : OrderBook M → Side → ℕ → Exec (OrderBook M)
  index_tick b bid i = do
    l ← unwrap (get_elem? b.bids_dense i)
    (if is_empty l then ok b else (do
      b ← set_occupied b bid i
      t ← Fenwick.add b.bid_depth_index i l.total_quantity
      ok (record b { bid_depth_index = t })))
  index_tick b ask i = do
    l ← unwrap (get_elem? b.asks_dense i)
    (if is_empty l then ok b else (do
      b ← set_occupied b ask i
      t ← Fenwick.add b.ask_depth_index i l.total_quantity
      ok (record b { ask_depth_index = t })))

  unfoldable pub index_ticks : ℕ → OrderBook M → ℕ → Exec (OrderBook M)
  index_ticks zero b i = ok b
  index_ticks (suc n) b i = do
    b ← index_tick b bid i
    b ← index_tick b ask i
    index_ticks n b (i + 1)

  unfoldable pub rebuild_sparse_indices : OrderBook M → Exec (OrderBook M)
  rebuild_sparse_indices b = do
    bids ← index_levels b.bids_sparse SparseIndex.new
    asks ← index_levels b.asks_sparse SparseIndex.new
    ok (record b { bids_sparse_index = bids; asks_sparse_index = asks })

  unfoldable pub rebuild_indices : OrderBook M → Exec (OrderBook M)
  rebuild_indices b = do
    b ←
        index_ticks b.dense_max_ticks
          (record b {
            bids_occupied = replicate (bitset_words b.dense_max_ticks) 0;
            asks_occupied = replicate (bitset_words b.dense_max_ticks) 0;
            bid_depth_index = Fenwick.new b.dense_max_ticks;
            ask_depth_index = Fenwick.new b.dense_max_ticks;
          })
          0
    rebuild_sparse_indices b

  -- one side of `refresh_bbo_after_recenter`
  unfoldable pub refresh_best : OrderBook M → Side → Option ℕ → Exec (Option ℕ)
  refresh_best b side none = ok none
  refresh_best b side (some best) = do
    gone ← level_is_empty b side best
    (if gone then next_best b side else ok (some best))

  unfoldable pub refresh_bbo_after_recenter : OrderBook M → Exec (OrderBook M)
  refresh_bbo_after_recenter b = do
    best_bid ← refresh_best b bid b.best_bid_tick
    let b = record b { best_bid_tick = best_bid }
    best_ask ← refresh_best b ask b.best_ask_tick
    ok (record b { best_ask_tick = best_ask })

  unfoldable pub force_recenter : OrderBook M → ℕ → Exec (OrderBook M)
  force_recenter b new_base = if new_base == b.dense_base_price then ok b else (do
    new_end ← add64 new_base b.dense_max_ticks
    b ← evict_all b.dense_max_ticks b b.dense_base_price 0
    let b = record b { dense_base_price = new_base }
    b ← absorb (PriceMap.keys_in b.bids_sparse new_base new_end) b bid new_base
    b ← absorb (PriceMap.keys_in b.asks_sparse new_base new_end) b ask new_base
    b ← rebuild_indices b
    refresh_bbo_after_recenter b)

  -- the `match` of `maybe_recenter`: a bid beyond the threshold, or else an ask below its mirror
  unfoldable pub needs_recenter : OrderBook M → ℕ → Exec Bool
  needs_recenter b threshold = do
    bid_far ← elim b.best_bid_tick [
      | none ↦ ok false
      | some best ↦ do far ← add64 b.dense_base_price threshold; ok (leb far best)
    ]
    (if bid_far then ok true else elim b.best_ask_tick [
      | none ↦ ok false
      | some best ↦ do
        far ← add64 b.dense_base_price (b.dense_max_ticks - threshold)
        ok (ltb best far)
    ])

  abbrev center_of : OrderBook M → ℕ
  center_of b = elim b.best_bid_tick [
    | some best ↦ best
    | none ↦ elim b.best_ask_tick [ some best ↦ best | none ↦ 0 ]
  ]

  unfoldable pub maybe_recenter : OrderBook M → Exec (OrderBook M)
  maybe_recenter b = do
    needed ← needs_recenter b (b.dense_max_ticks * 7 / 10)
    (if needed then force_recenter b (center_of b - b.dense_max_ticks / 2) else ok b)
