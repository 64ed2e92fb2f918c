-- ===== src/Book/State.antt =====
-- crates/matchx-book/src/lib.rs: the state of `OrderBook`, access to its levels, and the depth
-- indices. The map from order ids to arena slots (hashbrown's `HashMap`) is an interface.
use match_x.Base.{
  ℕ, ◌+◌, ◌-◌, ◌/◌, ◌≡◌, ◌≢◌, List, [], ltb, if◌then◌else◌, Bool, true, Option, none, some,
  get_elem?, set, replicate, Exec, ok, ◌>>=◌, unwrap,
}
use match_x.Types.{
  OrderId, ArenaIndex, Side, bid, ask, PriceLevel, empty_level, is_empty, InstrumentConfig,
}
use match_x.Book.Fenwick
use match_x.Book.Fenwick.{FenwickTree}
use match_x.Book.SparseIndex
use match_x.Book.SparseIndex.{SparseIndex}
use match_x.Book.PriceMap
use match_x.Book.PriceMap.{PriceMap}
use match_x.Book.Bitset

-- What the book uses of `HashMap<OrderId, ArenaIndex>`, with the documented laws.
pub record IndexMap (M : Type 0) : Type 0 where
  pub new : M
  pub get : M → OrderId → Option ArenaIndex
  pub insert : M → OrderId → ArenaIndex → M
  pub remove : M → OrderId → M
  pub get-new : (k : OrderId) → get new k ≡ none
  pub get-insert_self : (m : M) (k : OrderId) (v : ArenaIndex) → get (insert m k v) k ≡ some v
  pub get-insert_ne :
      (m : M) (k j : OrderId) (v : ArenaIndex) → k ≢ j → get (insert m k v) j ≡ get m j
  pub get-remove_self : (m : M) (k : OrderId) → get (remove m k) k ≡ none
  pub get-remove_ne : (m : M) (k j : OrderId) → k ≢ j → get (remove m k) j ≡ get m j

pub record OrderBook (M : Type 0) : Type 0 where
  pub instrument_id : ℕ
  pub bids_dense : List PriceLevel
  pub asks_dense : List PriceLevel
  pub dense_base_price : ℕ
  pub dense_max_ticks : ℕ
  pub bids_sparse : PriceMap
  pub asks_sparse : PriceMap
  pub bid_depth_index : FenwickTree
  pub ask_depth_index : FenwickTree
  pub best_bid_tick : Option ℕ
  pub best_ask_tick : Option ℕ
  pub bids_occupied : List ℕ
  pub asks_occupied : List ℕ
  pub order_index : M
  pub bids_sparse_index : SparseIndex
  pub asks_sparse_index : SparseIndex

-- `n.div_ceil(64)`
abbrev pub bitset_words : ℕ → ℕ
bitset_words n = (n + 63) / 64

module _ {M : Type 0} ⦃map : IndexMap M⦄ where
  unfoldable pub new : InstrumentConfig → OrderBook M
  new config = record {
    instrument_id = config.id;
    bids_dense = replicate config.max_ticks empty_level;
    asks_dense = replicate config.max_ticks empty_level;
    dense_base_price = config.base_price;
    dense_max_ticks = config.max_ticks;
    bids_sparse = [];
    asks_sparse = [];
    bid_depth_index = Fenwick.new config.max_ticks;
    ask_depth_index = Fenwick.new config.max_ticks;
    best_bid_tick = none;
    best_ask_tick = none;
    bids_occupied = replicate (bitset_words config.max_ticks) 0;
    asks_occupied = replicate (bitset_words config.max_ticks) 0;
    order_index = map.new;
    bids_sparse_index = SparseIndex.new;
    asks_sparse_index = SparseIndex.new;
  }

  unfoldable pub lookup : OrderBook M → OrderId → Option ArenaIndex
  lookup b id = map.get b.order_index id

module _ {M : Type 0} where
  unfoldable pub dense_index : OrderBook M → ℕ → Option ℕ
  dense_index b price =
      if ltb price b.dense_base_price
      then none
      else if ltb (price - b.dense_base_price) b.dense_max_ticks
      then some (price - b.dense_base_price)
      else none

  abbrev pub dense_levels : OrderBook M → Side → List PriceLevel
  dense_levels b bid = b.bids_dense
  dense_levels b ask = b.asks_dense

  abbrev pub sparse_levels : OrderBook M → Side → PriceMap
  sparse_levels b bid = b.bids_sparse
  sparse_levels b ask = b.asks_sparse

  abbrev pub with_dense : OrderBook M → Side → List PriceLevel → OrderBook M
  with_dense b bid ls = record b { bids_dense = ls }
  with_dense b ask ls = record b { asks_dense = ls }

  abbrev pub with_sparse : OrderBook M → Side → PriceMap → OrderBook M
  with_sparse b bid m = record b { bids_sparse = m }
  with_sparse b ask m = record b { asks_sparse = m }

  -- What `level_mut` reads: a vacant sparse entry is an empty level.
  unfoldable pub level_at : OrderBook M → Side → ℕ → Exec PriceLevel
  level_at b side price = elim (dense_index b price) [
    | some i ↦ unwrap (get_elem? (dense_levels b side) i)
    | none ↦ elim (PriceMap.get (sparse_levels b side) price) [
      | some l ↦ ok l
      | none ↦ ok empty_level
    ]
  ]

  -- The write through the reference that `level_mut` returns.
  unfoldable pub set_level : OrderBook M → Side → ℕ → PriceLevel → OrderBook M
  set_level b side price l = elim (dense_index b price) [
    | some i ↦ with_dense b side (set (dense_levels b side) i l)
    | none ↦ with_sparse b side (PriceMap.insert (sparse_levels b side) price l)
  ]

  -- `get_bid_level` and `get_ask_level`: a missing sparse level panics.
  unfoldable pub get_level : OrderBook M → Side → ℕ → Exec PriceLevel
  get_level b side price = elim (dense_index b price) [
    | some i ↦ unwrap (get_elem? (dense_levels b side) i)
    | none ↦ unwrap (PriceMap.get (sparse_levels b side) price)
  ]

  unfoldable pub get_level_qty : OrderBook M → Side → ℕ → Exec ℕ
  get_level_qty b side price = elim (dense_index b price) [
    | some i ↦ do l ← unwrap (get_elem? (dense_levels b side) i); ok l.total_quantity
    | none ↦ elim (PriceMap.get (sparse_levels b side) price) [
      | some l ↦ ok l.total_quantity
      | none ↦ ok 0
    ]
  ]

  unfoldable pub level_is_empty : OrderBook M → Side → ℕ → Exec Bool
  level_is_empty b side price = elim (dense_index b price) [
    | some i ↦ do l ← unwrap (get_elem? (dense_levels b side) i); ok (is_empty l)
    | none ↦ elim (PriceMap.get (sparse_levels b side) price) [
      | some l ↦ ok (is_empty l)
      | none ↦ ok true
    ]
  ]

  unfoldable pub set_occupied : OrderBook M → Side → ℕ → Exec (OrderBook M)
  set_occupied b bid i = do
    occupied ← Bitset.set_bit b.bids_occupied i
    ok (record b { bids_occupied = occupied })
  set_occupied b ask i = do
    occupied ← Bitset.set_bit b.asks_occupied i
    ok (record b { asks_occupied = occupied })

  unfoldable pub clear_occupied : OrderBook M → Side → ℕ → Exec (OrderBook M)
  clear_occupied b bid i = do
    occupied ← Bitset.clear_bit b.bids_occupied i
    ok (record b { bids_occupied = occupied })
  clear_occupied b ask i = do
    occupied ← Bitset.clear_bit b.asks_occupied i
    ok (record b { asks_occupied = occupied })

  -- What `depth_add` and `depth_remove` do to the dense or to the sparse index of the side.
  abbrev change_dense : OrderBook M → Side → (FenwickTree → Exec FenwickTree) → Exec (OrderBook M)
  change_dense b bid f = do t ← f b.bid_depth_index; ok (record b { bid_depth_index = t })
  change_dense b ask f = do t ← f b.ask_depth_index; ok (record b { ask_depth_index = t })

  abbrev change_sparse : OrderBook M → Side → (SparseIndex → Exec SparseIndex) → Exec (OrderBook M)
  change_sparse b bid f = do s ← f b.bids_sparse_index; ok (record b { bids_sparse_index = s })
  change_sparse b ask f = do s ← f b.asks_sparse_index; ok (record b { asks_sparse_index = s })

  unfoldable pub depth_add : OrderBook M → Side → ℕ → ℕ → Exec (OrderBook M)
  depth_add b side price qty = elim (dense_index b price) [
    | some i ↦ change_dense b side (λ t. Fenwick.add t i qty)
    | none ↦ change_sparse b side (λ s. SparseIndex.add s price qty)
  ]

  unfoldable pub depth_remove : OrderBook M → Side → ℕ → ℕ → Exec (OrderBook M)
  depth_remove b side price qty = elim (dense_index b price) [
    | some i ↦ change_dense b side (λ t. Fenwick.sub t i qty)
    | none ↦ change_sparse b side (λ s. SparseIndex.sub s price qty)
  ]
