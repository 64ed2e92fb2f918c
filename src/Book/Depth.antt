-- ===== src/Book/Depth.antt =====
-- crates/matchx-book/src/lib.rs: `ask_available_at_or_below` and `bid_available_at_or_above`.
use match_x.Base.{
  ℕ, ◌+◌, ◌-◌, min, ltb, leb, if◌then◌else◌, none, some, Exec, ok, ◌>>=◌, add64, u64_max,
}
use match_x.Book.Fenwick
use match_x.Book.SparseIndex
use match_x.Book.State.{OrderBook, dense_index}

module _ {M : Type 0} where
  -- `saturating_add` of u64
  abbrev pub window_end : OrderBook M → ℕ
  window_end b = min (b.dense_base_price + b.dense_max_ticks) u64_max

  unfoldable pub ask_available_at_or_below : OrderBook M → ℕ → Exec ℕ
  ask_available_at_or_below b price = elim (dense_index b price) [
    | some i ↦ do
      dense ← Fenwick.prefix_sum_le b.ask_depth_index i
      sparse ← SparseIndex.sum_at_or_below b.asks_sparse_index (b.dense_base_price - 1)
      add64 dense sparse
    | none ↦
        if leb (window_end b) price
        then (do
          total ←
              (if ltb 0 b.dense_max_ticks
                then Fenwick.prefix_sum b.ask_depth_index (b.dense_max_ticks - 1)
                else ok 0)
          sparse ← SparseIndex.sum_at_or_below b.asks_sparse_index price
          add64 total sparse)
        else SparseIndex.sum_at_or_below b.asks_sparse_index price
  ]

  unfoldable pub bid_available_at_or_above : OrderBook M → ℕ → Exec ℕ
  bid_available_at_or_above b price = elim (dense_index b price) [
    | some i ↦ do
      dense ← Fenwick.suffix_sum_ge b.bid_depth_index i
      sparse ← SparseIndex.sum_at_or_above b.bids_sparse_index (window_end b)
      add64 dense sparse
    | none ↦
        if ltb price b.dense_base_price
        then (do
          total ←
              (if ltb 0 b.dense_max_ticks
                then Fenwick.prefix_sum b.bid_depth_index (b.dense_max_ticks - 1)
                else ok 0)
          sparse ← SparseIndex.sum_at_or_above b.bids_sparse_index price
          add64 total sparse)
        else SparseIndex.sum_at_or_above b.bids_sparse_index price
  ]
