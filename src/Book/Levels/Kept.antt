-- ===== src/Book/Levels/Kept.antt =====
-- Writes to a book that keep its levels.
use match_x.Base.{ℕ, ◌≡◌, refl, ◌∙◌, ok, arith}
use match_x.Types.{Side, bid, ask}
use match_x.Book.State.{
  OrderBook, dense_index, level_at, set_occupied, clear_occupied, depth_add, depth_remove,
}
use match_x.Book.Insert.{improve_best, mark_occupied}
use match_x.Book.Remove.{refresh_side, clear_if_dense, refresh_best_after_level_empty}

module _ {M : Type 0} where
  -- The levels are those of `b`.
  pub record LevelsKept (b c : OrderBook M) : Type 0 where
    pub bids_dense : c.bids_dense ≡ b.bids_dense
    pub asks_dense : c.asks_dense ≡ b.asks_dense
    pub base : c.dense_base_price ≡ b.dense_base_price
    pub ticks : c.dense_max_ticks ≡ b.dense_max_ticks
    pub bids_sparse : c.bids_sparse ≡ b.bids_sparse
    pub asks_sparse : c.asks_sparse ≡ b.asks_sparse

  pub level_at-LevelsKept :
      (b c : OrderBook M) (s : Side) (p : ℕ) → LevelsKept b c → level_at c s p ≡ level_at b s p
  unfolding level_at dense_index
  level_at-LevelsKept b c bid p k = rw (k.bids_dense, k.base, k.ticks, k.bids_sparse) refl
  level_at-LevelsKept b c ask p k = rw (k.asks_dense, k.base, k.ticks, k.asks_sparse) refl

  pub LevelsKept-both : (b c d : OrderBook M) → LevelsKept b c → LevelsKept c d → LevelsKept b d
  LevelsKept-both b c d k l = record {
    bids_dense = l.bids_dense ∙ k.bids_dense;
    asks_dense = l.asks_dense ∙ k.asks_dense;
    base = l.base ∙ k.base;
    ticks = l.ticks ∙ k.ticks;
    bids_sparse = l.bids_sparse ∙ k.bids_sparse;
    asks_sparse = l.asks_sparse ∙ k.asks_sparse;
  }

  pub LevelsKept-depth_add :
      (b c : OrderBook M) (s : Side) (p q : ℕ) → depth_add b s p q ≡ ok c → LevelsKept b c
  unfolding depth_add
  LevelsKept-depth_add b c bid p q h = ground arith
  LevelsKept-depth_add b c ask p q h = ground arith

  pub LevelsKept-depth_remove :
      (b c : OrderBook M) (s : Side) (p q : ℕ) → depth_remove b s p q ≡ ok c → LevelsKept b c
  unfolding depth_remove
  LevelsKept-depth_remove b c bid p q h = ground arith
  LevelsKept-depth_remove b c ask p q h = ground arith

  pub LevelsKept-mark_occupied :
      (b c : OrderBook M) (s : Side) (p : ℕ) → mark_occupied b s p ≡ ok c → LevelsKept b c
  unfolding mark_occupied set_occupied
  LevelsKept-mark_occupied b c bid p h = ground arith
  LevelsKept-mark_occupied b c ask p h = ground arith

  pub LevelsKept-improve_best :
      (b : OrderBook M) (s : Side) (p : ℕ) → LevelsKept b (improve_best b s p)
  unfolding improve_best
  LevelsKept-improve_best b bid p = ground arith
  LevelsKept-improve_best b ask p = ground arith

  pub LevelsKept-refresh :
      (b c : OrderBook M) (s : Side) (p : ℕ)
      → refresh_best_after_level_empty b s p ≡ ok c
      → LevelsKept b c
  unfolding refresh_best_after_level_empty refresh_side clear_if_dense clear_occupied
  LevelsKept-refresh b c bid p h = ground arith
  LevelsKept-refresh b c ask p h = ground arith
