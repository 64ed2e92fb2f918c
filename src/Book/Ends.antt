-- ===== src/Book/Ends.antt =====
-- The operations of the book end: they panic or return. And what they do to the number of orders.
use match_x.Base.{
  ℕ, suc, ◌+◌, ◌≡◌, ◌≢◌, List, [], ◌∷◌, ok, out_of_fuel, add64, add32, sub64, arith, fuel_of_Ends,
  Any,
}
use match_x.Types.{ArenaIndex, Side, bid, ask, PriceLevel}
use match_x.Arena.{Arena}
use match_x.Arena.Ends.{get_fuel, free_fuel, len-free, get_mut_fuel, len-get_mut, alloc_fuel}
use match_x.Book.Fenwick
use match_x.Book.Fenwick.{FenwickTree}
use match_x.Book.Fenwick.Ends.{add-Ends, sub-Ends, prefix_sum-Ends, suffix_sum_ge-Ends}
use match_x.Book.SparseIndex
use match_x.Book.SparseIndex.{SparseIndex, add_all, rebuild_fenwick}
use match_x.Book.Bitset
use match_x.Book.State.{
  OrderBook, IndexMap, level_at, get_level, get_level_qty, level_is_empty, depth_add, depth_remove,
  set_occupied, clear_occupied,
}
use match_x.Book.Insert.{NewEntry, link_tail, mark_occupied, place_order, insert_order}
use match_x.Book.Depth.{ask_available_at_or_below, bid_available_at_or_above}
use match_x.Book.Remove.{
  next_best, find_highest_occupied_bid, find_lowest_occupied_ask, clear_if_dense, refresh_side,
  unlink, remove_order, reduce_order_qty, refresh_best_after_level_empty, link_front, link_back,
}

fenwick_add_fuel : (t : FenwickTree) (i d : ℕ) → Fenwick.add t i d ≢ out_of_fuel
fenwick_add_fuel t i d = fuel_of_Ends Any (Fenwick.add t i d) (add-Ends t i d)

fenwick_sub_fuel : (t : FenwickTree) (i d : ℕ) → Fenwick.sub t i d ≢ out_of_fuel
fenwick_sub_fuel t i d = fuel_of_Ends Any (Fenwick.sub t i d) (sub-Ends t i d)

add_all_fuel : (qs : List ℕ) (i : ℕ) (t : FenwickTree) → add_all qs i t ≢ out_of_fuel
unfolding add_all
add_all_fuel [] i t = λ e. cc
add_all_fuel (q ∷ qs) i t = grind (arith, fenwick_add_fuel, add_all_fuel qs (i + 1))

rebuild_fenwick_fuel : (s : SparseIndex) → rebuild_fenwick s ≢ out_of_fuel
unfolding rebuild_fenwick
rebuild_fenwick_fuel s = grind (arith, add_all_fuel)

sparse_add_fuel : (s : SparseIndex) (p q : ℕ) → SparseIndex.add s p q ≢ out_of_fuel
unfolding SparseIndex.add add64
sparse_add_fuel s p q = grind (arith, fenwick_add_fuel, rebuild_fenwick_fuel)

sparse_sub_fuel : (s : SparseIndex) (p q : ℕ) → SparseIndex.sub s p q ≢ out_of_fuel
unfolding SparseIndex.sub sub64
sparse_sub_fuel s p q = grind (arith, fenwick_sub_fuel, rebuild_fenwick_fuel)

unlink_fuel : (a : Arena) (l : PriceLevel) (p n : ArenaIndex) → unlink a l p n ≢ out_of_fuel
unfolding unlink link_front link_back
unlink_fuel a l p n = grind (arith, get_mut_fuel)

len-unlink :
    (a b : Arena) (l k : PriceLevel) (p n : ArenaIndex) → unlink a l p n ≡ ok (b, k) → b.len ≡ a.len
unfolding unlink link_front link_back
len-unlink a b l k p n h = grind (arith, len-get_mut)

module _ {M : Type 0} where
  pub get_level_fuel : (b : OrderBook M) (s : Side) (p : ℕ) → get_level b s p ≢ out_of_fuel
  unfolding get_level
  get_level_fuel b s p = ground arith

  pub level_at_fuel : (b : OrderBook M) (s : Side) (p : ℕ) → level_at b s p ≢ out_of_fuel
  unfolding level_at
  level_at_fuel b s p = ground arith

  pub get_level_qty_fuel : (b : OrderBook M) (s : Side) (p : ℕ) → get_level_qty b s p ≢ out_of_fuel
  unfolding get_level_qty
  get_level_qty_fuel b s p = ground arith

  depth_add_fuel : (b : OrderBook M) (s : Side) (p q : ℕ) → depth_add b s p q ≢ out_of_fuel
  unfolding depth_add
  depth_add_fuel b bid p q = grind (arith, fenwick_add_fuel, sparse_add_fuel)
  depth_add_fuel b ask p q = grind (arith, fenwick_add_fuel, sparse_add_fuel)

  depth_remove_fuel : (b : OrderBook M) (s : Side) (p q : ℕ) → depth_remove b s p q ≢ out_of_fuel
  unfolding depth_remove
  depth_remove_fuel b bid p q = grind (arith, fenwick_sub_fuel, sparse_sub_fuel)
  depth_remove_fuel b ask p q = grind (arith, fenwick_sub_fuel, sparse_sub_fuel)

  next_best_fuel : (b : OrderBook M) (s : Side) → next_best b s ≢ out_of_fuel
  unfolding next_best find_highest_occupied_bid find_lowest_occupied_ask add64
  next_best_fuel b bid = ground arith
  next_best_fuel b ask = ground arith

  clear_if_dense_fuel : (b : OrderBook M) (s : Side) (p : ℕ) → clear_if_dense b s p ≢ out_of_fuel
  unfolding clear_if_dense clear_occupied Bitset.clear_bit
  clear_if_dense_fuel b bid p = ground arith
  clear_if_dense_fuel b ask p = ground arith

  refresh_fuel :
      (b : OrderBook M) (s : Side) (p : ℕ) → refresh_best_after_level_empty b s p ≢ out_of_fuel
  unfolding refresh_best_after_level_empty refresh_side
  refresh_fuel b bid p = grind (arith, clear_if_dense_fuel, next_best_fuel)
  refresh_fuel b ask p = grind (arith, clear_if_dense_fuel, next_best_fuel)

  level_is_empty_fuel : (b : OrderBook M) (s : Side) (p : ℕ) → level_is_empty b s p ≢ out_of_fuel
  unfolding level_is_empty
  level_is_empty_fuel b s p = ground arith

module _ {M : Type 0} ⦃map : IndexMap M⦄ where
  pub remove_order_fuel :
      (b : OrderBook M) (i : ArenaIndex) (a : Arena) → remove_order b i a ≢ out_of_fuel
  unfolding remove_order sub64
  remove_order_fuel b i a = grind (
    arith, get_fuel, level_at_fuel, unlink_fuel, depth_remove_fuel, free_fuel, level_is_empty_fuel,
    refresh_fuel,
  )

  -- A removed order leaves the arena with one order less.
  pub len-remove_order :
      (b : OrderBook M) (i : ArenaIndex) (a : Arena) (r : OrderBook M × Arena × Side × ℕ)
      → remove_order b i a ≡ ok r
      → suc r.1.len ≡ a.len
  unfolding remove_order sub64
  len-remove_order b i a r h = grind (arith, len-unlink, len-free)

module _ {M : Type 0} where
  pub reduce_order_qty_fuel :
      (b : OrderBook M) (i : ArenaIndex) (d : ℕ) (a : Arena)
      → reduce_order_qty b i d a ≢ out_of_fuel
  unfolding reduce_order_qty sub64 add64
  reduce_order_qty_fuel b i d a =
      grind (arith, get_mut_fuel, get_fuel, level_at_fuel, depth_remove_fuel)

link_tail_fuel : (a : Arena) (l : PriceLevel) (i : ArenaIndex) → link_tail a l i ≢ out_of_fuel
unfolding link_tail
link_tail_fuel a l i = grind (arith, get_mut_fuel)

prefix_sum_fuel : (t : FenwickTree) (i : ℕ) → Fenwick.prefix_sum t i ≢ out_of_fuel
prefix_sum_fuel t i = fuel_of_Ends Any (Fenwick.prefix_sum t i) (prefix_sum-Ends t i)

suffix_sum_fuel : (t : FenwickTree) (i : ℕ) → Fenwick.suffix_sum_ge t i ≢ out_of_fuel
suffix_sum_fuel t i = fuel_of_Ends Any (Fenwick.suffix_sum_ge t i) (suffix_sum_ge-Ends t i)

below_fuel : (s : SparseIndex) (p : ℕ) → SparseIndex.sum_at_or_below s p ≢ out_of_fuel
unfolding SparseIndex.sum_at_or_below
below_fuel s p = grind (arith, prefix_sum_fuel)

above_fuel : (s : SparseIndex) (p : ℕ) → SparseIndex.sum_at_or_above s p ≢ out_of_fuel
unfolding SparseIndex.sum_at_or_above sub64
above_fuel s p = grind (arith, prefix_sum_fuel)

module _ {M : Type 0} where
  mark_occupied_fuel : (b : OrderBook M) (s : Side) (p : ℕ) → mark_occupied b s p ≢ out_of_fuel
  unfolding mark_occupied set_occupied Bitset.set_bit
  mark_occupied_fuel b bid p = ground arith
  mark_occupied_fuel b ask p = ground arith

  pub ask_available_fuel : (b : OrderBook M) (p : ℕ) → ask_available_at_or_below b p ≢ out_of_fuel
  unfolding ask_available_at_or_below add64 Fenwick.prefix_sum_le
  ask_available_fuel b p = grind (arith, prefix_sum_fuel, below_fuel)

  pub bid_available_fuel : (b : OrderBook M) (p : ℕ) → bid_available_at_or_above b p ≢ out_of_fuel
  unfolding bid_available_at_or_above add64
  bid_available_fuel b p = grind (arith, prefix_sum_fuel, suffix_sum_fuel, above_fuel)

module _ {M : Type 0} ⦃map : IndexMap M⦄ where
  place_order_fuel :
      (b : OrderBook M) (n : NewEntry) (a : Arena) (i : ArenaIndex)
      → place_order b n a i ≢ out_of_fuel
  unfolding place_order add64 add32
  place_order_fuel b n a i =
      grind (arith, level_at_fuel, link_tail_fuel, depth_add_fuel, mark_occupied_fuel)

  pub insert_order_fuel :
      (b : OrderBook M) (n : NewEntry) (a : Arena) → insert_order b n a ≢ out_of_fuel
  unfolding insert_order
  insert_order_fuel b n a = grind (arith, alloc_fuel, place_order_fuel)
