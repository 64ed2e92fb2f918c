-- ===== src/Book/Queues/Tests.antt =====
-- The witnesses on the queues of the book: two bids at one price, the first of them filled in part
-- and removed.
use match_x.Base.{
  ℕ, ◌≤◌, ◌≡◌, refl, List, [], ◌∷◌, ◌++◌, none, some, Exec, ok, panic, out_of_fuel, add64, add32,
  sub64, arith,
}
use match_x.Types.{
  bid, limit, cancel_oldest, Order, ArenaIndex, InstrumentConfig, is_empty, remaining,
}
use match_x.Arena
use match_x.Arena.{
  Arena, free_links, take_slot, alloc, assert_live, bump, free, get, get_mut, free_list_end,
}
use match_x.Arena.FreeList.Given.{Given}
use match_x.Arena.FreeList.Calls.{alloc-calls}
use match_x.Arena.HugePages.Calls.{Op, allocate, release, Reply, call, calls}
use match_x.Book.AssocMap.{AssocMap, assoc_map, find, put, delete}
use match_x.Book.Fenwick
use match_x.Book.Fenwick.{lowbit}
use match_x.Book.PriceMap
use match_x.Book.Bitset.{set_bit, clear_bit}
use match_x.Book.State
use match_x.Book.State.{
  get_level_qty, OrderBook, level_at, set_level, depth_add, depth_remove, dense_index, set_occupied,
  clear_occupied, level_is_empty,
}
use match_x.Book.Queue.{total}
use match_x.Book.Insert.{
  NewEntry, order_of, link_tail, improve_best, mark_occupied, place_order, insert_order,
}
use match_x.Book.Remove.{
  link_front, link_back, unlink, prune_if_sparse_empty, clear_if_dense, refresh_side,
  refresh_best_after_level_empty, next_best, find_highest_occupied_bid, reduce_order_qty,
  remove_order,
}
use match_x.Book.Queues
use match_x.Book.Queues.{Queues, Represents}
use match_x.Book.Queues.History.{History, start, inserted, removed, filled, get_level_qty-History}
use match_x.Book.Queues.New.{no_orders, new-Represents}
use match_x.Book.Queues.Insert.{insert_order-Represents}
use match_x.Book.Queues.Reduce.{fill, reduce_order_qty-Represents}
use match_x.Book.Queues.Remove.{remove_order-Represents}

abbrev config : InstrumentConfig
config = record {
  id = 1;
  tick_size = 1;
  lot_size = 1;
  base_price = 100;
  max_ticks = 8;
  stp_mode = cancel_oldest;
}

abbrev entry : ℕ → ℕ → NewEntry
entry id qty = record {
  id = id;
  side = bid;
  price = 101;
  qty = qty;
  order_type = limit;
  visible_qty = none;
  stp_group = none;
}

abbrev Store : Type 0
Store = OrderBook AssocMap × Arena

empty_store : Store
empty_store = (State.new config, Arena.new 4)

insertion : Store → NewEntry → Store
insertion (b, a) e = elim (insert_order b e a) [
  | ok r ↦ (r.0, r.1)
  | panic ↦ (b, a)
  | out_of_fuel ↦ (b, a)
]

one_bid : Store
one_bid = insertion empty_store (entry 7 5)

two_bids : Store
two_bids = insertion one_bid (entry 8 3)

reduced : Store → ArenaIndex → ℕ → Store
reduced (b, a) i delta = elim (reduce_order_qty b i delta a) [
  | ok r ↦ (r.0, r.1)
  | panic ↦ (b, a)
  | out_of_fuel ↦ (b, a)
]

removal : Store → ArenaIndex → Store
removal (b, a) i = elim (remove_order b i a) [
  | ok r ↦ (r.0, r.1)
  | panic ↦ (b, a)
  | out_of_fuel ↦ (b, a)
]

filled_bid : Store
filled_bid = reduced two_bids 0 2

second_bid : Store
second_bid = removal filled_bid 0

runs :
    (insert_order empty_store.0 (entry 7 5) empty_store.1 ≡ ok (one_bid.0, one_bid.1, some 0))
    × (insert_order one_bid.0 (entry 8 3) one_bid.1 ≡ ok (two_bids.0, two_bids.1, some 1))
    × (reduce_order_qty two_bids.0 0 2 two_bids.1 ≡ ok (filled_bid.0, filled_bid.1))
    × (remove_order filled_bid.0 0 filled_bid.1 ≡ ok (second_bid.0, second_bid.1, bid, 101))
unfolding insertion reduced removal empty_store one_bid two_bids filled_bid second_bid find put
    delete add64 add32 sub64 remaining is_empty Arena.new free_links bump take_slot alloc
    assert_live free get get_mut Fenwick.new Fenwick.add Fenwick.sub lowbit PriceMap.get State.new
    dense_index level_at set_level level_is_empty set_occupied clear_occupied depth_add depth_remove
    set_bit clear_bit order_of link_tail improve_best mark_occupied place_order insert_order
    link_front link_back unlink find_highest_occupied_bid prune_if_sparse_empty next_best
    clear_if_dense refresh_side refresh_best_after_level_empty reduce_order_qty remove_order
runs = (refl, refl, refl, refl)

no_bids : Represents empty_store.0 empty_store.1 no_orders
unfolding empty_store
no_bids = new-Represents config 4 (omega arith)

abbrev add_bid : Queues → ℕ → ℕ → ArenaIndex → Queues
add_bid q id qty i = Queues.put q bid 101 (q bid 101 ++ (i, order_of (entry id qty)) ∷ [])

first_bid : Represents one_bid.0 one_bid.1 (add_bid no_orders 7 5 0)
first_bid =
    insert_order-Represents empty_store.0 one_bid.0 (entry 7 5) empty_store.1 one_bid.1 no_orders 0
      no_bids runs.0

insert_order-Represents_example :
    Represents two_bids.0 two_bids.1 (add_bid (add_bid no_orders 7 5 0) 8 3 1)
insert_order-Represents_example =
    insert_order-Represents one_bid.0 two_bids.0 (entry 8 3) one_bid.1 two_bids.1
      (add_bid no_orders 7 5 0) 1 first_bid runs.1

both_bids : Represents two_bids.0 two_bids.1 (add_bid (add_bid no_orders 7 5 0) 8 3 1)
both_bids =
    insert_order-Represents one_bid.0 two_bids.0 (entry 8 3) one_bid.1 two_bids.1
      (add_bid no_orders 7 5 0) 1 first_bid runs.1

abbrev more : Order
more = order_of (entry 8 3)

fits : 2 ≤ remaining (order_of (entry 7 5))
unfolding remaining order_of
fits = omega arith

abbrev with_fill : Queues
with_fill =
    Queues.put (add_bid (add_bid no_orders 7 5 0) 8 3 1) bid 101
      ((0, fill 2 (order_of (entry 7 5))) ∷ (1, more) ∷ [])

reduce_order_qty-Represents_example : Represents filled_bid.0 filled_bid.1 with_fill
reduce_order_qty-Represents_example =
    reduce_order_qty-Represents two_bids.0 filled_bid.0 0 2 two_bids.1 filled_bid.1
      (add_bid (add_bid no_orders 7 5 0) 8 3 1) bid 101 [] (order_of (entry 7 5)) ((1, more) ∷ [])
      both_bids refl fits runs.2

filled_first : Represents filled_bid.0 filled_bid.1 with_fill
filled_first =
    reduce_order_qty-Represents two_bids.0 filled_bid.0 0 2 two_bids.1 filled_bid.1
      (add_bid (add_bid no_orders 7 5 0) 8 3 1) bid 101 [] (order_of (entry 7 5)) ((1, more) ∷ [])
      both_bids refl fits runs.2

remove_order-Represents_example :
    Represents second_bid.0 second_bid.1 (Queues.put with_fill bid 101 ((1, more) ∷ []))
    × (bid ≡ bid)
    × (◌≡◌ {A = ℕ} 101 101)
remove_order-Represents_example =
    remove_order-Represents filled_bid.0 second_bid.0 0 filled_bid.1 second_bid.1 with_fill bid bid
      101 101 [] (fill 2 (order_of (entry 7 5))) ((1, more) ∷ []) filled_first refl runs.3

calls_of_both :
    History config 4 second_bid.0 second_bid.1 (Queues.put with_fill bid 101 ((1, more) ∷ []))
unfolding empty_store
calls_of_both =
    removed 0 bid 101 [] (fill 2 (order_of (entry 7 5))) ((1, more) ∷ [])
      (filled 0 2 bid 101 [] (order_of (entry 7 5)) ((1, more) ∷ [])
        (inserted (entry 8 3) 1 (inserted (entry 7 5) 0 start runs.0) runs.1) refl fits runs.2)
      refl runs.3

get_level_qty-History_example : get_level_qty second_bid.0 bid 101 ≡ ok (total ((1, more) ∷ []))
get_level_qty-History_example =
    get_level_qty-History config 4 second_bid.0 second_bid.1
      (Queues.put with_fill bid 101 ((1, more) ∷ [])) bid 101 (omega arith) calls_of_both

-- a slot is given out again after its release
abbrev ops : List Op
ops = allocate more ∷ allocate more ∷ release 0 ∷ []

abbrev or_new : Exec (Arena × List Reply) → Arena × List Reply
or_new (ok r) = r
or_new panic = (Arena.new 2, [])
or_new out_of_fuel = (Arena.new 2, [])

after : Arena × List Reply
after = or_new (calls (Arena.new 2) ops)

again : Arena
again = elim (alloc after.0 more) [ ok r ↦ r.0 | panic ↦ after.0 | out_of_fuel ↦ after.0 ]

arena_runs : (calls (Arena.new 2) ops ≡ ok after) × (alloc after.0 more ≡ ok (again, some 0))
unfolding after again calls call Arena.new free_links alloc take_slot free get assert_live bump
    add64 add32 sub64
arena_runs = (refl, refl)

alloc-calls_example : Given after.0 again (some 0)
alloc-calls_example =
    alloc-calls 2 ops after.0 again after.1 more (some 0) (omega arith) arena_runs.0 arena_runs.1
