-- ===== src/Engine/Matching/Queues/Tests.antt =====
-- The witness on trades: the first of two bids at one price is filled in part.
use match_x.Base.{
  ℕ, ◌≡◌, refl, min, List, [], ◌∷◌, ◌++◌, none, some, false, ok, panic, out_of_fuel, add64, add32,
  sub64, arith,
}
use match_x.Types.{
  bid, ask, limit, cancel_oldest, Order, ArenaIndex, InstrumentConfig, remaining, matchable_qty,
  opposite,
}
use match_x.Arena
use match_x.Arena.{Arena, free_links, take_slot, alloc, assert_live, bump, get, get_mut}
use match_x.Book.AssocMap.{AssocMap, assoc_map, find, put}
use match_x.Book.Fenwick
use match_x.Book.Fenwick.{lowbit}
use match_x.Book.PriceMap
use match_x.Book.Bitset.{set_bit}
use match_x.Book
use match_x.Book.State.{
  OrderBook, level_at, set_level, depth_add, dense_index, set_occupied, get_level_qty,
}
use match_x.Book.Insert.{
  NewEntry, order_of, link_tail, improve_best, mark_occupied, place_order, insert_order,
}
use match_x.Book.Queues
use match_x.Book.Queues.{Queues, Represents}
use match_x.Book.Queues.New.{no_orders, new-Represents}
use match_x.Book.Queues.Insert.{insert_order-Represents}
use match_x.Book.Queues.Reduce.{fill}
use match_x.Engine
use match_x.Engine.State.{MatchingEngine, emit}
use match_x.Engine.Matching.{Taker, Flow, stop, emit_level, trade}
use match_x.Engine.Matching.Queues.{rest_of, trade-Represents}

abbrev config : InstrumentConfig
config = record {
  id = 1;
  tick_size = 1;
  lot_size = 1;
  base_price = 100;
  max_ticks = 8;
  stp_mode = cancel_oldest;
}

abbrev bid_entry : ℕ → ℕ → NewEntry
bid_entry id qty = record {
  id = id;
  side = bid;
  price = 101;
  qty = qty;
  order_type = limit;
  visible_qty = none;
  stp_group = none;
}

engine : MatchingEngine AssocMap
engine = Engine.State.new config 4

rest_bid : MatchingEngine AssocMap → NewEntry → MatchingEngine AssocMap
rest_bid e x = elim (insert_order e.book x e.arena) [
  | ok r ↦ record e { book = r.0; arena = r.1 }
  | panic ↦ e
  | out_of_fuel ↦ e
]

one_bid : MatchingEngine AssocMap
one_bid = rest_bid engine (bid_entry 7 5)

two_bids : MatchingEngine AssocMap
two_bids = rest_bid one_bid (bid_entry 8 3)

abbrev seller : Taker
seller = record { id = 9; side = ask; price = 101; stp = none }

-- the resting order with its link to the second
maker : Order
maker = elim (get two_bids.arena 0) [
  | ok o ↦ o
  | panic ↦ order_of (bid_entry 7 5)
  | out_of_fuel ↦ order_of (bid_entry 7 5)
]

traded : MatchingEngine AssocMap × ℕ × Flow
traded = elim (trade seller two_bids 0 maker 101 2) [
  | ok r ↦ r
  | panic ↦ (engine, 0, stop false)
  | out_of_fuel ↦ (engine, 0, stop false)
]

abbrev queued : Queues → ℕ → ℕ → ArenaIndex → Queues
queued q id qty i = Queues.put q bid 101 (q bid 101 ++ (i, order_of (bid_entry id qty)) ∷ [])

abbrev behind : List (ArenaIndex × Order)
behind = (1, order_of (bid_entry 8 3)) ∷ []

runs :
    (insert_order engine.book (bid_entry 7 5) engine.arena
      ≡ ok (one_bid.book, one_bid.arena, some 0))
    × (insert_order one_bid.book (bid_entry 8 3) one_bid.arena
        ≡ ok (two_bids.book, two_bids.arena, some 1))
    × (get two_bids.arena 0 ≡ ok maker)
    × (trade seller two_bids 0 maker 101 2 ≡ ok traded)
    × (queued (queued no_orders 7 5 0) 8 3 1 bid 101
        ≡ [] ++ (0, record maker { prev = 4294967295; next = 4294967295 }) ∷ behind)
    × (min 2 (matchable_qty maker) ≡ 2)
unfolding engine rest_bid one_bid two_bids maker traded find put add64 add32 sub64 remaining
    matchable_qty opposite Arena.new free_links bump take_slot alloc assert_live get get_mut
    Fenwick.new Fenwick.add lowbit PriceMap.get Book.State.new dense_index level_at set_level
    get_level_qty set_occupied depth_add set_bit order_of link_tail improve_best mark_occupied
    place_order insert_order Engine.State.new emit emit_level trade
runs = (refl, refl, refl, refl, refl, refl)

no_bids : Represents engine.book engine.arena no_orders
unfolding engine Engine.State.new
no_bids = new-Represents config 4 (omega arith)

both_bids : Represents two_bids.book two_bids.arena (queued (queued no_orders 7 5 0) 8 3 1)
both_bids =
    insert_order-Represents one_bid.book two_bids.book (bid_entry 8 3) one_bid.arena two_bids.arena
      (queued no_orders 7 5 0) 1
      (insert_order-Represents engine.book one_bid.book (bid_entry 7 5) engine.arena one_bid.arena
        no_orders 0 no_bids runs.0)
      runs.1

trade-Represents_example : Represents traded.0.book traded.0.arena (
    Queues.put (queued (queued no_orders 7 5 0) 8 3 1) bid 101 (
      []
      ++ rest_of 0
          (fill
            (min 2 (matchable_qty maker))
            (record maker { prev = 4294967295; next = 4294967295 }))
          behind))
unfolding opposite
trade-Represents_example =
    trade-Represents seller two_bids 0 maker 101 2 traded (queued (queued no_orders 7 5 0) 8 3 1) []
      behind both_bids runs.4 runs.2 runs.3
