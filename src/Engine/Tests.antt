-- ===== src/Engine/Tests.antt =====
-- Runs of the engine on concrete commands, after the unit tests of the crate, and the witnesses.
use match_x.Base.{
  ℕ, ◌+◌, ◌<◌, ◌≤◌, ◌≡◌, ◌≢◌, ◌⊎◌, suc, refl, List, [], ◌∷◌, none, some, map, Bool, true, false,
  Exec, ok, panic, out_of_fuel, add64, add32, sub64, arith,
}
use match_x.Types.{
  Side, bid, ask, limit, stop_limit, gtc, cancel_oldest, Order, MatchEvent, Command, new_order,
  stp_none, InstrumentConfig, opposite, remaining, matchable_qty, is_empty, is_filled,
}
use match_x.Book.AssocMap.{AssocMap, assoc_map, find, put, delete}
use match_x.Engine.Policy.{is_price_acceptable}
use match_x.Arena
use match_x.Arena.{free_links, bump, take_slot, alloc, assert_live, free, get_mut}
use match_x.Book.Fenwick
use match_x.Book.Fenwick.{lowbit, prefix_sum, prefix_sum_le, suffix_sum_ge}
use match_x.Book.SparseIndex
use match_x.Book.SparseIndex.{
  binary_search, add_all, rebuild_fenwick, sum_at_or_below, sum_at_or_above,
}
use match_x.Book.PriceMap
use match_x.Book.PriceMap.{insert, remove, first_key, last_key, keys_in}
use match_x.Book.Bitset.{
  set_bit, clear_bit, bit_length, leading_zeros, count_zeros, trailing_zeros, highest_tick,
  lowest_tick, highest, lowest,
}
use match_x.Book
use match_x.Book.State.{
  lookup, dense_index, level_at, set_level, get_level, get_level_qty, level_is_empty, set_occupied,
  clear_occupied, depth_add, depth_remove,
}
use match_x.Book.Insert.{
  order_of, link_tail, improve_best, mark_occupied, place_order, insert_order,
}
use match_x.Book.Remove.{
  link_front, link_back, unlink, find_highest_occupied_bid, find_lowest_occupied_ask,
  prune_if_sparse_empty, next_best, clear_if_dense, refresh_side, refresh_best_after_level_empty,
  reduce_order_qty, remove_order,
}
use match_x.Book.Depth.{ask_available_at_or_below, bid_available_at_or_above}
use match_x.Book.Recenter.{
  index_levels, evict, evict_all, absorb, index_tick, index_ticks, rebuild_sparse_indices,
  rebuild_indices, refresh_best, refresh_bbo_after_recenter, force_recenter, needs_recenter,
  maybe_recenter,
}
use match_x.Engine
use match_x.Engine.State.{MatchingEngine, emit, emit_rejected}
use match_x.Engine.Matching.{
  Taker, Flow, stop, continue, same_group, best_opposing, emit_level, remove_maker, cancel_maker,
  decrement, prevent_self_trade, trade, meet, match_round, match_loop, match_against_book,
}
use match_x.Engine.Request.{
  effective_price, remainder_of, would_cross, check_available_liquidity, first_maker_matches,
  stp_rejects, fok_rejects, accept, queue_stop, process_stop_limit,
}
use match_x.Engine.Orders.{
  rest_order, process_post_only, handle_remainder, execute, process_limit, process_new_order,
  process_cancel, process_modify,
}
use match_x.Engine.Stops.{fire_stop, drain_bids, drain_asks, drain_loop, drain_stop_triggers}
use match_x.Engine.Process.{dispatch, process}
use match_x.Engine.Matching.Progress.{match_round_progress}
use match_x.Engine.Matching.Fills.{
  meet-self_trade, filled_qty, fills_of, match_against_book-filled,
  match_against_book-filled_ungrouped,
}
use match_x.Engine.Matching.Prices.{FillsWithin}
use match_x.Engine.Stops.Sorted.{ascends, descends, descending, StopsSorted, process-StopsSorted}
use match_x.Engine.Stops.Waiting.{all_above, all_below, process-stops_wait}
use match_x.Engine.Process.Termination.{process_ends}

abbrev config : InstrumentConfig
config = record {
  id = 1;
  tick_size = 1;
  lot_size = 1;
  base_price = 100;
  max_ticks = 8;
  stp_mode = cancel_oldest;
}

abbrev start : MatchingEngine AssocMap
start = Engine.State.new config 4

-- the engine after some commands
run_all : MatchingEngine AssocMap → List Command → MatchingEngine AssocMap
run_all e [] = e
run_all e (c ∷ cs) = elim (process e c) [ ok r ↦ run_all r.0 cs | panic ↦ e | out_of_fuel ↦ e ]

abbrev limit_order : ℕ → Side → ℕ → ℕ → Command
limit_order id side price qty = new_order id 1 side price qty limit gtc none none none

three_asks : MatchingEngine AssocMap
unfolding run_all
three_asks =
    run_all start (limit_order 1 ask 103 5 ∷ limit_order 2 ask 102 4 ∷ limit_order 3 ask 102 6 ∷ [])

abbrev taker : Taker
taker = record { id = 9; side = bid; price = 102; stp = none }

abbrev or_else : {A : Type 0} → A → Exec A → A
or_else a (ok x) = x
or_else a panic = a
or_else a out_of_fuel = a

-- seven lots are bought: four from order 2, which came first, and three from order 3
swept : MatchingEngine AssocMap × ℕ × Bool
unfolding three_asks
swept = or_else (start, 0, false) (match_against_book taker three_asks 7)

-- the first round of the loop
first_round : MatchingEngine AssocMap × ℕ × Flow
unfolding three_asks
first_round = or_else (start, 0, stop true) (match_round taker three_asks 7)

-- a buy stop and a sell stop wait below and above the asks
abbrev stop_order : ℕ → Side → ℕ → ℕ → ℕ → Command
stop_order id side price qty trigger =
    new_order id 1 side price qty stop_limit gtc none (some trigger) none

with_stops : MatchingEngine AssocMap
unfolding run_all
with_stops = run_all start (
    limit_order 1 ask 102 4
    ∷ stop_order 2 bid 101 1 102
    ∷ stop_order 3 bid 105 1 106
    ∷ stop_order 4 ask 99 1 100
    ∷ [])

-- a trade at 102 fires the first buy stop
cascade : MatchingEngine AssocMap × List MatchEvent
unfolding with_stops
cascade = or_else (start, []) (process with_stops (limit_order 9 bid 102 4))

-- an ask of group 7, which a bid of the same group meets
grouped_ask : MatchingEngine AssocMap
unfolding run_all
grouped_ask = run_all start (new_order 1 1 ask 102 4 limit gtc none none (some 7) ∷ [])

abbrev grouped_taker : Taker
grouped_taker = record { id = 9; side = bid; price = 102; stp = some 7 }

met : MatchingEngine AssocMap × ℕ × Flow
unfolding grouped_ask
met = or_else (start, 0, stop true) (meet grouped_taker grouped_ask 0 102 4)

own_maker : Order
unfolding grouped_ask
own_maker =
    or_else
      (order_of (record {
        id = 0;
        side = ask;
        price = 0;
        qty = 0;
        order_type = limit;
        visible_qty = none;
        stp_group = none;
      }))
      (Arena.get grouped_ask.arena 0)

runs :
    ((match_against_book taker three_asks 7 ≡ ok swept)
      × (filled_qty swept.0.events ≡ filled_qty three_asks.events + 7)
      × (match_round taker three_asks 7 ≡ ok first_round)
      × (first_round.1 ≡ 3)
      × (first_round.2 ≡ continue)
      × FillsWithin bid 102 three_asks.events)
    × ((process with_stops (limit_order 9 bid 102 4) ≡ ok cascade)
        × (cascade.0.last_trade_price ≡ some 102)
        × StopsSorted with_stops
        × (map (λ s. s.0) cascade.0.stop_bids ≡ 106 ∷ []))
    × ((meet grouped_taker grouped_ask 0 102 4 ≡ ok met)
        × (Arena.get grouped_ask.arena 0 ≡ ok own_maker)
        × ((some 7) ≡ some own_maker.stp_group)
        × (own_maker.stp_group ≢ stp_none)
        × (met.0.arena.len ≡ 0))
unfolding opposite remaining matchable_qty is_empty is_filled find put delete add64 add32 sub64
    is_price_acceptable free_links Arena.new bump take_slot alloc assert_live free Arena.get get_mut
    Fenwick.new lowbit Fenwick.add Fenwick.sub prefix_sum prefix_sum_le suffix_sum_ge
    SparseIndex.new binary_search add_all rebuild_fenwick SparseIndex.add SparseIndex.sub
    sum_at_or_below sum_at_or_above PriceMap.get insert remove first_key last_key keys_in set_bit
    clear_bit bit_length leading_zeros count_zeros trailing_zeros highest_tick lowest_tick highest
    lowest Book.State.new lookup dense_index level_at set_level get_level get_level_qty
    level_is_empty set_occupied clear_occupied depth_add depth_remove order_of link_tail
    improve_best mark_occupied place_order insert_order link_front link_back unlink
    find_highest_occupied_bid find_lowest_occupied_ask prune_if_sparse_empty next_best
    clear_if_dense refresh_side refresh_best_after_level_empty reduce_order_qty remove_order
    ask_available_at_or_below bid_available_at_or_above index_levels evict evict_all absorb
    index_tick index_ticks rebuild_sparse_indices rebuild_indices refresh_best
    refresh_bbo_after_recenter force_recenter needs_recenter maybe_recenter Engine.State.new emit
    emit_rejected same_group best_opposing emit_level remove_maker cancel_maker decrement
    prevent_self_trade trade meet match_round match_loop match_against_book effective_price
    remainder_of would_cross check_available_liquidity first_maker_matches stp_rejects fok_rejects
    accept queue_stop process_stop_limit rest_order process_post_only handle_remainder execute
    process_limit process_new_order process_cancel process_modify fire_stop drain_bids drain_asks
    drain_loop drain_stop_triggers dispatch process swept three_asks run_all first_round filled_qty
    fills_of ascends descends descending with_stops cascade grouped_ask met own_maker
runs = (
  (refl, refl, refl, refl, refl, tt),
  (refl, refl, (refl, refl), refl),
  (refl, refl, refl, (λ h. omega (arith, h)), refl),
)

match_against_book-filled_example :
    filled_qty swept.0.events + swept.1 ≤ filled_qty three_asks.events + 7
match_against_book-filled_example = match_against_book-filled taker three_asks 7 swept runs.0.0

match_against_book-filled_ungrouped_example :
    filled_qty swept.0.events + swept.1 ≡ filled_qty three_asks.events + 7
match_against_book-filled_ungrouped_example =
    match_against_book-filled_ungrouped taker three_asks 7 swept runs.0.0 refl

match_round_progress_example :
    ((first_round.1 < 7) × (first_round.0.arena.len ≤ three_asks.arena.len))
    ⊎ ((first_round.1 ≡ 7) × (suc first_round.0.arena.len ≡ three_asks.arena.len))
match_round_progress_example =
    match_round_progress taker three_asks 7 first_round (omega arith) runs.0.2 runs.0.4

process_ends_example : process three_asks (limit_order 9 bid 102 7) ≢ out_of_fuel
process_ends_example = process_ends three_asks (limit_order 9 bid 102 7)

process-StopsSorted_example : StopsSorted cascade.0
process-StopsSorted_example =
    process-StopsSorted with_stops (limit_order 9 bid 102 4) cascade runs.1.0 runs.1.2

process-stops_wait_example :
    (all_above 102 cascade.0.stop_bids ≡ true) × (all_below 102 cascade.0.stop_asks ≡ true)
process-stops_wait_example =
    process-stops_wait with_stops (limit_order 9 bid 102 4) cascade 102 runs.1.0 runs.1.2 runs.1.1

meet-self_trade_example : fills_of met.0.events ≡ fills_of grouped_ask.events
meet-self_trade_example =
    meet-self_trade grouped_taker grouped_ask 0 own_maker 102 4 met runs.2.0 runs.2.1 runs.2.2
      runs.2.3
