-- ===== src/Types/Tests.antt =====
-- The witness on an iceberg order, three lots into its second slice.
use match_x.Base.{◌≤◌, ◌<◌}
use match_x.Types.{Order, bid, iceberg, gtc, arena_null, stp_none, remaining, matchable_qty}
use match_x.Types.Slice.{matchable_qty_bounds}

abbrev order : Order
order = record {
  id = 1;
  price = 100;
  quantity = 25;
  filled = 13;
  timestamp = 0;
  visible_quantity = 10;
  stp_group = stp_none;
  prev = arena_null;
  next = arena_null;
  side = bid;
  order_type = iceberg;
  time_in_force = gtc;
}

matchable_qty_bounds_example :
    (matchable_qty order ≤ remaining order) × (0 < remaining order → 0 < matchable_qty order)
matchable_qty_bounds_example = matchable_qty_bounds order
