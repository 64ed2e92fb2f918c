-- ===== src/Arena/Tests.antt =====
-- The witnesses on an arena of two slots, whose first slot is taken.
use match_x.Base.{◌≡◌, refl, none, some, Exec, ok, panic, out_of_fuel, add64, add32, sub64, arith}
use match_x.Types.{Order, ArenaIndex, ask, limit, gtc, arena_null, stp_none}
use match_x.Arena.{Arena, free_links, new, alloc, free, get, get_mut, assert_live, bump, take_slot}
use match_x.Arena.Access.{get-get_mut, free_protects}
use match_x.Arena.Reuse.{alloc-free}

abbrev pub order : Order
order = record {
  id = 5;
  price = 101;
  quantity = 8;
  filled = 0;
  timestamp = 0;
  visible_quantity = 8;
  stp_group = stp_none;
  prev = arena_null;
  next = arena_null;
  side = ask;
  order_type = limit;
  time_in_force = gtc;
}

abbrev or_else : {A : Type 0} → A → Exec A → A
or_else a (ok x) = x
or_else a panic = a
or_else a out_of_fuel = a

abbrev pub part_filled : Order → Exec Order
part_filled o = ok (record o { filled = 3 })

one_order : Arena
one_order = (or_else (new 2, none) (alloc (new 2) order)).0

freed : Arena
freed = or_else (new 2) (free one_order 0)

changed : Arena
changed = or_else (new 2) (get_mut one_order 0 part_filled)

given : Arena
given = (or_else (new 2, none) (alloc freed order)).0

runs :
    (free one_order 0 ≡ ok freed)
    × (alloc freed order ≡ ok (given, some 0))
    × (get_mut one_order 0 part_filled ≡ ok changed)
    × (get one_order 0 ≡ ok order)
unfolding one_order freed changed given new free_links alloc free get get_mut assert_live bump
    take_slot add64 add32 sub64
runs = (refl, refl, refl, refl)

abbrev first : ArenaIndex
first = 0

alloc-free_example :
    (first ≡ first) × (given.free_head ≡ one_order.free_head) × (given.len ≡ one_order.len)
alloc-free_example = alloc-free one_order freed given first first order runs.0 (omega arith) runs.1

free_protects_example :
    (get freed 0 ≡ panic) × (get_mut freed 0 part_filled ≡ panic) × (free freed 0 ≡ panic)
free_protects_example = free_protects one_order freed 0 part_filled runs.0

get-get_mut_example : get changed 0 ≡ ok (record order { filled = 3 })
get-get_mut_example =
    get-get_mut one_order changed 0 part_filled order (record order { filled = 3 }) runs.2 runs.3
      refl
