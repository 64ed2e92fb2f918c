-- ===== src/Arena/Ends.antt =====
-- The operations of the arena end: they panic or return. And what they do to the number of orders.
use match_x.Base.{suc, ◌≡◌, ◌≢◌, Exec, ok, out_of_fuel, add64, add32, sub64, arith}
use match_x.Types.{Order, ArenaIndex}
use match_x.Arena.{Arena, alloc, free, get, get_mut, assert_live, bump, take_slot}

pub get_fuel : (a : Arena) (idx : ArenaIndex) → get a idx ≢ out_of_fuel
unfolding get assert_live
get_fuel a idx = ground arith

pub free_fuel : (a : Arena) (idx : ArenaIndex) → free a idx ≢ out_of_fuel
unfolding free assert_live bump add64 sub64
free_fuel a idx = ground arith

-- `free` takes one order away.
pub len-free : (a b : Arena) (idx : ArenaIndex) → free a idx ≡ ok b → suc b.len ≡ a.len
unfolding free assert_live bump add64 sub64
len-free a b idx h = ground arith

pub get_mut_fuel :
    (a : Arena) (idx : ArenaIndex) (f : Order → Exec Order)
    → ((o : Order) → f o ≢ out_of_fuel)
    → get_mut a idx f ≢ out_of_fuel
unfolding get_mut
get_mut_fuel a idx f total = grind (arith, get_fuel, total)

pub len-get_mut :
    (a b : Arena) (idx : ArenaIndex) (f : Order → Exec Order)
    → get_mut a idx f ≡ ok b
    → b.len ≡ a.len
unfolding get_mut
len-get_mut a b idx f h = ground arith

pub alloc_fuel : (a : Arena) (o : Order) → alloc a o ≢ out_of_fuel
unfolding alloc take_slot bump add64 add32
alloc_fuel a o = ground arith
