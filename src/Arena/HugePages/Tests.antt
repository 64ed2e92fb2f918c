-- ===== src/Arena/HugePages/Tests.antt =====
-- The witness on the arena over a mapping without huge pages: a slot is given out, changed, read,
-- freed and given out again.
use match_x.Base.{
  ◌≡◌, refl, true, false, List, [], ◌∷◌, Exec, ok, panic, out_of_fuel, add64, add32, sub64,
}
use match_x.Arena
use match_x.Arena.{Arena, free_links, take_slot, assert_live, bump}
use match_x.Arena.HugePages
use match_x.Arena.HugePages.{HugePageArena}
use match_x.Arena.HugePages.Calls.{
  Op, allocate, release, read, write, Reply, call, calls, huge_calls, huge_calls-calls,
}
use match_x.Arena.Tests
use match_x.Arena.Tests.{part_filled}

abbrev ops : List Op
ops =
    allocate Tests.order
    ∷ write 0 part_filled
    ∷ read 0
    ∷ release 0
    ∷ allocate Tests.order
    ∷ allocate Tests.order
    ∷ []

abbrev or_new : Exec (Arena × List Reply) → Arena × List Reply
or_new (ok r) = r
or_new panic = (Arena.new 1, [])
or_new out_of_fuel = (Arena.new 1, [])

after : Arena × List Reply
after = or_new (calls (Arena.new 1) ops)

runs : calls (Arena.new 1) ops ≡ ok after
unfolding after calls call Arena.new free_links Arena.alloc take_slot Arena.free Arena.get
    Arena.get_mut assert_live bump add64 add32 sub64
runs = refl

huge_calls-calls_example :
    (h : HugePageArena) × (k : HugePageArena) × (HugePages.new false true 1 ≡ ok h)
    × (huge_calls h ops ≡ ok (k, after.1))
    × (k.len ≡ after.0.len)
huge_calls-calls_example = huge_calls-calls false true 1 ops after.0 after.1 refl runs
