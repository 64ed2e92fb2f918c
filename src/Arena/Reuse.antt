-- ===== src/Arena/Reuse.antt =====
-- The free list of the arena: the slot freed last is given out next.
use match_x.Base.{ℕ, ◌≡◌, ◌≢◌, some, ok, add64, add32, sub64, get_elem?-set_self, arith}
use match_x.Types.{Order, ArenaIndex}
use match_x.Arena.{Arena, free_list_end, alloc, free, assert_live, bump, take_slot}

-- When a slot other than the end mark is freed and the next `alloc` returns a slot, it is that
-- slot, and the head of the free list and the number of orders are those before the release.
pub alloc-free :
    (a b c : Arena) (i j : ArenaIndex) (o : Order)
    → free a i ≡ ok b
    → i ≢ free_list_end
    → alloc b o ≡ ok (c, some j)
    → (j ≡ i) × (c.free_head ≡ a.free_head) × (c.len ≡ a.len)
unfolding free alloc take_slot assert_live bump add64 add32 sub64
alloc-free a b c i j o freed inside given = grind (arith, get_elem?-set_self {A = ℕ})
