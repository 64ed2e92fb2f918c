-- ===== src/Arena/HugePages.antt =====
-- crates/matchx-arena/src/lib.rs: `HugePageArena`. The mapped region is the list of its slots of 64
-- bytes; an access outside it, or to a slot that was never written, is undefined behaviour, here a
-- panic. `assume_init_drop` does nothing to an `Order`, so that a freed slot keeps what it held.
pub mod Simulation
pub mod Calls
pub mod Tests
use match_x.Base.{
  ℕ, ◌+◌, ◌*◌, ◌/◌, List, Option, none, some, ◌==◌, ltb, ◌||◌, Bool, if◌then◌else◌, length,
  get_elem?, set, replicate, Exec, ok, ◌>>=◌, ◌>>◌, assert, unwrap, add32, sub64,
}
use match_x.Types.{Order, ArenaIndex}
use match_x.Arena.{free_list_end, free_links}

abbrev pub page_2mb : ℕ
page_2mb = 2097152

pub record HugePageArena : Type 0 where
  pub data_slots : List (Option Order)
  pub mmap_len : ℕ
  pub next_free : List ℕ
  pub free_head : ℕ
  pub len : ℕ
  pub capacity : ℕ

-- the size of the region: whole pages
unfoldable pub mmap_len_of : ℕ → ℕ
mmap_len_of capacity = (capacity * 64 + 2097151) / page_2mb * page_2mb

-- `huge_pages` and `anonymous` tell whether the two calls of `mmap` succeed.
unfoldable pub new : (huge_pages anonymous : Bool) → ℕ → Exec HugePageArena
unfolding mmap_len_of
new huge_pages anonymous capacity = do
  assert (huge_pages || anonymous)
  ok (record {
    data_slots = replicate (mmap_len_of capacity / 64) none;
    mmap_len = mmap_len_of capacity;
    next_free = free_links capacity capacity 0;
    free_head = if ltb 0 capacity then 0 else free_list_end;
    len = 0;
    capacity = capacity;
  })

-- Take the slot at the head of the free list.
unfoldable pub take_head : HugePageArena → Order → ℕ → Exec (HugePageArena × Option ArenaIndex)
take_head a order idx = do
  next ← unwrap (get_elem? a.next_free idx)
  assert (ltb idx (length a.data_slots))
  n ← add32 a.len 1
  ok (
    record a { data_slots = set a.data_slots idx (some order); free_head = next; len = n },
    some idx,
  )

unfoldable pub alloc : HugePageArena → Order → Exec (HugePageArena × Option ArenaIndex)
alloc a order = if a.free_head == free_list_end then ok (a, none) else take_head a order a.free_head

unfoldable pub free : HugePageArena → ArenaIndex → Exec HugePageArena
free a idx = do
  assert (ltb idx (length a.data_slots))
  assert (ltb idx (length a.next_free))
  n ← sub64 a.len 1
  ok (record a { next_free = set a.next_free idx a.free_head; free_head = idx; len = n })

unfoldable pub get : HugePageArena → ArenaIndex → Exec Order
get a idx = do slot ← unwrap (get_elem? a.data_slots idx); unwrap slot

-- `*get_mut(idx) = f(..)`
unfoldable pub get_mut : HugePageArena → ArenaIndex → (Order → Exec Order) → Exec HugePageArena
get_mut a idx f = do
  order ← get a idx
  order' ← f order
  ok (record a { data_slots = set a.data_slots idx (some order') })
