-- ===== src/Arena.antt =====
-- crates/matchx-arena/src/lib.rs: `Arena`, in the build with debug assertions, where a slot carries a
-- generation (odd while the slot is occupied) and a use after free or a double free panics.
pub mod Access
pub mod Ends
pub mod FreeList
pub mod HugePages
pub mod Reuse
pub mod Tests
use match_x.Base.{
  ℕ, zero, suc, ◌+◌, ◌%◌, List, [], ◌∷◌, Option, none, some, ◌==◌, ltb, if◌then◌else◌, length,
  get_elem?, set, replicate, Exec, ok, ◌>>=◌, ◌>>◌, assert, unwrap, add64, add32, sub64, u32_max,
}
use match_x.Types.{Order, ArenaIndex}

abbrev pub free_list_end : ℕ
free_list_end = u32_max

-- An element of `data` is `none` while the slot is not initialised.
pub record Arena : Type 0 where
  pub data_slots : List (Option Order)
  pub next_free : List ℕ
  pub free_head : ℕ
  pub len : ℕ
  pub capacity : ℕ
  pub generation : List ℕ

-- the links pushed by the loop of `new`, from slot `i` on
unfoldable pub free_links : ℕ → ℕ → ℕ → List ℕ
free_links capacity zero i = []
free_links capacity (suc n) i =
    (if ltb (i + 1) capacity then i + 1 else free_list_end) ∷ free_links capacity n (i + 1)

unfoldable pub new : ℕ → Arena
new capacity = record {
  data_slots = replicate capacity none;
  next_free = free_links capacity capacity 0;
  free_head = if ltb 0 capacity then 0 else free_list_end;
  len = 0;
  capacity = capacity;
  generation = replicate capacity 0;
}

-- `self.generation[idx] += 1`
unfoldable pub bump : List ℕ → ℕ → Exec (List ℕ)
bump gens i = do g ← unwrap (get_elem? gens i); g' ← add64 g 1; ok (set gens i g')

-- Take the slot at the head of the free list.
unfoldable pub take_slot : Arena → Order → ℕ → Exec (Arena × Option ArenaIndex)
take_slot a order idx = do
  next ← unwrap (get_elem? a.next_free idx)
  assert (ltb idx (length a.data_slots))
  n ← add32 a.len 1
  gens ← bump a.generation idx
  ok (
    record a {
      data_slots = set a.data_slots idx (some order);
      free_head = next;
      len = n;
      generation = gens;
    },
    some idx,
  )

unfoldable pub alloc : Arena → Order → Exec (Arena × Option ArenaIndex)
alloc a order = if a.free_head == free_list_end then ok (a, none) else take_slot a order a.free_head

-- the assertion that the slot is occupied
unfoldable pub assert_live : Arena → ArenaIndex → Exec (Unit {0})
assert_live a idx = do g ← unwrap (get_elem? a.generation idx); assert (g % 2 == 1)

unfoldable pub free : Arena → ArenaIndex → Exec Arena
free a idx = do
  assert_live a idx
  gens ← bump a.generation idx
  assert (ltb idx (length a.data_slots))
  assert (ltb idx (length a.next_free))
  n ← sub64 a.len 1
  ok (record a {
    data_slots = set a.data_slots idx none;
    next_free = set a.next_free idx a.free_head;
    free_head = idx;
    len = n;
    generation = gens;
  })

-- Reading a slot that is not initialised is undefined behaviour, here a panic.
unfoldable pub get : Arena → ArenaIndex → Exec Order
get a idx = do assert_live a idx; slot ← unwrap (get_elem? a.data_slots idx); unwrap slot

-- `*get_mut(idx) = f(..)`: what the callers do with the reference is `f`.
unfoldable pub get_mut : Arena → ArenaIndex → (Order → Exec Order) → Exec Arena
get_mut a idx f = do
  order ← get a idx
  order' ← f order
  ok (record a { data_slots = set a.data_slots idx (some order') })
