-- ===== src/Arena/FreeList/Calls.antt =====
-- What `alloc` does after any calls of the arena.
use match_x.Base.{ℕ, ◌≤◌, ◌≡◌, subst, List, [], ◌∷◌, Option, none, some, ok, bind_ok, arith}
use match_x.Types.{Order, ArenaIndex}
use match_x.Arena
use match_x.Arena.{Arena, free_list_end, take_slot}
use match_x.Arena.HugePages.Calls.{Op, allocate, release, read, write, Reply, call, calls}
use match_x.Arena.FreeList.{FreeList}
use match_x.Arena.FreeList.Given.{Given, alloc-Given}
use match_x.Arena.FreeList.New.{FreeList-new}
use match_x.Arena.FreeList.Updates.{FreeList-alloc, FreeList-free, FreeList-get_mut}

FreeList-slot :
    (a b : Arena) (o : Order) (r : Option ArenaIndex)
    → Arena.alloc a o ≡ ok (b, r)
    → FreeList a
    → FreeList b
unfolding Arena.alloc take_slot
FreeList-slot a b o none h v = let same : a ≡ b = ground arith in subst FreeList same v
FreeList-slot a b o (some i) h v = FreeList-alloc a b o i h v

FreeList-call :
    (a b : Arena) (op : Op) (r : Reply) → call a op ≡ ok (b, r) → FreeList a → FreeList b
unfolding call
FreeList-call a b (allocate o) r h v =
    let ((c, i), ran, last) = bind_ok (Arena.alloc a o) _ h in
    let same : c ≡ b = cc in subst FreeList same (FreeList-slot a c o i ran v)
FreeList-call a b (release i) r h v =
    let (c, ran, last) = bind_ok (Arena.free a i) _ h in
    let same : c ≡ b = cc in subst FreeList same (FreeList-free a c i ran v)
FreeList-call a b (read i) r h v =
    let (o, ran, last) = bind_ok (Arena.get a i) _ h in
    let same : a ≡ b = cc in subst FreeList same v
FreeList-call a b (write i f) r h v =
    let (c, ran, last) = bind_ok (Arena.get_mut a i f) _ h in
    let same : c ≡ b = cc in subst FreeList same (FreeList-get_mut a c i f ran v)

FreeList-calls :
    (ops : List Op) (a b : Arena) (rs : List Reply)
    → calls a ops ≡ ok (b, rs)
    → FreeList a
    → FreeList b
unfolding calls
FreeList-calls [] a b rs h v = let same : a ≡ b = cc in subst FreeList same v
FreeList-calls (op ∷ ops) a b rs h v =
    let ((c, r), first, later) = bind_ok (call a op) _ h in
    let ((d, rs'), rest, last) = bind_ok (calls c ops) _ later in
    let same : d ≡ b = cc in
    subst FreeList same (FreeList-calls ops c d rs' rest (FreeList-call a c op r first v))

-- In an arena of at most 2^32 - 1 slots, after any calls that return: when `alloc` returns no
-- slot, the arena is full and unchanged; when it returns a slot, the arena was not full, the slot
-- is in range and was not in use, and the arena holds one order more.
pub alloc-calls :
    (capacity : ℕ) (ops : List Op) (a b : Arena) (rs : List Reply) (o : Order)
    (r : Option ArenaIndex)
    → capacity ≤ free_list_end
    → calls (Arena.new capacity) ops ≡ ok (a, rs)
    → Arena.alloc a o ≡ ok (b, r)
    → Given a b r
alloc-calls capacity ops a b rs o r bound run given =
    alloc-Given a b o r given
      (FreeList-calls ops (Arena.new capacity) a rs run (FreeList-new capacity bound))
