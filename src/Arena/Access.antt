-- ===== src/Arena/Access.antt =====
-- Access to the slots of the arena: what is written is read, and a freed slot is not accessible.
use match_x.Base.{
  ℕ, suc, ◌≡◌, ok, panic, some, Option, Exec, add64, sub64, get_elem?, set, refl, zero, List, [],
  ◌∷◌, arith,
}
use match_x.Types.{Order, ArenaIndex}
use match_x.Arena.{Arena, free, get, get_mut, assert_live, bump}

-- an entry that is there can be overwritten
get_elem?-set_present :
    {A : Type 0} (xs : List A) (i : ℕ) (v w : A)
    → get_elem? xs i ≡ some v
    → get_elem? (set xs i w) i ≡ some w
get_elem?-set_present [] i v w h = ground arith
get_elem?-set_present (x ∷ xs) zero v w h = refl
get_elem?-set_present (x ∷ xs) (suc i) v w h = get_elem?-set_present xs i v w h

-- When `get_mut` returns and its function takes the order in the slot to another one, `get` reads
-- that one.
pub get-get_mut :
    (a b : Arena) (i : ArenaIndex) (f : Order → Exec Order) (o o' : Order)
    → get_mut a i f ≡ ok b
    → get a i ≡ ok o
    → f o ≡ ok o'
    → get b i ≡ ok o'
unfolding get_mut get assert_live
get-get_mut a b i f o o' h old new = grind (arith, get_elem?-set_present {A = Option Order})

assert_live-bump : (a b : Arena) (i : ArenaIndex) → free a i ≡ ok b → assert_live b i ≡ panic
unfolding free assert_live bump add64 sub64
assert_live-bump a b i h = grind (arith, get_elem?-set_present {A = ℕ})

-- When `free` of a slot returns, a read, a write and another release of that slot panic.
pub free_protects :
    (a b : Arena) (i : ArenaIndex) (f : Order → Exec Order)
    → free a i ≡ ok b
    → (get b i ≡ panic) × (get_mut b i f ≡ panic) × (free b i ≡ panic)
unfolding get get_mut free
free_protects a b i f h = let dead = assert_live-bump a b i h in (rw dead, rw dead, rw dead)
