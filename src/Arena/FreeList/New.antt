-- ===== src/Arena/FreeList/New.antt =====
-- The free list of a new arena.
use match_x.Base.{
  ℕ, zero, suc, ◌+◌, ◌≤◌, ◌<◌, ◌≡◌, refl, ap, ◌∙◌, List, [], ◌∷◌, none, some, length, get_elem?,
  length-replicate, get_elem?-replicate, replicate, ltb, if◌then◌else◌, arith,
}
use match_x.Arena.{free_list_end, free_links, new}
use match_x.Arena.FreeList.{Fresh, FreeChain, FreeList}

-- the slots of a new arena, from slot `i` on
abbrev from : ℕ → ℕ → List ℕ
from zero i = []
from (suc n) i = i ∷ from n (i + 1)

Fresh-from : (i n j : ℕ) → i < j → Fresh i (from n j)
Fresh-from i zero j h = tt
Fresh-from i (suc n) j h = (λ e. omega arith, Fresh-from i n (j + 1) (omega arith))

-- the slot that `new` links slot `i` to
abbrev next_slot : ℕ → ℕ → ℕ
next_slot capacity i = if ltb i capacity then i else free_list_end

get_elem?-free_links :
    (capacity n i k : ℕ)
    → k < n
    → get_elem? (free_links capacity n i) k ≡ some (next_slot capacity (i + k + 1))
unfolding free_links
get_elem?-free_links capacity zero i k h = absurd (omega arith)
get_elem?-free_links capacity (suc n) i zero h = ap (λ j. some (next_slot capacity j)) (omega arith)
get_elem?-free_links capacity (suc n) i (suc k) h =
    get_elem?-free_links capacity n (i + 1) k (omega arith)
    ∙ ap (λ j. some (next_slot capacity j)) (omega arith)

length-free_links : (capacity n i : ℕ) → length (free_links capacity n i) ≡ n
unfolding free_links
length-free_links capacity zero i = refl
length-free_links capacity (suc n) i = omega (arith, length-free_links capacity n (i + 1))

length-from : (n i : ℕ) → length (from n i) ≡ n
length-from zero i = refl
length-from (suc n) i = omega (arith, length-from n (i + 1))

FreeChain-from :
    (capacity n i : ℕ)
    → i + n ≡ capacity
    → capacity ≤ free_list_end
    → FreeChain
        (free_links capacity capacity 0)
        (replicate capacity 0)
        (next_slot capacity i)
        (from n i)
FreeChain-from capacity zero i h bound = ground arith
FreeChain-from capacity (suc n) i h bound = (
  ground arith,
  λ e. omega arith,
  (0, get_elem?-replicate capacity i 0 (omega arith), refl),
  Fresh-from i n (i + 1) (omega arith),
  (
    next_slot capacity (i + 1),
    get_elem?-free_links capacity capacity 0 i (omega arith)
        ∙ ap (λ j. some (next_slot capacity j)) (omega arith),
    FreeChain-from capacity n (i + 1) (omega arith) bound,
  ),
)

pub FreeList-new : (capacity : ℕ) → capacity ≤ free_list_end → FreeList (new capacity)
unfolding new
FreeList-new capacity h = record {
  slots = from capacity 0;
  chain = FreeChain-from capacity capacity 0 (omega arith) h;
  count = omega (arith, length-from capacity 0);
  size = length-replicate capacity none;
  links = length-free_links capacity capacity 0;
  gens = length-replicate capacity 0;
  bound = h;
}
