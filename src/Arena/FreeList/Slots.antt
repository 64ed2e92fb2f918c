-- ===== src/Arena/FreeList/Slots.antt =====
-- What the slots hold after `alloc` and `free`.
use match_x.Base.{
  ℕ, ◌+◌, ◌%◌, ◌<◌, ◌≡◌, ◌≢◌, refl, ap, sym, ◌∙◌, subst, List, [], ◌∷◌, some, none, length,
  get_elem?, get_elem?-set_self, get_elem?-set_ne, get_elem?-lt, ok, panic, arith,
}
use match_x.Types.{Order, ArenaIndex}
use match_x.Arena.{Arena, free_list_end, alloc, free, get, assert_live}
use match_x.Arena.FreeList.{FreeList, FreeChain, Even}
use match_x.Arena.FreeList.Given.{get-Even}
use match_x.Arena.FreeList.Updates.{Taken, alloc_parts, free_parts}

-- The other slots of `b` are those of `a`.
abbrev pub SameBut : ArenaIndex → Arena → Arena → Type 0
SameBut i a b = (j : ArenaIndex) → i ≢ j → get b j ≡ get a j

-- Reads depend on the slot and its generation.
get_same :
    (a b : Arena) (j : ArenaIndex)
    → get_elem? b.generation j ≡ get_elem? a.generation j
    → get_elem? b.data_slots j ≡ get_elem? a.data_slots j
    → get b j ≡ get a j
unfolding get assert_live
get_same a b j gens slots = rw (gens, slots) refl

get_odd :
    (a : Arena) (i : ArenaIndex) (g : ℕ) (o : Order)
    → get_elem? a.generation i ≡ some g
    → g % 2 ≡ 1
    → get_elem? a.data_slots i ≡ some (some o)
    → get a i ≡ ok o
unfolding get assert_live
get_odd a i g o at odd slot = ground arith

Even-head :
    (a b : Arena) (o : Order) (i : ArenaIndex) (is : List ℕ)
    → Taken a b o i
    → FreeChain a.next_free a.generation a.free_head is
    → Even a.generation i
Even-head a b o i [] (g, n, at, link, head, ne, gens, links, next_head, len, room, slots) chain =
    absurd (ne (sym head ∙ chain))
Even-head a b o i (j ∷ is) (g, n, at, link, head, ne, gens, links, next_head, len, room, slots)
      (at_head, inside, even, fresh, rest) =
    subst (Even a.generation) (sym at_head ∙ head) even

pub alloc-slot :
    (a b : Arena) (o : Order) (i : ArenaIndex)
    → alloc a o ≡ ok (b, some i)
    → FreeList a
    → (i ≢ free_list_end) × (get a i ≡ panic) × (get b i ≡ ok o) × SameBut i a b
alloc-slot a b o i h v =
    let (g, n, at, link, head, ne, gens, links, next_head, len, room, slots) =
      alloc_parts a b o i h in
    let (g', at', even) = Even-head a b o i v.slots (alloc_parts a b o i h) v.chain in
    let inside : i < length a.generation = get_elem?-lt a.generation i g at in
    let same : g' ≡ g = ground arith in
    (
      ne,
      get-Even a i (g', at', even),
      get_odd b i (g + 1) o
          (ap (λ gs. get_elem? gs i) gens ∙ get_elem?-set_self a.generation i (g + 1) inside)
          (omega (arith, even, same))
          (ap (λ ds. get_elem? ds i) slots
            ∙ get_elem?-set_self a.data_slots i (some o) (omega (arith, inside, v.gens, v.size))),
      λ j out.
          get_same a b j
            (ap (λ gs. get_elem? gs j) gens ∙ get_elem?-set_ne a.generation i j (g + 1) out)
            (ap (λ ds. get_elem? ds j) slots ∙ get_elem?-set_ne a.data_slots i j (some o) out),
    )

pub free-SameBut : (a b : Arena) (i : ArenaIndex) → free a i ≡ ok b → SameBut i a b
free-SameBut a b i h j out =
    let (g, at, odd, gens, links, head, len, room, slots, inside) = free_parts a b i h in
    get_same a b j (ap (λ gs. get_elem? gs j) gens ∙ get_elem?-set_ne a.generation i j (g + 1) out)
      (ap (λ ds. get_elem? ds j) slots ∙ get_elem?-set_ne a.data_slots i j none out)
