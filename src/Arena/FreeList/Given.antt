-- ===== src/Arena/FreeList/Given.antt =====
-- What the reply of `alloc` says of the arena.
use match_x.Base.{
  ℕ, suc, ◌+◌, ◌<◌, ◌≡◌, sym, ◌∙◌, subst, List, [], ◌∷◌, Option, none, some, length, get_elem?-lt,
  ok, panic, arith,
}
use match_x.Types.{Order, ArenaIndex}
use match_x.Arena.{Arena, free_list_end, alloc, take_slot, get, assert_live}
use match_x.Arena.FreeList.{Even, FreeChain, FreeList}
use match_x.Arena.FreeList.Updates.{Taken, alloc_parts}

-- The reply of `alloc` on `a`, which leaves `b`: only a full arena gives out nothing, and what is
-- given out was free.
abbrev pub Given : Arena → Arena → Option ArenaIndex → Type 0
Given a b none = (a.len ≡ a.capacity) × (b ≡ a)
Given a b (some i) =
    (a.len < a.capacity) × (i < a.capacity) × (get a i ≡ panic) × (b.len ≡ suc a.len)

pub get-Even : (a : Arena) (i : ArenaIndex) → Even a.generation i → get a i ≡ panic
unfolding get assert_live
get-Even a i (g, at, even) = ground arith

Given_none :
    (a : Arena) (is : List ℕ)
    → a.free_head ≡ free_list_end
    → FreeChain a.next_free a.generation a.free_head is
    → length is + a.len ≡ a.capacity
    → a.len ≡ a.capacity
Given_none a [] end chain count = omega (arith, count)
Given_none a (i ∷ is) end (head, inside, even, fresh, rest) count = absurd (inside (sym head ∙ end))

Given-some :
    (a b : Arena) (o : Order) (i : ArenaIndex) (is : List ℕ)
    → Taken a b o i
    → FreeList a
    → FreeChain a.next_free a.generation a.free_head is
    → length is + a.len ≡ a.capacity
    → Given a b (some i)
Given-some a b o i [] (g, n, at, link, head, ne, gens, links, next_head, len, room, slots) v chain
      count =
    absurd (ne (sym head ∙ chain))
Given-some a b o i (j ∷ is) (g, n, at, link, head, ne, gens, links, next_head, len, room, slots) v
      (at_head, inside, even, fresh, rest) count =
    (
      omega (arith, count),
      omega (arith, get_elem?-lt a.generation i g at, v.gens),
      get-Even a i (subst (Even a.generation) (sym at_head ∙ head) even),
      len,
    )

pub alloc-Given :
    (a b : Arena) (o : Order) (r : Option ArenaIndex)
    → alloc a o ≡ ok (b, r)
    → FreeList a
    → Given a b r
unfolding alloc take_slot
alloc-Given a b o none h v =
    let same : (a.free_head ≡ free_list_end) × (a ≡ b) = (ground arith, ground arith) in
    (Given_none a v.slots same.0 v.chain v.count, sym same.1)
alloc-Given a b o (some i) h v =
    Given-some a b o i v.slots (alloc_parts a b o i h) v v.chain v.count
