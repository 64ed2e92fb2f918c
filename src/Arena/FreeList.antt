-- ===== src/Arena/FreeList.antt =====
-- The invariant of `Arena`: the free list runs once through the free slots.
pub mod Updates
pub mod New
pub mod Given
pub mod Slots
pub mod Calls
use match_x.Base.{
  ℕ, zero, suc, ◌+◌, ◌%◌, ◌≤◌, ◌<◌, ◌≡◌, ◌≢◌, refl, ap, sym, ◌∙◌, subst, List, [], ◌∷◌, Option,
  none, some, length, get_elem?, set, get_elem?-set_self, get_elem?-set_ne, get_elem?-lt, bind_ok,
  get_elem?-some, length-set, length-replicate, get_elem?-replicate, replicate, Exec, ok, panic,
  add64, add32, sub64, Bool-cases, Option-cases, inl, inr, ◌==◌, ltb, if◌then◌else◌, arith,
}
use match_x.Types.{Order, ArenaIndex}
use match_x.Arena.{
  Arena, free_list_end, free_links, new, alloc, take_slot, free, get, get_mut, assert_live, bump,
}

abbrev pub Fresh : ℕ → List ℕ → Type 0
Fresh i [] = Unit {0}
Fresh i (j ∷ js) = (i ≢ j) × Fresh i js

-- a free slot has an even generation
abbrev pub Even : List ℕ → ℕ → Type 0
Even gens i = (g : ℕ) × (get_elem? gens i ≡ some g) × (g % 2 ≡ 0)

-- The links from `head` on run through these slots, each of them free, and end.
abbrev pub FreeChain : List ℕ → List ℕ → ℕ → List ℕ → Type 0
FreeChain links gens head [] = head ≡ free_list_end
FreeChain links gens head (i ∷ is) =
    (head ≡ i)
    × (i ≢ free_list_end)
    × Even gens i
    × Fresh i is
    × ((n : ℕ) × (get_elem? links i ≡ some n) × FreeChain links gens n is)

pub record FreeList (a : Arena) : Type 0 where
  pub slots : List ℕ
  pub chain : FreeChain a.next_free a.generation a.free_head slots
  pub count : length slots + a.len ≡ a.capacity
  pub size : length a.data_slots ≡ a.capacity
  pub links : length a.next_free ≡ a.capacity
  pub gens : length a.generation ≡ a.capacity
  pub bound : a.capacity ≤ free_list_end
