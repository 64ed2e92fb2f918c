-- ===== src/Arena/HugePages/Simulation.antt =====
-- `HugePageArena` against `Arena`, call by call.
use match_x.Base.{
  ℕ, zero, suc, ◌/◌, ◌≤◌, ◌≡◌, refl, sym, ◌∙◌, ◌⊎◌, inl, inr, List, [], ◌∷◌, Option, none, some,
  ◌||◌, Bool, true, length, ltb, get_elem?, set, replicate, Exec, ok, bind_ok, Bool-cases, ◌==◌,
  if◌then◌else◌, arith, subst,
}
use match_x.Types.{Order, ArenaIndex}
use match_x.Arena
use match_x.Arena.{Arena, free_links, take_slot, assert_live, bump, free_list_end}
use match_x.Arena.HugePages
use match_x.Arena.HugePages.{HugePageArena, mmap_len_of, take_head}

-- Every slot that is initialised on the left holds the same on the right.
abbrev Covers : List (Option Order) → List (Option Order) → Type 0
Covers [] ys = Unit {0}
Covers (x ∷ xs) [] = ⊥
Covers (x ∷ xs) (y ∷ ys) = ((x ≡ none) ⊎ (x ≡ y)) × Covers xs ys

length-Covers : (xs ys : List (Option Order)) → Covers xs ys → length xs ≤ length ys
length-Covers [] ys h = omega arith
length-Covers (x ∷ xs) [] h = absurd h
length-Covers (x ∷ xs) (y ∷ ys) h = omega (arith, length-Covers xs ys h.1)

Covers-set :
    (xs ys : List (Option Order)) (i : ℕ) (v : Option Order)
    → Covers xs ys
    → Covers (set xs i v) (set ys i v)
Covers-set [] ys i v h = tt
Covers-set (x ∷ xs) [] i v h = absurd h
Covers-set (x ∷ xs) (y ∷ ys) zero v h = (inr refl, h.1)
Covers-set (x ∷ xs) (y ∷ ys) (suc i) v h = (h.0, Covers-set xs ys i v h.1)

Covers-set_empty : (xs ys : List (Option Order)) (i : ℕ) → Covers xs ys → Covers (set xs i none) ys
Covers-set_empty [] ys i h = tt
Covers-set_empty (x ∷ xs) [] i h = absurd h
Covers-set_empty (x ∷ xs) (y ∷ ys) zero h = (inl refl, h.1)
Covers-set_empty (x ∷ xs) (y ∷ ys) (suc i) h = (h.0, Covers-set_empty xs ys i h.1)

get_elem?-Covers :
    (xs ys : List (Option Order)) (i : ℕ) (o : Order)
    → Covers xs ys
    → get_elem? xs i ≡ some (some o)
    → get_elem? ys i ≡ some (some o)
get_elem?-Covers [] ys i o h g = ground arith
get_elem?-Covers (x ∷ xs) [] i o h g = absurd h
get_elem?-Covers (x ∷ xs) (y ∷ ys) zero o h g = ground arith
get_elem?-Covers (x ∷ xs) (y ∷ ys) (suc i) o h g = get_elem?-Covers xs ys i o h.1 g

Covers-replicate : (n m : ℕ) → n ≤ m → Covers (replicate n none) (replicate m none)
Covers-replicate zero m h = tt
Covers-replicate (suc n) zero h = absurd (omega arith)
Covers-replicate (suc n) (suc m) h = (inl refl, Covers-replicate n m (omega arith))

pub record Agrees (a : Arena) (h : HugePageArena) : Type 0 where
  pub slots : Covers a.data_slots h.data_slots
  pub links : a.next_free ≡ h.next_free
  pub head : a.free_head ≡ h.free_head
  pub count : a.len ≡ h.len

pub alloc-Agrees :
    (a b : Arena) (h : HugePageArena) (o : Order) (i : Option ArenaIndex)
    → Agrees a h
    → Arena.alloc a o ≡ ok (b, i)
    → (k : HugePageArena) × (HugePages.alloc h o ≡ ok (k, i)) × Agrees b k
unfolding Arena.alloc take_slot bump HugePages.alloc take_head
alloc-Agrees a b h o i g run = elim (Bool-cases (a.free_head == free_list_end)) [
  | inl full ↦
      let same : (b.data_slots ≡ a.data_slots)
          × (b.next_free ≡ a.next_free)
          × (b.free_head ≡ a.free_head)
          × (b.len ≡ a.len) =
        ground arith in
      (
        h,
        ground (arith, g.head),
        record {
          slots = subst (λ xs. Covers xs h.data_slots) (sym same.0) g.slots;
          links = same.1 ∙ g.links;
          head = same.2 ∙ g.head;
          count = same.3 ∙ g.count;
        },
      )
  | inr room ↦
      let short = length-Covers a.data_slots h.data_slots g.slots in
      let same : (b.data_slots ≡ set a.data_slots a.free_head (some o))
          × (b.next_free ≡ a.next_free) =
        ground arith in
      (
        record h {
          data_slots = set h.data_slots h.free_head (some o);
          free_head = b.free_head;
          len = b.len;
        },
        grind (arith, g.links, g.head, g.count, short),
        record {
          slots =
              rw (same.0, g.head)
                (Covers-set a.data_slots h.data_slots h.free_head (some o) g.slots);
          links = same.1 ∙ g.links;
          head = refl;
          count = refl;
        },
      )
]

pub free-Agrees :
    (a b : Arena) (h : HugePageArena) (i : ArenaIndex)
    → Agrees a h
    → Arena.free a i ≡ ok b
    → (k : HugePageArena) × (HugePages.free h i ≡ ok k) × Agrees b k
unfolding Arena.free assert_live bump HugePages.free
free-Agrees a b h i g run =
    let short = length-Covers a.data_slots h.data_slots g.slots in
    let same : (b.data_slots ≡ set a.data_slots i none)
        × (b.next_free ≡ set a.next_free i a.free_head)
        × (b.free_head ≡ i) =
      ground arith in
    let k : HugePageArena = record h {
      next_free = set h.next_free i h.free_head;
      free_head = i;
      len = b.len;
    } in
    (
      k,
      grind (arith, g.links, g.head, g.count, short),
      record {
        slots = rw same.0 (Covers-set_empty a.data_slots h.data_slots i g.slots);
        links = rw (same.1, g.links, g.head) refl;
        head = same.2;
        count = refl;
      },
    )

pub get-Agrees :
    (a : Arena) (h : HugePageArena) (i : ArenaIndex) (o : Order)
    → Agrees a h
    → Arena.get a i ≡ ok o
    → HugePages.get h i ≡ ok o
unfolding Arena.get assert_live HugePages.get
get-Agrees a h i o g run =
    let there : get_elem? a.data_slots i ≡ some (some o) = ground arith in
    ground (arith, get_elem?-Covers a.data_slots h.data_slots i o g.slots there)

pub get_mut-Agrees :
    (a b : Arena) (h : HugePageArena) (i : ArenaIndex) (f : Order → Exec Order)
    → Agrees a h
    → Arena.get_mut a i f ≡ ok b
    → (k : HugePageArena) × (HugePages.get_mut h i f ≡ ok k) × Agrees b k
unfolding Arena.get_mut HugePages.get_mut
get_mut-Agrees a b h i f g run =
    let (o, read, later) = bind_ok (Arena.get a i) _ run in
    let (o', changed, rest) = bind_ok (f o) _ later in
    let same : (b.data_slots ≡ set a.data_slots i (some o'))
        × (b.next_free ≡ a.next_free)
        × (b.free_head ≡ a.free_head)
        × (b.len ≡ a.len) =
      ground arith in
    (
      record h { data_slots = set h.data_slots i (some o') },
      rw (get-Agrees a h i o g read, changed) refl,
      record {
        slots = rw same.0 (Covers-set a.data_slots h.data_slots i (some o') g.slots);
        links = same.1 ∙ g.links;
        head = same.2 ∙ g.head;
        count = same.3 ∙ g.count;
      },
    )

pub new-Agrees :
    (huge_pages anonymous : Bool) (capacity : ℕ)
    → (huge_pages || anonymous) ≡ true
    → (h : HugePageArena) × (HugePages.new huge_pages anonymous capacity ≡ ok h)
      × Agrees (Arena.new capacity) h
unfolding Arena.new HugePages.new mmap_len_of
new-Agrees huge_pages anonymous capacity mapped =
    let room : capacity ≤ mmap_len_of capacity / 64 = omega arith in
    (
      record {
        data_slots = replicate (mmap_len_of capacity / 64) none;
        mmap_len = mmap_len_of capacity;
        next_free = free_links capacity capacity 0;
        free_head = if ltb 0 capacity then 0 else free_list_end;
        len = 0;
        capacity = capacity;
      },
      rw mapped refl,
      record {
        slots = Covers-replicate capacity (mmap_len_of capacity / 64) room;
        links = refl;
        head = refl;
        count = refl;
      },
    )
