-- ===== src/Arena/FreeList/Updates.antt =====
-- `alloc`, `free` and `get_mut` keep the free list.
use match_x.Base.{
  ℕ, suc, ◌+◌, ◌%◌, ◌<◌, ◌≡◌, ◌≢◌, ap, sym, ◌∙◌, subst, List, [], ◌∷◌, none, some, length,
  get_elem?, set, get_elem?-set_self, get_elem?-set_ne, get_elem?-lt, bind_ok, length-set, Exec, ok,
  add64, add32, sub64, Option-cases, inl, inr, arith,
}
use match_x.Types.{Order, ArenaIndex}
use match_x.Arena.{Arena, free_list_end, alloc, take_slot, free, get, get_mut, assert_live, bump}
use match_x.Arena.FreeList.{Fresh, Even, FreeChain, FreeList}

-- A slot that is no member may change.
FreeChain-set_gen :
    (links gens : List ℕ) (head i g : ℕ) (is : List ℕ)
    → Fresh i is
    → FreeChain links gens head is
    → FreeChain links (set gens i g) head is
FreeChain-set_gen links gens head i g [] f c = c
FreeChain-set_gen links gens head i g (j ∷ js) f (h, e, (k, at, even), fresh, (n, next, c)) = (
  h,
  e,
  (k, get_elem?-set_ne gens i j g f.0 ∙ at, even),
  fresh,
  (n, next, FreeChain-set_gen links gens n i g js f.1 c),
)

FreeChain-set_link :
    (links gens : List ℕ) (head i m : ℕ) (is : List ℕ)
    → Fresh i is
    → FreeChain links gens head is
    → FreeChain (set links i m) gens head is
FreeChain-set_link links gens head i m [] f c = c
FreeChain-set_link links gens head i m (j ∷ js) f (h, e, even, fresh, (n, next, c)) = (
  h,
  e,
  even,
  fresh,
  (n, get_elem?-set_ne links i j m f.0 ∙ next, FreeChain-set_link links gens n i m js f.1 c),
)

-- An occupied slot is no member.
Fresh-odd :
    (links gens : List ℕ) (head i g : ℕ) (is : List ℕ)
    → get_elem? gens i ≡ some g
    → g % 2 ≡ 1
    → FreeChain links gens head is
    → Fresh i is
Fresh-odd links gens head i g [] at odd c = tt
Fresh-odd links gens head i g (j ∷ js) at odd (h, e, (k, at', even), fresh, (n, next, c)) = (
  λ same. absurd (ground (arith, ap (get_elem? gens) same)),
  Fresh-odd links gens n i g js at odd c,
)

-- What `free` and `alloc` do to the fields of the invariant.
pub free_parts :
    (a b : Arena) (i : ArenaIndex)
    → free a i ≡ ok b
    → (g : ℕ) × (get_elem? a.generation i ≡ some g)
      × (g % 2 ≡ 1)
      × (b.generation ≡ set a.generation i (g + 1))
      × (b.next_free ≡ set a.next_free i a.free_head)
      × (b.free_head ≡ i)
      × (suc b.len ≡ a.len)
      × (b.capacity ≡ a.capacity)
      × (b.data_slots ≡ set a.data_slots i none)
      × (i < length a.next_free)
unfolding free assert_live bump add64 sub64
free_parts a b i h = elim (Option-cases (get_elem? a.generation i)) [
  | inl missing ↦ absurd (ground arith)
  | inr (g, at) ↦ (
    g,
    at,
    ground arith,
    ground arith,
    ground arith,
    ground arith,
    ground arith,
    ground arith,
    ground arith,
    ground arith,
  )
]

-- What `alloc` changes when it gives out slot `i`.
abbrev pub Taken : Arena → Arena → Order → ArenaIndex → Type 0
Taken a b o i =
    (g : ℕ) × (n : ℕ) × (get_elem? a.generation i ≡ some g)
    × (get_elem? a.next_free i ≡ some n)
    × (a.free_head ≡ i)
    × (i ≢ free_list_end)
    × (b.generation ≡ set a.generation i (g + 1))
    × (b.next_free ≡ a.next_free)
    × (b.free_head ≡ n)
    × (b.len ≡ suc a.len)
    × (b.capacity ≡ a.capacity)
    × (b.data_slots ≡ set a.data_slots i (some o))

pub alloc_parts :
    (a b : Arena) (o : Order) (i : ArenaIndex) → alloc a o ≡ ok (b, some i) → Taken a b o i
unfolding alloc take_slot bump add64 add32
alloc_parts a b o i h =
    let head : (a.free_head ≡ i) × (i ≢ free_list_end) = ground arith in
    elim (Option-cases (get_elem? a.generation i)) [
      | inl missing ↦ absurd (ground arith)
      | inr (g, at) ↦ elim (Option-cases (get_elem? a.next_free i)) [
        | inl missing ↦ absurd (ground arith)
        | inr (n, next) ↦ (
          g,
          n,
          at,
          next,
          head.0,
          head.1,
          ground arith,
          ground arith,
          ground arith,
          ground arith,
          ground arith,
          ground arith,
        )
      ]
    ]

chain_of :
    {links links' gens gens' : List ℕ} (head : ℕ) (is : List ℕ)
    → links' ≡ links
    → gens' ≡ gens
    → FreeChain links gens head is
    → FreeChain links' gens' head is
chain_of {links} {links'} {gens} {gens'} head is e f c =
    subst (λ gs. FreeChain links' gs head is) (sym f)
      (subst (λ nf. FreeChain nf gens head is) (sym e) c)

pub FreeList-free : (a b : Arena) (i : ArenaIndex) → free a i ≡ ok b → FreeList a → FreeList b
FreeList-free a b i h v =
    let (g, at, odd, gens, links, head, len, room, slots, inside) = free_parts a b i h in
    let fresh = Fresh-odd a.next_free a.generation a.free_head i g v.slots at odd v.chain in
    record {
      slots = i ∷ v.slots;
      chain = (
        head,
        λ e. absurd (omega (arith, inside, v.links, v.bound, e)),
        subst (λ gs. Even gs i) (sym gens)
            (
              g + 1,
              get_elem?-set_self a.generation i (g + 1) (get_elem?-lt a.generation i g at),
              omega arith,
            ),
        fresh,
        (
          a.free_head,
          subst (λ nf. get_elem? nf i ≡ some a.free_head) (sym links)
              (get_elem?-set_self a.next_free i a.free_head inside),
          chain_of a.free_head v.slots links gens (
              FreeChain-set_gen (set a.next_free i a.free_head) a.generation a.free_head i (g + 1)
                v.slots fresh
                (FreeChain-set_link a.next_free a.generation a.free_head i a.free_head v.slots fresh
                  v.chain)),
        ),
      );
      count = omega (arith, v.count);
      size = ap length slots ∙ length-set a.data_slots i none ∙ v.size ∙ sym room;
      links = ap length links ∙ length-set a.next_free i a.free_head ∙ v.links ∙ sym room;
      gens = ap length gens ∙ length-set a.generation i (g + 1) ∙ v.gens ∙ sym room;
      bound = omega (arith, v.bound, room);
    }

FreeList-Taken :
    (a b : Arena) (o : Order) (i : ArenaIndex) (is : List ℕ)
    → Taken a b o i
    → FreeList a
    → FreeChain a.next_free a.generation a.free_head is
    → length is + a.len ≡ a.capacity
    → FreeList b
FreeList-Taken a b o i [] (g, n, at, link, head, ne, gens, links, next_head, len, room, slots) v
      chain count =
    absurd (ne (sym head ∙ chain))
FreeList-Taken a b o i (j ∷ is) (g, n, at, link, head, ne, gens, links, next_head, len, room, slots)
      v (at_head, inside, even, fresh, (m, next, chain)) count =
    let same : j ≡ i = sym at_head ∙ head in
    let follow : m ≡ b.free_head = ground (arith, ap (get_elem? a.next_free) same) in
    record {
      slots = is;
      chain =
          subst (λ k. FreeChain b.next_free b.generation k is) follow
            (chain_of m is links gens (
              FreeChain-set_gen a.next_free a.generation m i (g + 1) is
                (subst (λ k. Fresh k is) same fresh) chain));
      count = omega (arith, count, len, room);
      size = ap length slots ∙ length-set a.data_slots i (some o) ∙ v.size ∙ sym room;
      links = ap length links ∙ v.links ∙ sym room;
      gens = ap length gens ∙ length-set a.generation i (g + 1) ∙ v.gens ∙ sym room;
      bound = omega (arith, v.bound, room);
    }

pub FreeList-alloc :
    (a b : Arena) (o : Order) (i : ArenaIndex)
    → alloc a o ≡ ok (b, some i)
    → FreeList a
    → FreeList b
FreeList-alloc a b o i h v =
    FreeList-Taken a b o i v.slots (alloc_parts a b o i h) v v.chain v.count

get_mut_parts :
    (a b : Arena) (i : ArenaIndex) (f : Order → Exec Order)
    → get_mut a i f ≡ ok b
    → (o : Order) × (b ≡ record a { data_slots = set a.data_slots i (some o) })
unfolding get_mut
get_mut_parts a b i f h =
    let (o, read, later) = bind_ok (get a i) _ h in
    let (o', changed, last) = bind_ok (f o) _ later in (o', cc)

pub FreeList-get_mut :
    (a b : Arena) (i : ArenaIndex) (f : Order → Exec Order)
    → get_mut a i f ≡ ok b
    → FreeList a
    → FreeList b
FreeList-get_mut a b i f h v =
    let (o, same) = get_mut_parts a b i f h in
    subst FreeList (sym same) (record {
      slots = v.slots;
      chain = v.chain;
      count = v.count;
      size = length-set a.data_slots i (some o) ∙ v.size;
      links = v.links;
      gens = v.gens;
      bound = v.bound;
    })
