-- ===== src/Book/Queues.antt =====
-- The order book as a queue of orders for each side and price.
pub mod New
pub mod Append
pub mod Insert
pub mod Unlink
pub mod Settle
pub mod Remove
pub mod Reduce
pub mod History
mod Tests
use match_x.Base.{
  ℕ, suc, ◌+◌, ◌≡◌, ◌≢◌, refl, ap, sym, ◌∙◌, subst, ◌⊎◌, inl, inr, ◌==◌, ◌&&◌, if◌then◌else◌, Bool,
  true, false, List, [], ◌∷◌, ◌++◌, Exec, ok, panic, ℕ_discrete, arith,
}
use match_x.Types.{Side, bid, ask, Order, ArenaIndex, PriceLevel, arena_null, remaining}
use match_x.Arena
use match_x.Arena.{Arena}
use match_x.Arena.FreeList.{FreeList}
use match_x.Arena.FreeList.Slots.{SameBut}
use match_x.Book.State.{OrderBook, level_at, set_level}
use match_x.Book.Levels.{
  SparseSorted, LevelsKept, level_at-LevelsKept, level_at-set_level, level_at-set_level_ne,
  level_at-set_level_side,
}
use match_x.Book.Queue.{Entry, plain, first, last, NotIn, Linked, Segment, total, Queue, Placed}
use match_x.Book.Queue.Links.{NotIn-both, Apart, Segment-same}
use match_x.Book.Queue.Operations.{SameOutside}

abbrev pub Queues : Type 0
Queues = Side → ℕ → List Entry

abbrev same_side : Side → Side → Bool
same_side bid bid = true
same_side bid ask = false
same_side ask bid = false
same_side ask ask = true

-- the queues with another one at this side and price
abbrev pub put : Queues → Side → ℕ → List Entry → Queues
put q s p xs t r = if same_side s t && p == r then xs else q t r

abbrev pub Elsewhere : Side → ℕ → Side → ℕ → Type 0
Elsewhere s p t r = (s ≢ t) ⊎ ((s ≡ t) × (p ≢ r))

pub Elsewhere-back : (s : Side) (p : ℕ) (t : Side) (r : ℕ) → Elsewhere s p t r → Elsewhere t r s p
Elsewhere-back s p t r (inl ne) = inl (λ e. ne (sym e))
Elsewhere-back s p t r (inr (same, ne)) = inr (sym same, λ e. ne (sym e))

side_cases : (s t : Side) → (s ≡ t) ⊎ (s ≢ t)
side_cases bid bid = inl refl
side_cases bid ask = inr (λ e. cc)
side_cases ask bid = inr (λ e. cc)
side_cases ask ask = inl refl

place_cases : (s : Side) (p : ℕ) (t : Side) (r : ℕ) → ((s ≡ t) × (p ≡ r)) ⊎ Elsewhere s p t r
place_cases s p t r = elim (side_cases s t) [
  | inr ne ↦ inr (inl ne)
  | inl same ↦ elim (ℕ_discrete p r) [ yes e ↦ inl (same, e) | no ne ↦ inr (inr (same, ne)) ]
]

pub put_self : (q : Queues) (s : Side) (p : ℕ) (xs : List Entry) → put q s p xs s p ≡ xs
put_self q bid p xs = ground arith
put_self q ask p xs = ground arith

put-Elsewhere :
    (q : Queues) (s : Side) (p : ℕ) (xs : List Entry) (t : Side) (r : ℕ)
    → Elsewhere s p t r
    → put q s p xs t r ≡ q t r
put-Elsewhere q bid p xs bid r (inl ne) = absurd (ne refl)
put-Elsewhere q bid p xs bid r (inr (same, ne)) = ground arith
put-Elsewhere q bid p xs ask r h = refl
put-Elsewhere q ask p xs bid r h = refl
put-Elsewhere q ask p xs ask r (inl ne) = absurd (ne refl)
put-Elsewhere q ask p xs ask r (inr (same, ne)) = ground arith

-- A level holds this queue of orders of its own side and price.
abbrev pub LevelOf : {M : Type 0} → OrderBook M → Arena → Side → ℕ → List Entry → Type 0
LevelOf b a s p xs = (l : PriceLevel) × (level_at b s p ≡ ok l) × Queue a l xs × Placed s p xs

pub record Represents {M : Type 0} (b : OrderBook M) (a : Arena) (q : Queues) : Type 0 where
  pub level : (s : Side) (p : ℕ) → LevelOf b a s p (q s p)
  pub sorted : SparseSorted b
  pub slots : FreeList a

-- An order of another place is in no slot of a queue.
NotIn-Elsewhere :
    (a : Arena) (i : ArenaIndex) (o : Order) (s : Side) (p : ℕ) (t : Side) (r : ℕ)
    (prev : ArenaIndex) (xs : List Entry) (next : ArenaIndex)
    → Arena.get a i ≡ ok o
    → o.side ≡ s
    → o.price ≡ p
    → Elsewhere s p t r
    → Segment a prev xs next
    → Placed t r xs
    → NotIn i xs
NotIn-Elsewhere a i o s p t r prev [] next at side price other seg placed = tt
NotIn-Elsewhere a i o s p t r prev (x ∷ xs) next at side price other (link, out, rest)
      (side', price', placed) =
    (λ e. clash e link, NotIn-Elsewhere a i o s p t r x.0 xs next at side price other rest placed)
  where
    clash : i ≡ x.0 → Linked a prev x (first xs next) → ⊥
    clash e (inside, (o', at', before, after, left)) =
        let both : ok o ≡ ok o' = sym at ∙ ap (Arena.get a) e ∙ at' in
        let same : o ≡ o' = cc in
        let st : s ≡ t =
          sym side ∙ ap (λ (o : Order). o.side) same ∙ ap (λ (o : Order). o.side) left ∙ side' in
        let pr : p ≡ r =
          sym price
          ∙ ap (λ (o : Order). o.price) same
          ∙ ap (λ (o : Order). o.price) left
          ∙ price' in
        elim other [ inl ne ↦ ne st | inr (_, ne) ↦ ne pr ]

pub Apart-Elsewhere :
    (a : Arena) (s : Side) (p : ℕ) (t : Side) (r : ℕ) (prev : ArenaIndex) (zs : List Entry)
    (next : ArenaIndex) (prev' : ArenaIndex) (xs : List Entry) (next' : ArenaIndex)
    → Elsewhere s p t r
    → Segment a prev zs next
    → Placed s p zs
    → Segment a prev' xs next'
    → Placed t r xs
    → Apart zs xs
Apart-Elsewhere a s p t r prev [] next prev' xs next' other seg placed seg' placed' = tt
Apart-Elsewhere a s p t r prev (z ∷ zs) next prev' xs next' other
      ((inside, (o, at, before, after, left)), out, rest) (side, price, placed) seg' placed' =
    (
      NotIn-Elsewhere a z.0 o s p t r prev' xs next' at (ap (λ (o : Order). o.side) left ∙ side)
          (ap (λ (o : Order). o.price) left ∙ price) other seg' placed',
      Apart-Elsewhere a s p t r z.0 zs next prev' xs next' other rest placed seg' placed',
    )

panics : {A : Type 0} {x : A} → panic ≡ ok x → ⊥
panics h = cc

-- A free slot is in no queue.
pub NotIn-free :
    (a : Arena) (i prev : ArenaIndex) (xs : List Entry) (next : ArenaIndex)
    → Arena.get a i ≡ panic
    → Segment a prev xs next
    → NotIn i xs
NotIn-free a i prev [] next dead seg = tt
NotIn-free a i prev (x ∷ xs) next dead ((inside, (o, at, before, after, left)), out, rest) = (
  λ e. absurd (panics (sym dead ∙ ap (Arena.get a) e ∙ at)),
  NotIn-free a i x.0 xs next dead rest,
)

-- What happens in the slots of one queue leaves another.
pub Segment-outside :
    (a b : Arena) (prev : ArenaIndex) (zs : List Entry) (next : ArenaIndex) (xs : List Entry)
    → SameOutside xs a b
    → Apart zs xs
    → Segment a prev zs next
    → Segment b prev zs next
Segment-outside a b prev [] next xs same apart seg = tt
Segment-outside a b prev (z ∷ zs) next xs same apart
      ((inside, (o, at, before, after, left)), out, rest) =
    (
      (inside, (o, same z.0 apart.0 ∙ at, before, after, left)),
      out,
      Segment-outside a b z.0 zs next xs same apart.1 rest,
    )

module _ {M : Type 0} where
  -- What a book reads at its levels after a level is set and other fields have changed.
  pub level_at_written :
      (b c : OrderBook M) (s : Side) (p : ℕ) (old l : PriceLevel)
      → level_at b s p ≡ ok old
      → LevelsKept (set_level b s p l) c
      → level_at c s p ≡ ok l
  level_at_written b c s p old l read kept =
      level_at-LevelsKept (set_level b s p l) c s p kept ∙ level_at-set_level b s p old l read

  pub level_at_unwritten :
      (b c : OrderBook M) (s : Side) (p : ℕ) (l : PriceLevel) (t : Side) (r : ℕ)
      → LevelsKept (set_level b s p l) c
      → Elsewhere s p t r
      → level_at c t r ≡ level_at b t r
  level_at_unwritten b c s p l t r kept (inl ne) =
      level_at-LevelsKept (set_level b s p l) c t r kept ∙ level_at-set_level_side b s t p r l ne
  level_at_unwritten b c s p l t r kept (inr (same, ne)) =
      level_at-LevelsKept (set_level b s p l) c t r kept
      ∙ subst (λ t. level_at (set_level b s p l) t r ≡ level_at b t r) same
          (level_at-set_level_ne b s p r l ne)

-- Another level, which the book still reads and whose slots have not changed.
LevelOf-elsewhere :
    {M : Type 0} (b c : OrderBook M) (a a' : Arena) (t : Side) (r : ℕ) (zs : List Entry)
    → LevelOf b a t r zs
    → level_at c t r ≡ level_at b t r
    → (Segment a arena_null zs arena_null → Segment a' arena_null zs arena_null)
    → LevelOf c a' t r zs
LevelOf-elsewhere b c a a' t r zs (l, read, queue, placed) same keep = (
  l,
  same ∙ read,
  record {
    segment = keep queue.segment;
    head = queue.head;
    tail = queue.tail;
    count = queue.count;
    quantity = queue.quantity;
  },
  placed,
)

-- One level changes, the others are as before.
pub Represents_put :
    {M : Type 0} (b c : OrderBook M) (a a' : Arena) (q : Queues) (s : Side) (p : ℕ)
    (xs : List Entry)
    → Represents b a q
    → LevelOf c a' s p xs
    → ((t : Side) (r : ℕ) → Elsewhere s p t r → level_at c t r ≡ level_at b t r)
    → ((t : Side) (r : ℕ)
        → Elsewhere s p t r
        → Segment a arena_null (q t r) arena_null
        → Segment a' arena_null (q t r) arena_null)
    → SparseSorted c
    → FreeList a'
    → Represents c a' (put q s p xs)
Represents_put b c a a' q s p xs v here reads keeps sorted slots = record {
  level = λ t r. elim (place_cases s p t r) [
    | inl (st, pr) ↦
        subst (λ t. LevelOf c a' t r (put q s p xs t r)) st
          (subst (λ r. LevelOf c a' s r (put q s p xs s r)) pr
            (subst (LevelOf c a' s p) (sym (put_self q s p xs)) here))
    | inr other ↦
        subst (LevelOf c a' t r) (sym (put-Elsewhere q s p xs t r other))
          (LevelOf-elsewhere b c a a' t r (q t r) (v.level t r) (reads t r other) (keeps t r other))
  ];
  sorted = sorted;
  slots = slots;
}
