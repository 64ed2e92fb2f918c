-- ===== src/Book/Queue.antt =====
-- The queue of a price level: the list of its orders with their slots, which the links of the orders,
-- the ends of the level and its totals stand for.
pub mod Links
pub mod Operations
use match_x.Base.{
  ℕ, suc, ◌+◌, ◌≡◌, ◌≢◌, refl, ap, sym, ◌∙◌, List, [], ◌∷◌, ◌++◌, length, Exec, ok, panic, arith,
  inl, inr,
}
use match_x.Types.{ArenaIndex, Order, Side, PriceLevel, arena_null, remaining}
use match_x.Arena
use match_x.Arena.{Arena}
use match_x.Book.Remove.{link}

-- An order without its links.
abbrev pub plain : Order → Order
plain o = record o { prev = arena_null; next = arena_null }

-- A slot and its order.
abbrev pub Entry : Type 0
Entry = ArenaIndex × Order

abbrev pub first : List Entry → ArenaIndex → ArenaIndex
first [] i = i
first (x ∷ xs) i = x.0

abbrev pub last : ArenaIndex → List Entry → ArenaIndex
last i [] = i
last i (x ∷ xs) = last x.0 xs

abbrev pub NotIn : ArenaIndex → List Entry → Type 0
NotIn i [] = Unit {0}
NotIn i (x ∷ xs) = (i ≢ x.0) × NotIn i xs

-- The order of an entry, with its links.
abbrev pub Linked : Arena → ArenaIndex → Entry → ArenaIndex → Type 0
Linked a prev x next =
    (x.0 ≢ arena_null)
    × ((o : Order) × (Arena.get a x.0 ≡ ok o) × (o.prev ≡ prev) × (o.next ≡ next) × (plain o ≡ x.1))

-- A part of a queue, between the slots `prev` and `next`.
abbrev pub Segment : Arena → ArenaIndex → List Entry → ArenaIndex → Type 0
Segment a prev [] next = Unit {0}
Segment a prev (x ∷ xs) next =
    Linked a prev x (first xs next) × NotIn x.0 xs × Segment a x.0 xs next

abbrev pub total : List Entry → ℕ
total [] = 0
total (x ∷ xs) = remaining x.1 + total xs

pub record Queue (a : Arena) (level : PriceLevel) (xs : List Entry) : Type 0 where
  pub segment : Segment a arena_null xs arena_null
  pub head : level.head ≡ link (first xs arena_null)
  pub tail : level.tail ≡ link (last arena_null xs)
  pub count : level.order_count ≡ length xs
  pub quantity : level.total_quantity ≡ total xs

-- All orders have this side and price.
abbrev pub Placed : Side → ℕ → List Entry → Type 0
Placed s p [] = Unit {0}
Placed s p (x ∷ xs) = (x.1.side ≡ s) × (x.1.price ≡ p) × Placed s p xs

pub total-append : (xs ys : List Entry) → total (xs ++ ys) ≡ total xs + total ys
total-append [] ys = omega arith
total-append (x ∷ xs) ys = omega (arith, total-append xs ys)

pub Placed-append :
    (s : Side) (p : ℕ) (xs ys : List Entry) → Placed s p xs → Placed s p ys → Placed s p (xs ++ ys)
Placed-append s p [] ys h k = k
Placed-append s p (x ∷ xs) ys h k = (h.0, h.1, Placed-append s p xs ys h.2 k)
