-- ===== src/Book/Queues/Unlink.antt =====
-- `unlink` on queues and the free list, and what a queue says of an order in the middle of it.
use match_x.Base.{
  ℕ, ◌+◌, ◌≡◌, refl, ap, sym, ◌∙◌, subst, inl, inr, ◌⊎◌, true, List, [], ◌∷◌, ◌++◌, Option, none,
  some, length, length-append, ok, bind_ok, ok_two, arith,
}
use match_x.Types.{
  Side, Order, ArenaIndex, PriceLevel, arena_null, remaining, empty_level, is_empty,
}
use match_x.Arena
use match_x.Arena.{Arena}
use match_x.Arena.FreeList.{FreeList}
use match_x.Arena.FreeList.Updates.{FreeList-get_mut}
use match_x.Book.Remove.{link, link_front, link_back, unlink}
use match_x.Book.Queue.{Entry, plain, first, last, NotIn, Segment, Queue, Placed, total-append}
use match_x.Book.Queue.Links.{NotIn-append, NotIn-both, Apart, first-Apart, Segment-split}
use match_x.Book.Queue.Operations.{SameOutside, unlink-Strung}

-- `unlink` only writes to orders.
FreeList-link_front :
    (a b : Arena) (level l : PriceLevel) (next : ArenaIndex) (p : Option ArenaIndex)
    → link_front a level next p ≡ ok (b, l)
    → FreeList a
    → FreeList b
unfolding link_front
FreeList-link_front a b level l next none h v = let same : a ≡ b = cc in subst FreeList same v
FreeList-link_front a b level l next (some p) h v =
    let (c, write, rest) = bind_ok (Arena.get_mut a p (λ o. ok (record o { next = next }))) _ h in
    let (same, _) = ok_two c b level l rest in
    subst FreeList same (FreeList-get_mut a c p (λ o. ok (record o { next = next })) write v)

FreeList-link_back :
    (a b : Arena) (level l : PriceLevel) (prev : ArenaIndex) (n : Option ArenaIndex)
    → link_back a level prev n ≡ ok (b, l)
    → FreeList a
    → FreeList b
unfolding link_back
FreeList-link_back a b level l prev none h v = let same : a ≡ b = cc in subst FreeList same v
FreeList-link_back a b level l prev (some n) h v =
    let (c, write, rest) = bind_ok (Arena.get_mut a n (λ o. ok (record o { prev = prev }))) _ h in
    let (same, _) = ok_two c b level l rest in
    subst FreeList same (FreeList-get_mut a c n (λ o. ok (record o { prev = prev })) write v)

pub FreeList-unlink :
    (a b : Arena) (level l : PriceLevel) (prev next : ArenaIndex)
    → unlink a level prev next ≡ ok (b, l)
    → FreeList a
    → FreeList b
unfolding unlink
FreeList-unlink a b level l prev next h v =
    let (r, front, rest) = bind_ok (link_front a level next (link prev)) _ h in
    FreeList-link_back r.0 b r.1 l prev (link next) rest
      (FreeList-link_front a r.0 level r.1 next (link prev) front v)

-- `unlink` and the new totals take an order out of the queue.
pub Queue-unlink :
    (a a' : Arena) (level l : PriceLevel) (xs : List Entry) (i : ArenaIndex) (o : Order)
    (ys : List Entry) (n k : ℕ)
    → Queue a level (xs ++ (i, o) ∷ ys)
    → unlink a level (last arena_null xs) (first ys arena_null) ≡ ok (a', l)
    → n + remaining o ≡ l.total_quantity
    → k + 1 ≡ l.order_count
    → Queue a' (record l { total_quantity = n; order_count = k }) (xs ++ ys)
      × SameOutside (xs ++ ys) a a'
Queue-unlink a a' level l xs i o ys n k v unlinked less one =
    let (a1, l1, run, (seg, head, tail), quantity, count, same) =
      unlink-Strung a level xs (i, o) ys (v.segment, v.head, v.tail) in
    let (arena, lev) = ok_two a1 a' l1 l (sym run ∙ unlinked) in
    (
      record {
        segment = subst (λ a. Segment a arena_null (xs ++ ys) arena_null) arena seg;
        head = ap (λ (l : PriceLevel). l.head) (sym lev) ∙ head;
        tail = ap (λ (l : PriceLevel). l.tail) (sym lev) ∙ tail;
        count = omega (
          arith,
          one,
          v.count,
          count,
          ap (λ (l : PriceLevel). l.order_count) lev,
          length-append xs ((i, o) ∷ ys),
          length-append xs ys,
        );
        quantity = omega (
          arith,
          less,
          v.quantity,
          quantity,
          ap (λ (l : PriceLevel). l.total_quantity) lev,
          total-append xs ((i, o) ∷ ys),
          total-append xs ys,
        );
      },
      λ j h. ap (λ a. Arena.get a j) (sym arena) ∙ same j h,
    )

-- An entry in the middle of a queue is its order, with the neighbours as its links.
pub middle :
    (a : Arena) (xs : List Entry) (i : ArenaIndex) (o : Order) (ys : List Entry)
    → Segment a arena_null (xs ++ (i, o) ∷ ys) arena_null
    → (r : Order) × (Arena.get a i ≡ ok r)
      × (r.prev ≡ last arena_null xs)
      × (r.next ≡ first ys arena_null)
      × (plain r ≡ o)
      × NotIn i (xs ++ ys)
middle a xs i o ys seg =
    let (left, ((inside, (r, at, before, after, same)), out, right), apart) =
      Segment-split a arena_null xs ((i, o) ∷ ys) arena_null seg in
    (r, at, before, after, same, NotIn-both i xs ys (first-Apart xs (i, o) ys apart) out)

-- Apart from the whole queue is apart from the entry and from the rest.
pub Apart-middle :
    (zs xs : List Entry) (i : ArenaIndex) (o : Order) (ys : List Entry)
    → Apart zs (xs ++ (i, o) ∷ ys)
    → Apart zs (xs ++ ys) × NotIn i zs
Apart-middle [] xs i o ys h = (tt, tt)
Apart-middle (z ∷ zs) xs i o ys h =
    let (left, right) = NotIn-append z.0 xs ((i, o) ∷ ys) h.0 in
    let (rest, out) = Apart-middle zs xs i o ys h.1 in
    ((NotIn-both z.0 xs ys left right.1, rest), (λ e. right.0 (sym e), out))

pub Placed-middle :
    (s : Side) (p : ℕ) (xs : List Entry) (i : ArenaIndex) (o : Order) (ys : List Entry)
    → Placed s p (xs ++ (i, o) ∷ ys)
    → (o.side ≡ s) × (o.price ≡ p) × Placed s p (xs ++ ys)
Placed-middle s p [] i o ys h = h
Placed-middle s p (x ∷ xs) i o ys h =
    let (side, price, rest) = Placed-middle s p xs i o ys h.2 in (side, price, (h.0, h.1, rest))

length-zero : (xs : List Entry) → length xs ≡ 0 → xs ≡ []
length-zero [] h = refl
length-zero (x ∷ xs) h = absurd (omega (arith, h))

-- A level whose queue is empty may be the empty level.
pub Queue-pruned :
    (a : Arena) (l m : PriceLevel) (xs : List Entry)
    → Queue a l xs
    → (m ≡ l) ⊎ ((is_empty l ≡ true) × (m ≡ empty_level))
    → Queue a m xs
unfolding is_empty
Queue-pruned a l m xs v (inl same) = subst (λ m. Queue a m xs) (sym same) v
Queue-pruned a l m xs v (inr (empty, same)) =
    let none_left : xs ≡ [] = length-zero xs (ground (arith, v.count)) in
    subst (λ xs. Queue a m xs) (sym none_left)
      (subst (λ m. Queue a m []) (sym same)
        (record { segment = tt; head = refl; tail = refl; count = refl; quantity = refl }))
