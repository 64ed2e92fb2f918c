-- ===== src/Book/Queues/Append.antt =====
-- `link_tail` on queues and the free list.
use match_x.Base.{
  ℕ, ◌+◌, ◌≡◌, ◌≢◌, refl, ap, sym, ◌∙◌, subst, inl, inr, List, [], ◌∷◌, ◌++◌, Option, none, some,
  Option-cases, length-append, Exec, ok, ◌>>=◌, bind_ok, ok_two, arith,
}
use match_x.Types.{Order, ArenaIndex, PriceLevel, arena_null, remaining}
use match_x.Arena
use match_x.Arena.{Arena}
use match_x.Arena.FreeList.{FreeList}
use match_x.Arena.FreeList.Updates.{FreeList-get_mut}
use match_x.Book.Insert.{unwrap_or, link_tail}
use match_x.Book.Queue.{Entry, plain, NotIn, Segment, Queue, total-append}
use match_x.Book.Queue.Operations.{SameOutside, link_tail-Strung}

pub no_slot : (i : ArenaIndex) → some i ≡ none → ⊥
no_slot i h = cc

pub some_here : (i j : ArenaIndex) → some i ≡ some j → i ≡ j
some_here i j h = cc

-- `link_tail` only writes to orders.
abbrev link_next :
    (a : Arena) (l : PriceLevel) (i : ArenaIndex) (t : Option ArenaIndex)
    → Exec (Arena × PriceLevel)
link_next a l i none = ok (a, record l { head = some i; tail = some i })
link_next a l i (some t) =
    Arena.get_mut a t (λ o. ok (record o { next = i })) >>= λ b. ok (b, record l { tail = some i })

link_tail_next :
    (a : Arena) (l : PriceLevel) (i : ArenaIndex)
    → (Arena.get_mut a i
          (λ o. ok (record o { prev = unwrap_or l.tail arena_null; next = arena_null }))
        >>= λ b. link_next b l i l.tail)
      ≡ link_tail a l i
unfolding link_tail
link_tail_next a l i = elim (Option-cases l.tail) [
  | inl empty ↦ rw empty refl
  | inr (t, more) ↦ rw more refl
]

FreeList-link_next :
    (a b : Arena) (level l : PriceLevel) (i : ArenaIndex) (t : Option ArenaIndex)
    → link_next a level i t ≡ ok (b, l)
    → FreeList a
    → FreeList b
FreeList-link_next a b level l i none h v = let same : a ≡ b = cc in subst FreeList same v
FreeList-link_next a b level l i (some t) h v =
    let (c, write, rest) = bind_ok (Arena.get_mut a t (λ o. ok (record o { next = i }))) _ h in
    let (same, _) = ok_two c b (record level { tail = some i }) l rest in
    subst FreeList same (FreeList-get_mut a c t (λ o. ok (record o { next = i })) write v)

pub FreeList-link_tail :
    (a b : Arena) (level l : PriceLevel) (i : ArenaIndex)
    → link_tail a level i ≡ ok (b, l)
    → FreeList a
    → FreeList b
FreeList-link_tail a b level l i h v =
    let (c, write, rest) =
      bind_ok
        (Arena.get_mut a i
          (λ o. ok (record o { prev = unwrap_or level.tail arena_null; next = arena_null })))
        (λ c. link_next c level i level.tail) (link_tail_next a level i ∙ h) in
    FreeList-link_next c b level l i level.tail rest (FreeList-get_mut a c i _ write v)

-- `link_tail` and the new totals append an order to the queue.
pub Queue-link_tail :
    (a a' : Arena) (level l : PriceLevel) (xs : List Entry) (i : ArenaIndex) (o : Order) (n k : ℕ)
    → Queue a level xs
    → i ≢ arena_null
    → NotIn i xs
    → Arena.get a i ≡ ok o
    → link_tail a level i ≡ ok (a', l)
    → n ≡ l.total_quantity + remaining o
    → k ≡ l.order_count + 1
    → Queue a' (record l { total_quantity = n; order_count = k }) (xs ++ (i, plain o) ∷ [])
      × SameOutside (xs ++ (i, plain o) ∷ []) a a'
unfolding remaining
Queue-link_tail a a' level l xs i o n k v inside out at linked more one =
    let (a1, l1, run, (seg, head, tail), quantity, count, same) =
      link_tail-Strung a level xs i o (v.segment, v.head, v.tail) inside out at in
    let (arena, lev) = ok_two a1 a' l1 l (sym run ∙ linked) in
    (
      record {
        segment = subst (λ a. Segment a arena_null (xs ++ (i, plain o) ∷ []) arena_null) arena seg;
        head = ap (λ (l : PriceLevel). l.head) (sym lev) ∙ head;
        tail = ap (λ (l : PriceLevel). l.tail) (sym lev) ∙ tail;
        count = omega (
          arith,
          one,
          v.count,
          count,
          ap (λ (l : PriceLevel). l.order_count) lev,
          length-append xs ((i, plain o) ∷ []),
        );
        quantity = omega (
          arith,
          more,
          v.quantity,
          quantity,
          ap (λ (l : PriceLevel). l.total_quantity) lev,
          total-append xs ((i, plain o) ∷ []),
        );
      },
      λ j h. ap (λ a. Arena.get a j) (sym arena) ∙ same j h,
    )
