-- ===== src/Book/Queue/Operations.antt =====
-- `link_tail` appends to the queue of a level, `unlink` takes an order out of it.
use match_x.Base.{◌≡◌, ◌≢◌, refl, ap, sym, ◌∙◌, List, [], ◌∷◌, ◌++◌, none, some, Exec, ok, arith}
use match_x.Types.{ArenaIndex, Order, PriceLevel, arena_null}
use match_x.Arena
use match_x.Arena.{Arena}
use match_x.Book.Insert.{link_tail, unwrap_or}
use match_x.Book.Remove.{link, link_front, link_back, unlink}
use match_x.Book.Queue.{Entry, plain, first, last, NotIn, Segment}
use match_x.Book.Queue.Links.{
  get_mut_present, NotIn-append, last_ne, first-append, last-append, Apart, last-Apart, first-Apart,
  Apart-rest, Segment-same, Segment-split, Segment-join, set_next, Segment-set_next,
  Segment-set_prev,
}

-- The slots outside a queue are those of `a`.
abbrev pub SameOutside : List Entry → Arena → Arena → Type 0
SameOutside xs a b = (j : ArenaIndex) → NotIn j xs → Arena.get b j ≡ Arena.get a j

link_present : (i : ArenaIndex) → i ≢ arena_null → link i ≡ some i
link_present i h = ground arith

-- The queue of a level without its totals.
abbrev Strung : Arena → PriceLevel → List Entry → Type 0
Strung a level xs =
    Segment a arena_null xs arena_null
    × (level.head ≡ link (first xs arena_null))
    × (level.tail ≡ link (last arena_null xs))

last_inside :
    (a : Arena) (prev : ArenaIndex) (x : Entry) (xs : List Entry) (next : ArenaIndex)
    → Segment a prev (x ∷ xs) next
    → last x.0 xs ≢ arena_null
last_inside a prev x [] next s = s.0.0
last_inside a prev x (y ∷ ys) next s = last_inside a x.0 y ys next s.2

-- the write to the order that becomes the last
abbrev make_last : PriceLevel → Order → Exec Order
make_last level o = ok (record o { prev = unwrap_or level.tail arena_null; next = arena_null })

link_tail_empty :
    (a b : Arena) (level : PriceLevel) (i : ArenaIndex)
    → Arena.get_mut a i (make_last level) ≡ ok b
    → level.tail ≡ none
    → link_tail a level i ≡ ok (b, record level { head = some i; tail = some i })
unfolding link_tail
link_tail_empty a b level i run empty = ground arith

link_tail_more :
    (a b c : Arena) (level : PriceLevel) (i t : ArenaIndex)
    → Arena.get_mut a i (make_last level) ≡ ok b
    → level.tail ≡ some t
    → Arena.get_mut b t (set_next i) ≡ ok c
    → link_tail a level i ≡ ok (c, record level { tail = some i })
unfolding link_tail
link_tail_more a b c level i t run more run' = ground arith

Apart-one : (i : ArenaIndex) (q : Order) (xs : List Entry) → NotIn i xs → Apart xs ((i, q) ∷ [])
Apart-one i q [] h = tt
Apart-one i q (x ∷ xs) h = ((λ e. h.0 (sym e), tt), Apart-one i q xs h.1)

pub link_tail-Strung :
    (a : Arena) (level : PriceLevel) (xs : List Entry) (i : ArenaIndex) (o : Order)
    → Strung a level xs
    → i ≢ arena_null
    → NotIn i xs
    → Arena.get a i ≡ ok o
    → (b : Arena) × (l : PriceLevel) × (link_tail a level i ≡ ok (b, l))
      × Strung b l (xs ++ (i, plain o) ∷ [])
      × (l.total_quantity ≡ level.total_quantity)
      × (l.order_count ≡ level.order_count)
      × SameOutside (xs ++ (i, plain o) ∷ []) a b
link_tail-Strung a level [] i o (seg, head, tail) inside out at =
    let none_left : unwrap_or level.tail arena_null ≡ arena_null = rw tail refl in
    let (b, run, now, same) =
      get_mut_present a i (make_last level) o
        (record o { prev = unwrap_or level.tail arena_null; next = arena_null }) at refl in
    (
      b,
      record level { head = some i; tail = some i },
      link_tail_empty a b level i run tail,
      (
        (
          (
            inside,
            (
              record o { prev = unwrap_or level.tail arena_null; next = arena_null },
              now,
              none_left,
              refl,
              refl,
            ),
          ),
          tt,
          tt,
        ),
        sym (link_present i inside),
        sym (link_present i inside),
      ),
      refl,
      refl,
      λ j h. same j (λ e. h.0 (sym e)),
    )
link_tail-Strung a level (x ∷ xs) i o (seg, head, tail) inside out at =
    let t = last x.0 xs in
    let at_tail : level.tail ≡ some t =
      tail ∙ link_present t (last_inside a arena_null x xs arena_null seg) in
    let behind : unwrap_or level.tail arena_null ≡ t = rw at_tail refl in
    let o' : Order = record o { prev = unwrap_or level.tail arena_null; next = arena_null } in
    let (b, run, now, same) = get_mut_present a i (make_last level) o o' at refl in
    let kept = Segment-same a b i arena_null (x ∷ xs) arena_null same out seg in
    let (c, run', same', seg') = Segment-set_next b arena_null x xs arena_null i kept in
    let apart = Apart-one i (plain o) (x ∷ xs) out in
    (
      c,
      record level { tail = some i },
      link_tail_more a b c level i t run at_tail run',
      (
        Segment-join c arena_null (x ∷ xs) ((i, plain o) ∷ []) arena_null seg'
            (
              (inside, (o', same' i (λ e. last_ne i x xs out (sym e)) ∙ now, behind, refl, refl)),
              tt,
              tt,
            )
            apart,
        head,
        sym (link_present i inside)
            ∙ ap link (sym (last-append arena_null (x ∷ xs) ((i, plain o) ∷ []))),
      ),
      refl,
      refl,
      λ j h.
          let (outside, at_end) = NotIn-append j (x ∷ xs) ((i, plain o) ∷ []) h in
          same' j (λ e. last_ne j x xs outside (sym e)) ∙ same j (λ e. at_end.0 (sym e)),
    )

-- The part of a queue before an order, and its head, skip the order.
link_front-Segment :
    (a : Arena) (level : PriceLevel) (xs : List Entry) (x : Entry) (ys : List Entry)
    → Segment a arena_null xs x.0
    → Segment a x.0 ys arena_null
    → Apart xs (x ∷ ys)
    → level.head ≡ link (first xs x.0)
    → (b : Arena) × (l : PriceLevel) × (link_front a level
          (first ys arena_null)
          (link (last arena_null xs))
        ≡ ok (b, l))
      × Segment b arena_null xs (first ys arena_null)
      × Segment b x.0 ys arena_null
      × (l.head ≡ link (first xs (first ys arena_null)))
      × (l.tail ≡ level.tail)
      × (l.total_quantity ≡ level.total_quantity)
      × (l.order_count ≡ level.order_count)
      × SameOutside xs a b
unfolding link_front
link_front-Segment a level [] x ys left right apart head = (
  a,
  record level { head = link (first ys arena_null) },
  refl,
  tt,
  right,
  refl,
  refl,
  refl,
  refl,
  λ j h. refl,
)
link_front-Segment a level (w ∷ ws) x ys left right apart head =
    let p = last w.0 ws in
    let (b, run, same, seg) = Segment-set_next a arena_null w ws x.0 (first ys arena_null) left in
    (
      b,
      level,
      rw (link_present p (last_inside a arena_null w ws x.0 left), run) refl,
      seg,
      Segment-same a b p x.0 ys arena_null same
          (last-Apart w ws ys (Apart-rest (w ∷ ws) x ys apart)) right,
      head,
      refl,
      refl,
      refl,
      λ j h. same j (λ e. last_ne j w ws h (sym e)),
    )

-- The part of a queue behind an order, and its tail, skip the order.
link_back-Segment :
    (a : Arena) (level : PriceLevel) (xs : List Entry) (x : Entry) (ys : List Entry)
    → Segment a arena_null xs (first ys arena_null)
    → Segment a x.0 ys arena_null
    → Apart xs ys
    → level.tail ≡ link (last x.0 ys)
    → (b : Arena) × (l : PriceLevel) × (link_back a level
          (last arena_null xs)
          (link (first ys arena_null))
        ≡ ok (b, l))
      × Segment b arena_null xs (first ys arena_null)
      × Segment b (last arena_null xs) ys arena_null
      × (l.head ≡ level.head)
      × (l.tail ≡ link (last (last arena_null xs) ys))
      × (l.total_quantity ≡ level.total_quantity)
      × (l.order_count ≡ level.order_count)
      × SameOutside ys a b
unfolding link_back
link_back-Segment a level xs x [] left right apart tail = (
  a,
  record level { tail = link (last arena_null xs) },
  refl,
  left,
  tt,
  refl,
  refl,
  refl,
  refl,
  λ j h. refl,
)
link_back-Segment a level xs x (y ∷ ys) left right apart tail =
    let p = last arena_null xs in
    let (b, run, same, seg) = Segment-set_prev a x.0 p y ys arena_null right in
    (
      b,
      level,
      rw (link_present y.0 right.0.0, run) refl,
      Segment-same a b y.0 arena_null xs y.0 same (first-Apart xs y ys apart) left,
      seg,
      refl,
      tail,
      refl,
      refl,
      λ j h. same j (λ e. h.0 (sym e)),
    )

-- What `unlink` leaves of the order's neighbours.
pub unlink-Strung :
    (a : Arena) (level : PriceLevel) (xs : List Entry) (x : Entry) (ys : List Entry)
    → Strung a level (xs ++ x ∷ ys)
    → (b : Arena) × (l : PriceLevel) × (unlink a level (last arena_null xs) (first ys arena_null)
        ≡ ok (b, l))
      × Strung b l (xs ++ ys)
      × (l.total_quantity ≡ level.total_quantity)
      × (l.order_count ≡ level.order_count)
      × SameOutside (xs ++ ys) a b
unfolding unlink
unlink-Strung a level xs x ys (seg, head, tail) =
    let (left, right, apart) = Segment-split a arena_null xs (x ∷ ys) arena_null seg in
    let rest = Apart-rest xs x ys apart in
    let (b, l, run, left', right', head', tail', total, count, same) =
      link_front-Segment a level xs x ys left right.2 apart
        (head ∙ ap link (first-append xs (x ∷ ys) arena_null)) in
    let (c, m, run', left'', right'', head'', tail'', total', count', same') =
      link_back-Segment b l xs x ys left' right' rest
        (tail' ∙ tail ∙ ap link (last-append arena_null xs (x ∷ ys))) in
    (
      c,
      m,
      rw (run, run') refl,
      (
        Segment-join c arena_null xs ys arena_null left'' right'' rest,
        head'' ∙ head' ∙ ap link (sym (first-append xs ys arena_null)),
        tail'' ∙ ap link (sym (last-append arena_null xs ys)),
      ),
      total' ∙ total,
      count' ∙ count,
      λ j h. let (before, behind) = NotIn-append j xs ys h in same' j behind ∙ same j before,
    )
