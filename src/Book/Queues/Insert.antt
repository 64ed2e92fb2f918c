-- ===== src/Book/Queues/Insert.antt =====
-- `insert_order` appends to the queue of its side and price.
use match_x.Base.{
  ℕ, ◌+◌, ◌≡◌, refl, ap, sym, ◌∙◌, subst, inl, inr, [], ◌∷◌, ◌++◌, Option, none, some, Option-cases,
  Exec, ok, ◌>>=◌, bind_ok, ok_one, ok_three, add64_sum, add32_sum, add64, add32, arith,
}
use match_x.Types.{Side, ArenaIndex, PriceLevel, arena_null, remaining}
use match_x.Arena
use match_x.Arena.{Arena}
use match_x.Arena.FreeList.{FreeList}
use match_x.Arena.FreeList.Given.{alloc-Given}
use match_x.Arena.FreeList.Updates.{FreeList-alloc}
use match_x.Arena.FreeList.Slots.{alloc-slot}
use match_x.Book.State.{OrderBook, IndexMap, level_at, set_level, depth_add}
use match_x.Book.Insert.{
  NewEntry, order_of, link_tail, improve_best, mark_occupied, place_order, insert_order,
}
use match_x.Book.Levels.{
  LevelsKept, LevelsKept-both, LevelsKept-depth_add, LevelsKept-mark_occupied,
  LevelsKept-improve_best, level_at-LevelsKept, SparseSorted-LevelsKept, SparseSorted-set_level,
}
use match_x.Book.Queue.{NotIn, Segment, Placed-append}
use match_x.Book.Queue.Links.{Apart-append, Segment-same}
use match_x.Book.Queues.{
  Queues, put, Elsewhere-back, Represents, Apart-Elsewhere, NotIn-free, Segment-outside,
  level_at_written, level_at_unwritten, Represents_put,
}
use match_x.Book.Queues.Append.{no_slot, some_here, FreeList-link_tail, Queue-link_tail}

module _ {M : Type 0} ⦃map : IndexMap M⦄ where
  abbrev after_alloc :
      OrderBook M
      → NewEntry
      → Arena
      → Option ArenaIndex
      → Exec (OrderBook M × Arena × Option ArenaIndex)
  after_alloc b e a none = ok (b, a, none)
  after_alloc b e a (some i) = place_order b e a i

  insert_vacant :
      (b : OrderBook M) (e : NewEntry) (a : Arena)
      → map.get b.order_index e.id ≡ none
      → (Arena.alloc a (order_of e) >>= λ r. after_alloc b e r.0 r.1) ≡ insert_order b e a
  unfolding insert_order
  insert_vacant b e a vacant = rw (vacant, insert_order) refl

  after_alloc_parts :
      (b c : OrderBook M) (e : NewEntry) (a a' : Arena) (i : ArenaIndex) (slot : Option ArenaIndex)
      → after_alloc b e a slot ≡ ok (c, a', some i)
      → (j : ArenaIndex) × (slot ≡ some j) × (place_order b e a j ≡ ok (c, a', some i))
  after_alloc_parts b c e a a' i none h = cc
  after_alloc_parts b c e a a' i (some j) h = (j, refl, h)

  insert_parts :
      (b c : OrderBook M) (e : NewEntry) (a a' : Arena) (i : ArenaIndex)
      → insert_order b e a ≡ ok (c, a', some i)
      → (a1 : Arena) × (j : ArenaIndex) × (Arena.alloc a (order_of e) ≡ ok (a1, some j))
        × (place_order b e a1 j ≡ ok (c, a', some i))
  unfolding insert_order
  insert_parts b c e a a' i h = elim (Option-cases (map.get b.order_index e.id)) [
    | inr (k, taken) ↦ absurd (ground arith)
    | inl vacant ↦
        let (r, given, later) : (r : Arena × Option ArenaIndex) × (Arena.alloc a (order_of e)
              ≡ ok r)
            × (after_alloc b e r.0 r.1 ≡ ok (c, a', some i)) =
          bind_ok (Arena.alloc a (order_of e)) (λ r. after_alloc b e r.0 r.1)
            (insert_vacant b e a vacant ∙ h) in
        let (j, slot, placed) = after_alloc_parts b c e r.0 a' i r.1 later in
        (r.0, j, given ∙ ap (λ (s : Option ArenaIndex). ok (r.0, s)) slot, placed)
  ]

  -- the steps of `place_order`
  place_parts :
      (b c : OrderBook M) (e : NewEntry) (a a' : Arena) (slot : Option ArenaIndex) (j : ArenaIndex)
      → place_order b e a j ≡ ok (c, a', slot)
      → (b0 : OrderBook M) × (level : PriceLevel) × (l : PriceLevel) × (n : ℕ) × (k : ℕ)
        × LevelsKept b b0
        × (level_at b0 e.side e.price ≡ ok level)
        × (link_tail a level j ≡ ok (a', l))
        × (n ≡ l.total_quantity + e.qty)
        × (k ≡ l.order_count + 1)
        × LevelsKept
            (set_level b0 e.side e.price (record l { total_quantity = n; order_count = k }))
            c
        × (some j ≡ slot)
  unfolding place_order
  place_parts b c e a a' slot j h =
      let b0 : OrderBook M = record b { order_index = map.insert b.order_index e.id j } in
      let (level, read, h1) = bind_ok (level_at b0 e.side e.price) _ h in
      let (r, linked, h2) = bind_ok (link_tail a level j) _ h1 in
      let (n, more, h3) = bind_ok (add64 r.1.total_quantity e.qty) _ h2 in
      let (k, one, h4) = bind_ok (add32 r.1.order_count 1) _ h3 in
      let b1 = set_level b0 e.side e.price (record r.1 { total_quantity = n; order_count = k }) in
      let (b2, deep, h5) = bind_ok (depth_add b1 e.side e.price e.qty) _ h4 in
      let (b3, marked, h6) = bind_ok (mark_occupied b2 e.side e.price) _ h5 in
      let (book, arena, given) =
        ok_three (improve_best b3 e.side e.price) c r.0 a' (some j) slot h6 in
      (
        b0,
        level,
        r.1,
        n,
        k,
        record {
          bids_dense = refl;
          asks_dense = refl;
          base = refl;
          ticks = refl;
          bids_sparse = refl;
          asks_sparse = refl;
        },
        read,
        linked ∙ ap (λ x. ok (x, r.1)) arena,
        add64_sum r.1.total_quantity e.qty n more,
        add32_sum r.1.order_count 1 k one,
        subst (LevelsKept b1) book (
            LevelsKept-both b1 b3 (improve_best b3 e.side e.price)
              (LevelsKept-both b1 b2 b3 (LevelsKept-depth_add b1 b2 e.side e.price e.qty deep)
                (LevelsKept-mark_occupied b2 b3 e.side e.price marked))
              (LevelsKept-improve_best b3 e.side e.price)),
        given,
      )

  -- An order that is not inserted changes nothing.
  pub insert_order-none :
      (b c : OrderBook M) (e : NewEntry) (a a' : Arena)
      → FreeList a
      → insert_order b e a ≡ ok (c, a', none)
      → (c ≡ b) × (a' ≡ a)
  unfolding insert_order
  insert_order-none b c e a a' v h = elim (Option-cases (map.get b.order_index e.id)) [
    | inr (k, taken) ↦ (ground arith, ground arith)
    | inl vacant ↦
        let (r, given, later) : (r : Arena × Option ArenaIndex) × (Arena.alloc a (order_of e)
              ≡ ok r)
            × (after_alloc b e r.0 r.1 ≡ ok (c, a', none)) =
          bind_ok (Arena.alloc a (order_of e)) (λ r. after_alloc b e r.0 r.1)
            (insert_vacant b e a vacant ∙ h) in
        elim (Option-cases r.1) [
          | inl full ↦
              let (book, arena, _) =
                ok_three b c r.0 a' none none (sym (ap (after_alloc b e r.0) full) ∙ later) in
              let (_, same) =
                alloc-Given a r.0 (order_of e) none
                  (given ∙ ap (λ (s : Option ArenaIndex). ok (r.0, s)) full) v in
              (sym book, sym arena ∙ same)
          | inr (j, slot) ↦ absurd (
              no_slot j
                (place_parts b c e r.0 a' none j (sym (ap (after_alloc b e r.0) slot) ∙ later)).11)
        ]
  ]

  -- When book and arena stand for a queue of orders for each side and price (linked from head to
  -- tail, with the totals of its level, the free slots of the arena linked), and `insert_order`
  -- returns a slot, the new book and arena stand for the same queues with the new order last in
  -- the queue of its side and price.
  pub insert_order-Represents :
      (b c : OrderBook M) (e : NewEntry) (a a' : Arena) (q : Queues) (i : ArenaIndex)
      → Represents b a q
      → insert_order b e a ≡ ok (c, a', some i)
      → Represents c a' (put q e.side e.price (q e.side e.price ++ (i, order_of e) ∷ []))
  unfolding order_of remaining
  insert_order-Represents b c e a a' q i v h =
      let (a1, j, given, placed) = insert_parts b c e a a' i h in
      let (b0, level, l, n, k, kept0, read, linked, more, one, kept, slot) =
        place_parts b c e a1 a' (some i) j placed in
      let (l0, read0, queue, here) = v.level e.side e.price in
      let (inside, dead, now, others) = alloc-slot a a1 (order_of e) j given v.slots in
      let fresh : (t : Side) (r : ℕ) → NotIn j (q t r) =
        λ t r. NotIn-free a j arena_null (q t r) arena_null dead (v.level t r).2.segment in
      let seg : (t : Side) (r : ℕ) → Segment a1 arena_null (q t r) arena_null = λ t r.
        Segment-same a a1 j arena_null (q t r) arena_null others (fresh t r)
          (v.level t r).2.segment in
      let s = e.side in
      let p = e.price in
      let xs = q s p in
      let ys = xs ++ (j, order_of e) ∷ [] in
      let lv : PriceLevel = record l { total_quantity = n; order_count = k } in
      let same_level : level ≡ l0 =
        ok_one level l0 (sym read ∙ level_at-LevelsKept b b0 s p kept0 ∙ read0) in
      let (queue', outside) =
        Queue-link_tail a1 a' l0 l xs j (order_of e) n k
          (record {
            segment = seg s p;
            head = queue.head;
            tail = queue.tail;
            count = queue.count;
            quantity = queue.quantity;
          })
          inside (fresh s p) now (ap (λ x. link_tail a1 x j) (sym same_level) ∙ linked)
          (omega (arith, more)) one in
      subst (λ i. Represents c a' (put q s p (xs ++ (i, order_of e) ∷ []))) (some_here j i slot)
        (Represents_put b c a a' q s p ys v
          (
            lv,
            level_at_written b0 c s p level lv read kept,
            queue',
            Placed-append s p xs ((j, order_of e) ∷ []) here (refl, refl, tt),
          )
          (λ t r other.
            level_at_unwritten b0 c s p lv t r kept other ∙ level_at-LevelsKept b b0 t r kept0)
          (λ t r other _.
            Segment-outside a1 a' arena_null (q t r) arena_null ys outside
              (Apart-append (q t r) xs j (order_of e)
                (Apart-Elsewhere a t r s p arena_null (q t r) arena_null arena_null xs arena_null
                  (Elsewhere-back s p t r other) (v.level t r).2.segment (v.level t r).3
                  queue.segment here)
                (fresh t r))
              (seg t r))
          (SparseSorted-LevelsKept (set_level b0 s p lv) c kept
            (SparseSorted-set_level b0 s p lv (SparseSorted-LevelsKept b b0 kept0 v.sorted)))
          (FreeList-link_tail a1 a' level l j linked
            (FreeList-alloc a a1 (order_of e) j given v.slots)))
