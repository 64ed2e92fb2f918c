-- ===== src/Book/Queues/Remove.antt =====
-- `remove_order` takes an order out of the queue of its side and price.
use match_x.Base.{
  ℕ, ◌+◌, ◌≡◌, ap, sym, ◌∙◌, subst, Bool, List, ◌∷◌, ◌++◌, Exec, ok, ◌>>=◌, bind_ok, ok_one,
  ok_four, sub64, sub64_sum,
}
use match_x.Types.{Side, Order, ArenaIndex, PriceLevel, arena_null, remaining}
use match_x.Arena
use match_x.Arena.{Arena}
use match_x.Arena.FreeList.Updates.{FreeList-free}
use match_x.Arena.FreeList.Slots.{free-SameBut}
use match_x.Book.State.{OrderBook, IndexMap, level_at, set_level, depth_remove, level_is_empty}
use match_x.Book.Remove.{unlink, remove_order}
use match_x.Book.Levels.{
  LevelsKept, LevelsKept-depth_remove, SparseSorted-LevelsKept, SparseSorted-set_level,
}
use match_x.Book.Queue.{Entry, plain, first, last, Queue, Placed}
use match_x.Book.Queue.Links.{Segment-same}
use match_x.Book.Queues.{
  Queues, put, Elsewhere-back, Represents, Apart-Elsewhere, Segment-outside, level_at_written,
  level_at_unwritten, Represents_put,
}
use match_x.Book.Queues.Unlink.{
  FreeList-unlink, Queue-unlink, middle, Apart-middle, Placed-middle, Queue-pruned,
}
use match_x.Book.Queues.Settle.{settle, settle-level, settle-Elsewhere, settle-SparseSorted}

module _ {M : Type 0} ⦃map : IndexMap M⦄ where
  -- the steps of `remove_order` from the new totals on
  abbrev after_unlink :
      OrderBook M → ArenaIndex → Order → Arena → PriceLevel → Exec (OrderBook M × Arena × Side × ℕ)
  after_unlink b i o a l = do
    n ← sub64 l.total_quantity (remaining o)
    k ← sub64 l.order_count 1
    b ←
        depth_remove (set_level b o.side o.price (record l { total_quantity = n; order_count = k }))
          o.side o.price (remaining o)
    let b = record b { order_index = map.remove b.order_index o.id }
    a ← Arena.free a i
    gone ← level_is_empty b o.side o.price
    b ← settle b o.side o.price gone
    ok (b, a, o.side, o.price)

  abbrev Removed :
      OrderBook M
      → OrderBook M
      → ArenaIndex
      → Order
      → Arena
      → Arena
      → PriceLevel
      → Side
      → ℕ
      → Type 0
  Removed b c i o a a' l s p =
      (n : ℕ) × (k : ℕ) × (b1 : OrderBook M) × (gone : Bool) × (n + remaining o ≡ l.total_quantity)
      × (k + 1 ≡ l.order_count)
      × LevelsKept (set_level b o.side o.price (record l { total_quantity = n; order_count = k }))
          b1
      × (Arena.free a i ≡ ok a')
      × (settle b1 o.side o.price gone ≡ ok c)
      × (o.side ≡ s)
      × (o.price ≡ p)

  after_unlink_parts :
      (b c : OrderBook M) (i : ArenaIndex) (o : Order) (a a' : Arena) (l : PriceLevel) (s : Side)
      (p : ℕ)
      → after_unlink b i o a l ≡ ok (c, a', s, p)
      → Removed b c i o a a' l s p
  after_unlink_parts b c i o a a' l s p h =
      let (n, less, h4) = bind_ok (sub64 l.total_quantity (remaining o)) _ h in
      let (k, one, h5) = bind_ok (sub64 l.order_count 1) _ h4 in
      let b0 = set_level b o.side o.price (record l { total_quantity = n; order_count = k }) in
      let (b1, deep, h6) = bind_ok (depth_remove b0 o.side o.price (remaining o)) _ h5 in
      let b2 : OrderBook M = record b1 { order_index = map.remove b1.order_index o.id } in
      let (a2, freed, h7) = bind_ok (Arena.free a i) _ h6 in
      let (gone, seen, h8) = bind_ok (level_is_empty b2 o.side o.price) _ h7 in
      let (b3, settled, h9) = bind_ok (settle b2 o.side o.price gone) _ h8 in
      let (book, arena, side, price) = ok_four b3 c a2 a' o.side s o.price p h9 in
      let kept = LevelsKept-depth_remove b0 b1 o.side o.price (remaining o) deep in
      (
        n,
        k,
        b2,
        gone,
        sub64_sum l.total_quantity (remaining o) n less,
        sub64_sum l.order_count 1 k one,
        record {
          bids_dense = kept.bids_dense;
          asks_dense = kept.asks_dense;
          base = kept.base;
          ticks = kept.ticks;
          bids_sparse = kept.bids_sparse;
          asks_sparse = kept.asks_sparse;
        },
        freed ∙ ap (λ a. ok a) arena,
        settled ∙ ap (λ b. ok b) book,
        side,
        price,
      )

  remove_parts :
      (b c : OrderBook M) (i : ArenaIndex) (a a' : Arena) (s : Side) (p : ℕ)
      → remove_order b i a ≡ ok (c, a', s, p)
      → (o : Order) × (level : PriceLevel) × (a1 : Arena) × (l : PriceLevel) × (Arena.get a i
          ≡ ok o)
        × (level_at b o.side o.price ≡ ok level)
        × (unlink a level o.prev o.next ≡ ok (a1, l))
        × Removed b c i o a1 a' l s p
  unfolding remove_order
  remove_parts b c i a a' s p h =
      let (o, read, h1) = bind_ok (Arena.get a i) _ h in
      let (level, here, h2) = bind_ok (level_at b o.side o.price) _ h1 in
      let (u, unlinked, h3) = bind_ok (unlink a level o.prev o.next) _ h2 in
      (o, level, u.0, u.1, read, here, unlinked, after_unlink_parts b c i o u.0 a' u.1 s p h3)

  remove_place :
      (b c : OrderBook M) (i : ArenaIndex) (a a1 a' : Arena) (q : Queues) (r : Order) (s' : Side)
      (p' : ℕ) (level l : PriceLevel) (xs : List Entry) (o : Order) (ys : List Entry)
      → Represents b a q
      → q r.side r.price ≡ xs ++ (i, o) ∷ ys
      → Arena.get a i ≡ ok r
      → level_at b r.side r.price ≡ ok level
      → unlink a level r.prev r.next ≡ ok (a1, l)
      → Removed b c i r a1 a' l s' p'
      → Represents c a' (put q r.side r.price (xs ++ ys))
  unfolding remaining
  remove_place b c i a a1 a' q r s' p' level l xs o ys v at found here unlinked
        (n, k, b1, gone, less, one, kept, freed, settled, side', price') =
      let s = r.side in
      let p = r.price in
      let (l0, read0, queue0, placed0) = v.level s p in
      let queue : Queue a l0 (xs ++ (i, o) ∷ ys) = subst (Queue a l0) at queue0 in
      let (r', found', before, after, same, out) = middle a xs i o ys queue.segment in
      let same_order : r ≡ r' = ok_one r r' (sym found ∙ found') in
      let same_level : level ≡ l0 = ok_one level l0 (sym here ∙ read0) in
      let left : plain r ≡ o = ap (λ (r : Order). plain r) same_order ∙ same in
      let run : unlink a l0 (last arena_null xs) (first ys arena_null) ≡ ok (a1, l) =
        sym (
          ap (λ (r : Order). unlink a l0 r.prev r.next) same_order
          ∙ ap (λ i. unlink a l0 i r'.next) before
          ∙ ap (unlink a l0 (last arena_null xs)) after)
        ∙ ap (λ l. unlink a l r.prev r.next) (sym same_level)
        ∙ unlinked in
      let lv : PriceLevel = record l { total_quantity = n; order_count = k } in
      let (queue1, outside) =
        Queue-unlink a a1 l0 l xs i o ys n k queue run
          (ap (λ (r : Order). n + remaining r) (sym left) ∙ less) one in
      let others = free-SameBut a1 a' i freed in
      let queue2 : Queue a' lv (xs ++ ys) = record {
        segment = Segment-same a1 a' i arena_null (xs ++ ys) arena_null others out queue1.segment;
        head = queue1.head;
        tail = queue1.tail;
        count = queue1.count;
        quantity = queue1.quantity;
      } in
      let b0 = set_level b s p lv in
      let sorted = SparseSorted-LevelsKept b0 b1 kept (SparseSorted-set_level b s p lv v.sorted) in
      let (m, read, cases) =
        settle-level b1 c s p gone lv settled sorted
          (level_at_written b b1 s p level lv here kept) in
      Represents_put b c a a' q s p (xs ++ ys) v
        (
          m,
          read,
          Queue-pruned a' lv m (xs ++ ys) queue2 cases,
          (Placed-middle s p xs i o ys (subst (Placed s p) at placed0)).2,
        )
        (λ t r other.
          settle-Elsewhere b1 c s p gone t r settled other
          ∙ level_at_unwritten b b1 s p lv t r kept other)
        (λ t r other seg.
          let (apart, not_here) = Apart-middle (q t r) xs i o ys (
            Apart-Elsewhere a t r s p arena_null (q t r) arena_null arena_null (xs ++ (i, o) ∷ ys)
              arena_null (Elsewhere-back s p t r other) seg (v.level t r).3 queue.segment
              (subst (Placed s p) at placed0)) in
          Segment-same a1 a' i arena_null (q t r) arena_null others not_here
            (Segment-outside a a1 arena_null (q t r) arena_null (xs ++ ys) outside apart seg))
        (settle-SparseSorted b1 c s p gone settled sorted)
        (FreeList-free a1 a' i freed (FreeList-unlink a a1 level l r.prev r.next unlinked v.slots))

  -- When book and arena stand for queues of orders, the order of a slot is anywhere in the queue
  -- of a side and price, and `remove_order` of the slot returns, the new book and arena stand for
  -- the same queues without that order, the others of its queue in their order, and the side and
  -- the price returned are those of the queue.
  pub remove_order-Represents :
      (b c : OrderBook M) (i : ArenaIndex) (a a' : Arena) (q : Queues) (s s' : Side) (p p' : ℕ)
      (xs : List Entry) (o : Order) (ys : List Entry)
      → Represents b a q
      → q s p ≡ xs ++ (i, o) ∷ ys
      → remove_order b i a ≡ ok (c, a', s', p')
      → Represents c a' (put q s p (xs ++ ys)) × (s' ≡ s) × (p' ≡ p)
  remove_order-Represents b c i a a' q s s' p p' xs o ys v at h =
      let (l0, read0, queue0, placed0) = v.level s p in
      let queue : Queue a l0 (xs ++ (i, o) ∷ ys) = subst (Queue a l0) at queue0 in
      let placed : Placed s p (xs ++ (i, o) ∷ ys) = subst (Placed s p) at placed0 in
      let (r, found, before, after, same, out) = middle a xs i o ys queue.segment in
      let (side, price, placed') = Placed-middle s p xs i o ys placed in
      let (r', level, a1, l, found', here, unlinked, removed) = remove_parts b c i a a' s' p' h in
      let left : plain r' ≡ o =
        ap (λ (r : Order). plain r) (ok_one r' r (sym found' ∙ found)) ∙ same in
      let at_side : r'.side ≡ s = ap (λ (o : Order). o.side) left ∙ side in
      let at_price : r'.price ≡ p = ap (λ (o : Order). o.price) left ∙ price in
      (
        subst (λ p. Represents c a' (put q s p (xs ++ ys))) at_price
            (subst (λ s. Represents c a' (put q s r'.price (xs ++ ys))) at_side
              (remove_place b c i a a1 a' q r' s' p' level l xs o ys v
                (ap (λ s. q s r'.price) at_side ∙ ap (q s) at_price ∙ at) found' here unlinked
                removed)),
        sym removed.9 ∙ at_side,
        sym removed.10 ∙ at_price,
      )
