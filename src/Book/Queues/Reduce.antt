-- ===== src/Book/Queues/Reduce.antt =====
-- `reduce_order_qty` fills an order where it stands in its queue.
use match_x.Base.{
  ℕ, ◌+◌, ◌≤◌, ◌≡◌, ap, sym, ◌∙◌, subst, List, [], ◌∷◌, ◌++◌, length-append, Exec, ok, ◌>>=◌,
  bind_ok, ok_one, ok_two, add64, add64_sum, sub64, sub64_sum, arith,
}
use match_x.Types.{Side, Order, ArenaIndex, PriceLevel, arena_null, remaining}
use match_x.Arena
use match_x.Arena.{Arena}
use match_x.Arena.Access.{get-get_mut}
use match_x.Arena.FreeList.Updates.{FreeList-get_mut}
use match_x.Arena.FreeList.Slots.{SameBut}
use match_x.Book.State.{OrderBook, level_at, set_level, depth_remove}
use match_x.Book.Remove.{link, reduce_order_qty}
use match_x.Book.Levels.{
  LevelsKept, LevelsKept-depth_remove, SparseSorted-LevelsKept, SparseSorted-set_level,
}
use match_x.Book.Queue.{Entry, Segment, Queue, Placed, total-append}
use match_x.Book.Queue.Links.{
  get_mut-SameBut, Apart, first-Apart, first-append, last-append, Segment-same, Segment-split,
  Segment-join,
}
use match_x.Book.Queues.{
  Queues, put, Elsewhere-back, Represents, Apart-Elsewhere, level_at_written, level_at_unwritten,
  Represents_put,
}
use match_x.Book.Queues.Unlink.{middle, Apart-middle, Placed-middle}

abbrev pub fill : ℕ → Order → Order
fill delta o = record o { filled = o.filled + delta }

Apart-filled :
    (xs : List Entry) (i : ArenaIndex) (o o' : Order) (ys : List Entry)
    → Apart xs ((i, o) ∷ ys)
    → Apart xs ((i, o') ∷ ys)
Apart-filled [] i o o' ys h = tt
Apart-filled (x ∷ xs) i o o' ys h = (h.0, Apart-filled xs i o o' ys h.1)

-- A write to an order that keeps its links.
Segment-fill :
    (a b : Arena) (xs : List Entry) (i : ArenaIndex) (o : Order) (ys : List Entry) (delta : ℕ)
    → SameBut i a b
    → ((r : Order) → Arena.get a i ≡ ok r → Arena.get b i ≡ ok (fill delta r))
    → Segment a arena_null (xs ++ (i, o) ∷ ys) arena_null
    → Segment b arena_null (xs ++ (i, fill delta o) ∷ ys) arena_null
Segment-fill a b xs i o ys delta same wrote seg =
    let (left, ((inside, (r, at, before, after, plain_order)), out, right), apart) =
      Segment-split a arena_null xs ((i, o) ∷ ys) arena_null seg in
    Segment-join b arena_null xs ((i, fill delta o) ∷ ys) arena_null
      (Segment-same a b i arena_null xs i same (first-Apart xs (i, o) ys apart) left)
      (
        (
          inside,
          (fill delta r, wrote r at, before, after, ap (λ (o : Order). fill delta o) plain_order),
        ),
        out,
        Segment-same a b i i ys arena_null same out right,
      )
      (Apart-filled xs i o (fill delta o) ys apart)

Placed-fill :
    (s : Side) (p : ℕ) (xs : List Entry) (i : ArenaIndex) (o : Order) (ys : List Entry) (delta : ℕ)
    → Placed s p (xs ++ (i, o) ∷ ys)
    → Placed s p (xs ++ (i, fill delta o) ∷ ys)
Placed-fill s p [] i o ys delta h = h
Placed-fill s p (x ∷ xs) i o ys delta h = (h.0, h.1, Placed-fill s p xs i o ys delta h.2)

-- The new total stands for the filled queue.
Queue-fill :
    (a b : Arena) (l : PriceLevel) (xs : List Entry) (i : ArenaIndex) (o : Order) (ys : List Entry)
    (delta n : ℕ)
    → Queue a l (xs ++ (i, o) ∷ ys)
    → SameBut i a b
    → ((r : Order) → Arena.get a i ≡ ok r → Arena.get b i ≡ ok (fill delta r))
    → delta ≤ remaining o
    → n + delta ≡ l.total_quantity
    → Queue b (record l { total_quantity = n }) (xs ++ (i, fill delta o) ∷ ys)
unfolding remaining
Queue-fill a b l xs i o ys delta n v same wrote fits less = record {
  segment = Segment-fill a b xs i o ys delta same wrote v.segment;
  head =
      v.head
      ∙ ap link (
          first-append xs ((i, o) ∷ ys) arena_null
          ∙ sym (first-append xs ((i, fill delta o) ∷ ys) arena_null));
  tail =
      v.tail
      ∙ ap link (
          last-append arena_null xs ((i, o) ∷ ys)
          ∙ sym (last-append arena_null xs ((i, fill delta o) ∷ ys)));
  count =
      v.count ∙ length-append xs ((i, o) ∷ ys) ∙ sym (length-append xs ((i, fill delta o) ∷ ys));
  quantity = omega (
    arith,
    v.quantity,
    less,
    fits,
    total-append xs ((i, o) ∷ ys),
    total-append xs ((i, fill delta o) ∷ ys),
  );
}

-- the write that `reduce_order_qty` makes
abbrev pub fill_checked : ℕ → Order → Exec Order
fill_checked delta o = do filled ← add64 o.filled delta; ok (record o { filled = filled })

pub wrote_fill :
    (a b : Arena) (i : ArenaIndex) (delta : ℕ) (r : Order)
    → Arena.get_mut a i (fill_checked delta) ≡ ok b
    → Arena.get a i ≡ ok r
    → Arena.get b i ≡ ok (fill delta r)
unfolding Arena.get_mut
wrote_fill a b i delta r h at =
    let (r', at', written) = bind_ok (Arena.get a i) _ h in
    let same = ok_one r' r (sym at' ∙ at) in
    let (o, changed, stored) = bind_ok (fill_checked delta r') _ written in
    let (m, more, whole) = bind_ok (add64 r'.filled delta) _ changed in
    let is_fill : fill_checked delta r' ≡ ok (fill delta r') =
      changed
      ∙ sym whole
      ∙ ap (λ m. ok (record r' { filled = m })) (add64_sum r'.filled delta m more) in
    get-get_mut a b i (fill_checked delta) r (fill delta r) h at
      (subst (λ r. fill_checked delta r ≡ ok (fill delta r)) same is_fill)

module _ {M : Type 0} where
  -- the steps of `reduce_order_qty`
  reduce_parts :
      (b c : OrderBook M) (i : ArenaIndex) (delta : ℕ) (a a' : Arena)
      → reduce_order_qty b i delta a ≡ ok (c, a')
      → (o : Order) × (l : PriceLevel) × (n : ℕ) × (Arena.get_mut a i (fill_checked delta) ≡ ok a')
        × (Arena.get a' i ≡ ok o)
        × (level_at b o.side o.price ≡ ok l)
        × (n + delta ≡ l.total_quantity)
        × LevelsKept (set_level b o.side o.price (record l { total_quantity = n })) c
  unfolding reduce_order_qty
  reduce_parts b c i delta a a' h =
      let (a1, write, h1) = bind_ok (Arena.get_mut a i (fill_checked delta)) _ h in
      let (o, read, h2) = bind_ok (Arena.get a1 i) _ h1 in
      let (l, here, h3) = bind_ok (level_at b o.side o.price) _ h2 in
      let (n, less, h4) = bind_ok (sub64 l.total_quantity delta) _ h3 in
      let b0 = set_level b o.side o.price (record l { total_quantity = n }) in
      let (b1, deep, h5) = bind_ok (depth_remove b0 o.side o.price delta) _ h4 in
      let (book, arena) = ok_two b1 c a1 a' h5 in
      (
        o,
        l,
        n,
        write ∙ ap (λ a. ok a) arena,
        ap (λ a. Arena.get a i) (sym arena) ∙ read,
        here,
        sub64_sum l.total_quantity delta n less,
        subst (LevelsKept b0) book (LevelsKept-depth_remove b0 b1 o.side o.price delta deep),
      )

  pub fill_place :
      (b c : OrderBook M) (i : ArenaIndex) (a a' : Arena) (q : Queues) (s : Side) (p : ℕ)
      (l : PriceLevel) (delta n : ℕ) (xs : List Entry) (o : Order) (ys : List Entry)
      → Represents b a q
      → q s p ≡ xs ++ (i, o) ∷ ys
      → delta ≤ remaining o
      → Arena.get_mut a i (fill_checked delta) ≡ ok a'
      → level_at b s p ≡ ok l
      → n + delta ≡ l.total_quantity
      → LevelsKept (set_level b s p (record l { total_quantity = n })) c
      → Represents c a' (put q s p (xs ++ (i, fill delta o) ∷ ys))
  fill_place b c i a a' q s p l delta n xs o ys v at fits write here less kept =
      let (l0, read0, queue0, placed0) = v.level s p in
      let queue : Queue a l0 (xs ++ (i, o) ∷ ys) = subst (Queue a l0) at queue0 in
      let placed : Placed s p (xs ++ (i, o) ∷ ys) = subst (Placed s p) at placed0 in
      let same_level : l0 ≡ l = ok_one l0 l (sym read0 ∙ here) in
      let others = get_mut-SameBut a a' i (fill_checked delta) write in
      let lv : PriceLevel = record l { total_quantity = n } in
      Represents_put b c a a' q s p (xs ++ (i, fill delta o) ∷ ys) v
        (
          lv,
          level_at_written b c s p l lv here kept,
          Queue-fill a a' l xs i o ys delta n
              (subst (λ l. Queue a l (xs ++ (i, o) ∷ ys)) same_level queue) others
              (λ r. wrote_fill a a' i delta r write) fits less,
          Placed-fill s p xs i o ys delta placed,
        )
        (λ t r other. level_at_unwritten b c s p lv t r kept other)
        (λ t r other seg.
          let (apart, out) = Apart-middle (q t r) xs i o ys (
            Apart-Elsewhere a t r s p arena_null (q t r) arena_null arena_null (xs ++ (i, o) ∷ ys)
              arena_null (Elsewhere-back s p t r other) seg (v.level t r).3 queue.segment placed) in
          Segment-same a a' i arena_null (q t r) arena_null others out seg)
        (SparseSorted-LevelsKept (set_level b s p lv) c kept
          (SparseSorted-set_level b s p lv v.sorted))
        (FreeList-get_mut a a' i (fill_checked delta) write v.slots)

  -- When book and arena stand for queues of orders, the order of a slot is anywhere in the queue
  -- of a side and price with at least `delta` remaining, and `reduce_order_qty` of the slot by
  -- `delta` returns, the new book and arena stand for the same queues with that order filled by
  -- `delta` more in its old place.
  pub reduce_order_qty-Represents :
      (b c : OrderBook M) (i : ArenaIndex) (delta : ℕ) (a a' : Arena) (q : Queues) (s : Side)
      (p : ℕ) (xs : List Entry) (o : Order) (ys : List Entry)
      → Represents b a q
      → q s p ≡ xs ++ (i, o) ∷ ys
      → delta ≤ remaining o
      → reduce_order_qty b i delta a ≡ ok (c, a')
      → Represents c a' (put q s p (xs ++ (i, fill delta o) ∷ ys))
  reduce_order_qty-Represents b c i delta a a' q s p xs o ys v at fits h =
      let (l0, read0, queue0, placed0) = v.level s p in
      let (r, found, before, after, same, out) =
        middle a xs i o ys (subst (Queue a l0) at queue0).segment in
      let (side, price, placed) = Placed-middle s p xs i o ys (subst (Placed s p) at placed0) in
      let (r', l, n, write, now, here, less, kept) = reduce_parts b c i delta a a' h in
      let filled : r' ≡ fill delta r =
        ok_one r' (fill delta r) (sym now ∙ wrote_fill a a' i delta r write found) in
      let at_side : r'.side ≡ s =
        ap (λ (o : Order). o.side) filled ∙ ap (λ (o : Order). o.side) same ∙ side in
      let at_price : r'.price ≡ p =
        ap (λ (o : Order). o.price) filled ∙ ap (λ (o : Order). o.price) same ∙ price in
      let here' : level_at b s p ≡ ok l =
        ap (λ s. level_at b s p) (sym at_side) ∙ ap (level_at b r'.side) (sym at_price) ∙ here in
      fill_place b c i a a' q s p l delta n xs o ys v at fits write here' less (
        subst (λ s. LevelsKept (set_level b s p (record l { total_quantity = n })) c) at_side
          (subst (λ p. LevelsKept (set_level b r'.side p (record l { total_quantity = n })) c)
            at_price kept))
