-- ===== src/Engine/Matching/Queues.antt =====
-- What a trade does to the queue of the maker.
mod Tests
use match_x.Base.{
  ℕ, ◌+◌, ◌-◌, ◌≤◌, ◌≡◌, refl, ap, sym, ◌∙◌, subst, min, ◌==◌, if◌then◌else◌, Bool, true, false,
  Bool-cases, inl, inr, List, [], ◌∷◌, ◌++◌, some, Exec, ok, ◌>>=◌, bind_ok, ok_one, ok_two,
  ok_three, sub64, sub64_sum, add64, arith,
}
use match_x.Types.{
  Side, Order, ArenaIndex, PriceLevel, EventMeta, MatchEvent, fill, matchable_qty, remaining,
  opposite,
}
use match_x.Types.Slice.{matchable_qty_bounds}
use match_x.Arena
use match_x.Arena.{Arena}
use match_x.Book.State.{OrderBook, IndexMap, level_at, set_level}
use match_x.Book.Remove.{remove_order}
use match_x.Book.Levels.{LevelsKept}
use match_x.Book.Queue.{Entry, plain, Queue}
use match_x.Book.Queues.{Queues, put, put_self, Elsewhere, LevelOf, Represents}
use match_x.Book.Queues.Unlink.{middle}
use match_x.Book.Queues.Remove.{remove_order-Represents}
use match_x.Book.Queues.Reduce
use match_x.Book.Queues.Reduce.{fill_checked, wrote_fill, fill_place}
use match_x.Engine.State.{MatchingEngine, emit}
use match_x.Engine.Matching.{Taker, Flow, continue, emit_level, remove_maker, trade}

module _ {M : Type 0} where
  -- Events leave book and arena.
  abbrev Same : MatchingEngine M → MatchingEngine M → Type 0
  Same e e' = (e'.book ≡ e.book) × (e'.arena ≡ e.arena)

  emit-Same : (e e' : MatchingEngine M) (f : EventMeta → MatchEvent) → emit e f ≡ ok e' → Same e e'
  unfolding emit add64
  emit-Same e e' f h = (ground arith, ground arith)

  emit_level-Same :
      (e e' : MatchingEngine M) (s : Side) (p : ℕ) → emit_level e s p ≡ ok e' → Same e e'
  unfolding emit_level
  emit_level-Same e e' s p h = (grind (arith, emit-Same), grind (arith, emit-Same))

-- the queue behind a maker after a fill: a maker that is used up is gone
abbrev pub rest_of : ArenaIndex → Order → List Entry → List Entry
rest_of i o ys = if remaining o == 0 then ys else (i, o) ∷ ys

-- Only the queues that a book stands for count.
Represents-pointwise :
    {M : Type 0} (b : OrderBook M) (a : Arena) (q q' : Queues)
    → ((s : Side) (p : ℕ) → q s p ≡ q' s p)
    → Represents b a q
    → Represents b a q'
Represents-pointwise b a q q' same v = record {
  level = λ s p. subst (LevelOf b a s p) (same s p) (v.level s p);
  sorted = v.sorted;
  slots = v.slots;
}

put-put :
    (q : Queues) (s : Side) (p : ℕ) (xs ys : List Entry) (t : Side) (r : ℕ)
    → put (put q s p xs) s p ys t r ≡ put q s p ys t r
put-put q s p xs ys t r = ground arith

module _ {M : Type 0} ⦃map : IndexMap M⦄ where
  -- the steps of `trade` from the first event on
  abbrev report :
      Taker
      → MatchingEngine M
      → ArenaIndex
      → Order
      → Order
      → ℕ
      → ℕ
      → ℕ
      → Exec (MatchingEngine M × ℕ × Flow)
  report t e i o o' p d left = do
    e ← emit e (λ meta. fill meta o.id t.id p d (remaining o') left)
    let e = record e { last_trade_price = some p }
    e ← emit_level e o.side p
    e ← (if remaining o' == 0 then remove_maker e i else ok e)
    ok (e, left, continue)

  settle_maker :
      (e e' : MatchingEngine M) (i : ArenaIndex) (o : Order) (q : Queues) (s : Side) (p : ℕ)
      (xs ys : List Entry)
      → Represents e.book e.arena (put q s p (xs ++ (i, o) ∷ ys))
      → (if remaining o == 0 then remove_maker e i else ok e) ≡ ok e'
      → Represents e'.book e'.arena (put q s p (xs ++ rest_of i o ys))
  unfolding remove_maker
  settle_maker e e' i o q s p xs ys v h = elim (Bool-cases (remaining o == 0)) [
    | inl gone ↦
        let (x, taken, last) : (x : OrderBook M × Arena × Side × ℕ) × (remove_order e.book i e.arena
              ≡ ok x)
            × (ok (record e { book = x.0; arena = x.1 }) ≡ ok e') =
          bind_ok (remove_order e.book i e.arena) (λ x. ok (record e { book = x.0; arena = x.1 }))
            (ap (λ b. if b then remove_maker e i else ok e) (sym gone) ∙ h) in
        let (w, _, _) =
          remove_order-Represents e.book x.0 i e.arena x.1 (put q s p (xs ++ (i, o) ∷ ys)) s x.2 p
            x.3 xs o ys v (put_self q s p (xs ++ (i, o) ∷ ys)) taken in
        let w' =
          Represents-pointwise x.0 x.1 (put (put q s p (xs ++ (i, o) ∷ ys)) s p (xs ++ ys))
            (put q s p (xs ++ ys)) (put-put q s p (xs ++ (i, o) ∷ ys) (xs ++ ys)) w in
        let left : ys ≡ rest_of i o ys = ap (λ b. if b then ys else (i, o) ∷ ys) (sym gone) in
        subst (λ e. Represents e.book e.arena (put q s p (xs ++ rest_of i o ys)))
          (ok_one (record e { book = x.0; arena = x.1 }) e' last)
          (subst (λ zs. Represents x.0 x.1 (put q s p (xs ++ zs))) left w')
    | inr there ↦
        let same = ok_one e e' (ap (λ b. if b then remove_maker e i else ok e) (sym there) ∙ h) in
        let left : (i, o) ∷ ys ≡ rest_of i o ys =
          ap (λ b. if b then ys else (i, o) ∷ ys) (sym there) in
        subst (λ e. Represents e.book e.arena (put q s p (xs ++ rest_of i o ys))) same
          (subst (λ zs. Represents e.book e.arena (put q s p (xs ++ zs))) left v)
  ]

  report-Represents :
      (t : Taker) (e : MatchingEngine M) (i : ArenaIndex) (o o' : Order) (p d left : ℕ)
      (r : MatchingEngine M × ℕ × Flow) (q : Queues) (x : Order) (s : Side) (xs ys : List Entry)
      → report t e i o o' p d left ≡ ok r
      → Represents e.book e.arena (put q s p (xs ++ (i, x) ∷ ys))
      → remaining o' ≡ remaining x
      → Represents r.0.book r.0.arena (put q s p (xs ++ rest_of i x ys))
  report-Represents t e i o o' p d left r q x s xs ys h v same =
      let (e1, filled, h1) =
        bind_ok (emit e (λ meta. fill meta o.id t.id p d (remaining o') left)) _ h in
      let e2 : MatchingEngine M = record e1 { last_trade_price = some p } in
      let (e3, shown, h2) = bind_ok (emit_level e2 o.side p) _ h1 in
      let (e4, settled, h3) =
        bind_ok (if remaining o' == 0 then remove_maker e3 i else ok e3) _ h2 in
      let (book1, arena1) = emit-Same e e1 _ filled in
      let (book2, arena2) = emit_level-Same e2 e3 o.side p shown in
      let v' : Represents e3.book e3.arena (put q s p (xs ++ (i, x) ∷ ys)) =
        subst (λ b. Represents b e3.arena (put q s p (xs ++ (i, x) ∷ ys))) (sym (book2 ∙ book1))
          (subst (λ a. Represents e.book a (put q s p (xs ++ (i, x) ∷ ys))) (sym (arena2 ∙ arena1))
            v) in
      let w =
        settle_maker e3 e4 i x q s p xs ys v'
          (ap (λ n. if n == 0 then remove_maker e3 i else ok e3) (sym same) ∙ settled) in
      let whole : ◌≡◌ {A = MatchingEngine M × ℕ × Flow} (e4, left, continue) r =
        ok_one {A = MatchingEngine M × ℕ × Flow} (e4, left, continue) r h3 in
      let last : e4 ≡ r.0 = ap (λ (r : MatchingEngine M × ℕ × Flow). r.0) whole in
      subst (λ e. Represents e.book e.arena (put q s p (xs ++ rest_of i x ys))) last w

  -- the steps of `trade` before the first event
  trade_parts :
      (t : Taker) (e : MatchingEngine M) (i : ArenaIndex) (o : Order) (p left : ℕ)
      (r : MatchingEngine M × ℕ × Flow)
      → trade t e i o p left ≡ ok r
      → (a : Arena) × (l : PriceLevel) × (n : ℕ) × (o' : Order) × (Arena.get_mut e.arena i
            (fill_checked (min left (matchable_qty o)))
          ≡ ok a)
        × (level_at e.book (opposite t.side) p ≡ ok l)
        × (n + min left (matchable_qty o) ≡ l.total_quantity)
        × (Arena.get a i ≡ ok o')
        × (report t
              (record e {
                book = set_level e.book (opposite t.side) p (record l { total_quantity = n });
                arena = a;
              })
              i
              o
              o'
              p
              (min left (matchable_qty o))
              (left - min left (matchable_qty o))
            ≡ ok r)
  unfolding trade
  trade_parts t e i o p left r h =
      let d = min left (matchable_qty o) in
      let (a, write, h1) = bind_ok (Arena.get_mut e.arena i (fill_checked d)) _ h in
      let (l, read, h2) = bind_ok (level_at e.book (opposite t.side) p) _ h1 in
      let (n, less, h3) = bind_ok (sub64 l.total_quantity d) _ h2 in
      let (o', now, h4) = bind_ok (Arena.get a i) _ h3 in
      (a, l, n, o', write, read, sub64_sum l.total_quantity d n less, now, h4)

  -- When book and arena of an engine stand for queues of orders, the maker is anywhere in the
  -- queue of the price and of the side opposite to the taker's, and `trade` with it returns, book
  -- and arena stand for the same queues with the maker filled by the quantity left or by what it
  -- offers, whichever is less, in its old place, or without it when nothing remains of it.
  pub trade-Represents :
      (t : Taker) (e : MatchingEngine M) (i : ArenaIndex) (o : Order) (p left : ℕ)
      (r : MatchingEngine M × ℕ × Flow) (q : Queues) (xs ys : List Entry)
      → Represents e.book e.arena q
      → q (opposite t.side) p ≡ xs ++ (i, plain o) ∷ ys
      → Arena.get e.arena i ≡ ok o
      → trade t e i o p left ≡ ok r
      → Represents r.0.book r.0.arena (
          put q
            (opposite t.side)
            p
            (xs ++ rest_of i (Reduce.fill (min left (matchable_qty o)) (plain o)) ys))
  unfolding remaining
  trade-Represents t e i o p left r q xs ys v at found h =
      let d = min left (matchable_qty o) in
      let s = opposite t.side in
      let (a, l, n, o', write, read, less, now, reported) = trade_parts t e i o p left r h in
      let b = set_level e.book s p (record l { total_quantity = n }) in
      let filled : o' ≡ Reduce.fill d o =
        ok_one o' (Reduce.fill d o) (sym now ∙ wrote_fill e.arena a i d o write found) in
      report-Represents t (record e { book = b; arena = a }) i o o' p d (left - d) r q
        (Reduce.fill d (plain o)) s xs ys reported
        (fill_place e.book b i e.arena a q s p l d n xs (plain o) ys v at
          (omega (arith, (matchable_qty_bounds o).0)) write read less
          (record {
            bids_dense = refl;
            asks_dense = refl;
            base = refl;
            ticks = refl;
            bids_sparse = refl;
            asks_sparse = refl;
          }))
        (ap (λ (o : Order). remaining o) filled)
