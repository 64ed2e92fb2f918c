-- ===== src/Book/Queues/History.antt =====
-- Books made from a new one by insertions, removals and fills, with the queues they stand for.
use match_x.Base.{ℕ, ◌≤◌, ◌≡◌, ap, sym, ◌∙◌, subst, List, [], ◌∷◌, ◌++◌, none, some, ok, arith}
use match_x.Types.{Side, Order, ArenaIndex, PriceLevel, InstrumentConfig, remaining}
use match_x.Arena
use match_x.Arena.{Arena, free_list_end}
use match_x.Book.State
use match_x.Book.State.{OrderBook, IndexMap, level_at, get_level, get_level_qty}
use match_x.Book.Insert.{NewEntry, order_of, insert_order}
use match_x.Book.Remove.{remove_order, reduce_order_qty}
use match_x.Book.Queue.{Entry, total}
use match_x.Book.Queues.{Queues, put, Represents}
use match_x.Book.Queues.New.{no_orders, new-Represents}
use match_x.Book.Queues.Insert.{insert_order-Represents, insert_order-none}
use match_x.Book.Queues.Remove.{remove_order-Represents}
use match_x.Book.Queues.Reduce.{fill, reduce_order_qty-Represents}

module _ {M : Type 0} ⦃map : IndexMap M⦄ where
  -- one call each, with what it does to the queues
  pub data History (config : InstrumentConfig) (capacity : ℕ)
      : OrderBook M → Arena → Queues → Type 0 where
    start : History config capacity (State.new config) (Arena.new capacity) no_orders
    inserted :
        {b c : OrderBook M} {a a' : Arena} {q : Queues} (e : NewEntry) (i : ArenaIndex)
        → History config capacity b a q
        → insert_order b e a ≡ ok (c, a', some i)
        → History config capacity c a'
            (put q e.side e.price (q e.side e.price ++ (i, order_of e) ∷ []))
    refused :
        {b c : OrderBook M} {a a' : Arena} {q : Queues} (e : NewEntry)
        → History config capacity b a q
        → insert_order b e a ≡ ok (c, a', none)
        → History config capacity c a' q
    removed :
        {b c : OrderBook M} {a a' : Arena} {q : Queues} (i : ArenaIndex) (s : Side) (p : ℕ)
        (xs : List Entry) (o : Order) (ys : List Entry)
        → History config capacity b a q
        → q s p ≡ xs ++ (i, o) ∷ ys
        → remove_order b i a ≡ ok (c, a', s, p)
        → History config capacity c a' (put q s p (xs ++ ys))
    filled :
        {b c : OrderBook M} {a a' : Arena} {q : Queues} (i : ArenaIndex) (delta : ℕ) (s : Side)
        (p : ℕ) (xs : List Entry) (o : Order) (ys : List Entry)
        → History config capacity b a q
        → q s p ≡ xs ++ (i, o) ∷ ys
        → delta ≤ remaining o
        → reduce_order_qty b i delta a ≡ ok (c, a')
        → History config capacity c a' (put q s p (xs ++ (i, fill delta o) ∷ ys))

  Represents-History :
      (config : InstrumentConfig) (capacity : ℕ) (b : OrderBook M) (a : Arena) (q : Queues)
      → capacity ≤ free_list_end
      → History config capacity b a q
      → Represents b a q
  Represents-History config capacity _ _ _ bound start = new-Represents config capacity bound
  Represents-History config capacity c a' _ bound (inserted {b = b} {a = a} {q = q} e i h run) =
      insert_order-Represents b c e a a' q i (Represents-History config capacity b a q bound h) run
  Represents-History config capacity c a' q bound (refused {b = b} {a = a} e h run) =
      let v = Represents-History config capacity b a q bound h in
      let (book, arena) = insert_order-none b c e a a' v.slots run in
      subst (λ c. Represents c a' q) (sym book) (subst (λ a'. Represents b a' q) (sym arena) v)
  Represents-History config capacity c a' _ bound
        (removed {b = b} {a = a} {q = q} i s p xs o ys h at run) =
      (remove_order-Represents b c i a a' q s s p p xs o ys
        (Represents-History config capacity b a q bound h) at run).0
  Represents-History config capacity c a' _ bound
        (filled {b = b} {a = a} {q = q} i delta s p xs o ys h at fits run) =
      reduce_order_qty-Represents b c i delta a a' q s p xs o ys
        (Represents-History config capacity b a q bound h) at fits run

  get_level_qty-level_at :
      (b : OrderBook M) (s : Side) (p : ℕ) (l : PriceLevel)
      → level_at b s p ≡ ok l
      → get_level_qty b s p ≡ ok l.total_quantity
  unfolding get_level_qty get_level level_at
  get_level_qty-level_at b s p l h = ground arith

  -- In an arena of at most 2^32 - 1 slots: when insertions, refused insertions, removals of queued
  -- orders and reductions of queued orders by at most what remains of them have made a book and
  -- queues from a new book without orders, each insertion appending to its queue, each removal
  -- taking its order out and each reduction filling its order in place, the quantity of the level
  -- at a side and price is the sum of what remains of the orders in their queue.
  pub get_level_qty-History :
      (config : InstrumentConfig) (capacity : ℕ) (b : OrderBook M) (a : Arena) (q : Queues)
      (s : Side) (p : ℕ)
      → capacity ≤ free_list_end
      → History config capacity b a q
      → get_level_qty b s p ≡ ok (total (q s p))
  get_level_qty-History config capacity b a q s p bound h =
      let v = Represents-History config capacity b a q bound h in
      let (l, read, queue, placed) = v.level s p in
      get_level_qty-level_at b s p l read ∙ ap (λ n. ok n) queue.quantity
