-- ===== src/Book/Queues/New.antt =====
-- A new book and a new arena have no orders.
use match_x.Base.{
  ℕ, ◌≤◌, ◌<◌, ◌≡◌, refl, ap, ◌∙◌, [], some, replicate, get_elem?, unwrap, Option-cases, inl, inr,
  get_elem?-replicate, ok, arith,
}
use match_x.Types.{Side, bid, ask, InstrumentConfig, empty_level}
use match_x.Arena
use match_x.Arena.{free_list_end}
use match_x.Arena.FreeList.New.{FreeList-new}
use match_x.Book.State.{
  OrderBook, IndexMap, level_at, dense_index, dense_levels, sparse_levels, new,
}
use match_x.Book.PriceMap
use match_x.Book.Levels.{or_empty, level_at_dense, level_at_sparse}
use match_x.Book.Queues.{Queues, Represents}

abbrev pub no_orders : Queues
no_orders s p = []

module _ {M : Type 0} where
  inside : (b : OrderBook M) (p i : ℕ) → dense_index b p ≡ some i → i < b.dense_max_ticks
  unfolding dense_index
  inside b p i h = ground arith

  -- a book with empty levels only
  level_at-blank :
      (b : OrderBook M) (s : Side) (p : ℕ)
      → dense_levels b s ≡ replicate b.dense_max_ticks empty_level
      → sparse_levels b s ≡ []
      → level_at b s p ≡ ok empty_level
  unfolding PriceMap.get
  level_at-blank b s p dense sparse = elim (Option-cases (dense_index b p)) [
    | inl out ↦ level_at_sparse b s p out ∙ ap (λ m. ok (or_empty (PriceMap.get m p))) sparse
    | inr (i, there) ↦
        level_at_dense b s p i there
        ∙ ap (λ ls. unwrap (get_elem? ls i)) dense
        ∙ ap (λ l. unwrap l)
            (get_elem?-replicate b.dense_max_ticks i empty_level (inside b p i there))
  ]

module _ {M : Type 0} ⦃map : IndexMap M⦄ where
  pub new-Represents :
      (config : InstrumentConfig) (capacity : ℕ)
      → capacity ≤ free_list_end
      → Represents (new {M = M} config) (Arena.new capacity) no_orders
  unfolding new
  new-Represents config capacity h = record {
    level = λ s p. (
      empty_level,
      blank s p,
      record { segment = tt; head = refl; tail = refl; count = refl; quantity = refl },
      tt,
    );
    sorted = (tt, tt);
    slots = FreeList-new capacity h;
  }
    where
      blank : (s : Side) (p : ℕ) → level_at (new {M = M} config) s p ≡ ok empty_level
      blank bid p = level_at-blank (new config) bid p refl refl
      blank ask p = level_at-blank (new config) ask p refl refl
