-- ===== src/Book/Queues/Settle.antt =====
-- What `remove_order` leaves of the levels after it has set one.
use match_x.Base.{
  ℕ, ◌≡◌, refl, ap, sym, ◌∙◌, subst, inl, inr, ◌⊎◌, Bool, true, false, if◌then◌else◌, Exec, ok,
  ok_one,
}
use match_x.Types.{Side, PriceLevel, empty_level, is_empty}
use match_x.Book.State.{OrderBook, level_at}
use match_x.Book.Remove.{prune_if_sparse_empty, refresh_best_after_level_empty}
use match_x.Book.Levels.{
  LevelsKept-refresh, level_at-LevelsKept, SparseSorted, SparseSorted-LevelsKept,
  SparseSorted-prune, level_at-prune, level_at-prune_ne, level_at-prune_side,
}
use match_x.Book.Queues.{Elsewhere}

module _ {M : Type 0} where
  -- The levels of the book after `level_is_empty` has chosen what is left to do.
  abbrev pub settle : OrderBook M → Side → ℕ → Bool → Exec (OrderBook M)
  settle b s p gone =
      if gone then refresh_best_after_level_empty (prune_if_sparse_empty b s p) s p else ok b

  -- The level itself may have become the empty level.
  pub settle-level :
      (b c : OrderBook M) (s : Side) (p : ℕ) (gone : Bool) (l : PriceLevel)
      → settle b s p gone ≡ ok c
      → SparseSorted b
      → level_at b s p ≡ ok l
      → (m : PriceLevel) × (level_at c s p ≡ ok m)
        × ((m ≡ l) ⊎ ((is_empty l ≡ true) × (m ≡ empty_level)))
  settle-level b c s p false l h sorted read =
      (l, ap (λ (b : OrderBook M). level_at b s p) (sym (ok_one b c h)) ∙ read, inl refl)
  settle-level b c s p true l h sorted read =
      let (m, read', cases) = level_at-prune b s p l sorted read in
      (
        m,
        level_at-LevelsKept (prune_if_sparse_empty b s p) c s p
              (LevelsKept-refresh (prune_if_sparse_empty b s p) c s p h)
            ∙ read',
        cases,
      )

  pub settle-Elsewhere :
      (b c : OrderBook M) (s : Side) (p : ℕ) (gone : Bool) (t : Side) (r : ℕ)
      → settle b s p gone ≡ ok c
      → Elsewhere s p t r
      → level_at c t r ≡ level_at b t r
  settle-Elsewhere b c s p false t r h other =
      ap (λ (b : OrderBook M). level_at b t r) (sym (ok_one b c h))
  settle-Elsewhere b c s p true t r h (inl ne) =
      level_at-LevelsKept (prune_if_sparse_empty b s p) c t r
        (LevelsKept-refresh (prune_if_sparse_empty b s p) c s p h)
      ∙ level_at-prune_side b s t p r ne
  settle-Elsewhere b c s p true t r h (inr (same, ne)) =
      level_at-LevelsKept (prune_if_sparse_empty b s p) c t r
        (LevelsKept-refresh (prune_if_sparse_empty b s p) c s p h)
      ∙ subst (λ t. level_at (prune_if_sparse_empty b s p) t r ≡ level_at b t r) same
          (level_at-prune_ne b s p r ne)

  pub settle-SparseSorted :
      (b c : OrderBook M) (s : Side) (p : ℕ) (gone : Bool)
      → settle b s p gone ≡ ok c
      → SparseSorted b
      → SparseSorted c
  settle-SparseSorted b c s p false h sorted = subst SparseSorted (ok_one b c h) sorted
  settle-SparseSorted b c s p true h sorted =
      SparseSorted-LevelsKept (prune_if_sparse_empty b s p) c
        (LevelsKept-refresh (prune_if_sparse_empty b s p) c s p h) (SparseSorted-prune b s p sorted)
