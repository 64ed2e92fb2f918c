-- ===== src/Book/Levels/Prune.antt =====
-- What reads of the levels see of the removal of an empty sparse level.
use match_x.Base.{
  ℕ, ◌≡◌, ◌≢◌, refl, ap, sym, ◌∙◌, subst, true, none, some, Option-cases, Bool-cases, inl, inr, ◌⊎◌,
  ok, arith,
}
use match_x.Types.{Side, bid, ask, PriceLevel, empty_level, is_empty}
use match_x.Book.PriceMap
use match_x.Book.PriceMap.{PriceMap}
use match_x.Book.State.{OrderBook, dense_index, sparse_levels, with_sparse, level_at}
use match_x.Book.Remove.{prune_if_sparse_empty}
use match_x.Book.Levels.Maps.{get-remove_ne, or_empty, get-remove_self, Ascends-remove}
use match_x.Book.Levels.Set.{
  SparseSorted, level_at_sparse, dense_index-with_sparse, sparse_levels-with_sparse,
  SparseSorted-with_sparse, sparse_levels-Ascends, level_at-with_sparse_ne,
}

module _ {M : Type 0} where
  -- The book as before, or without an empty sparse level.
  prune_cases :
      (b : OrderBook M) (s : Side) (p : ℕ)
      → (prune_if_sparse_empty b s p ≡ b)
        ⊎ ((l : PriceLevel) × (dense_index b p ≡ none)
            × (PriceMap.get (sparse_levels b s) p ≡ some l)
            × (is_empty l ≡ true)
            × (prune_if_sparse_empty b s p
                ≡ with_sparse b s (PriceMap.remove (sparse_levels b s) p)))
  unfolding prune_if_sparse_empty
  prune_cases b s p = elim (Option-cases (dense_index b p)) [
    | inr (i, at) ↦ inl (rw (at, prune_if_sparse_empty) refl)
    | inl out ↦ elim (Option-cases (PriceMap.get (sparse_levels b s) p)) [
      | inl vacant ↦ inl (rw (out, vacant, prune_if_sparse_empty) refl)
      | inr (l, there) ↦ elim (Bool-cases (is_empty l)) [
        | inl gone ↦ inr (l, out, there, gone, rw (out, there, gone, prune_if_sparse_empty) refl)
        | inr stays ↦ inl (rw (out, there, stays, prune_if_sparse_empty) refl)
      ]
    ]
  ]

  pub SparseSorted-prune :
      (b : OrderBook M) (s : Side) (p : ℕ)
      → SparseSorted b
      → SparseSorted (prune_if_sparse_empty b s p)
  SparseSorted-prune b s p h = elim (prune_cases b s p) [
    | inl same ↦ subst SparseSorted (sym same) h
    | inr (l, out, there, gone, cut) ↦ subst SparseSorted (sym cut) (
        SparseSorted-with_sparse b s (PriceMap.remove (sparse_levels b s) p)
          (Ascends-remove 0 p (sparse_levels b s) (sparse_levels-Ascends b s h)) h)
  ]

  -- A level that is pruned is read as the empty one.
  pub level_at-prune :
      (b : OrderBook M) (s : Side) (p : ℕ) (l : PriceLevel)
      → SparseSorted b
      → level_at b s p ≡ ok l
      → (m : PriceLevel) × (level_at (prune_if_sparse_empty b s p) s p ≡ ok m)
        × ((m ≡ l) ⊎ ((is_empty l ≡ true) × (m ≡ empty_level)))
  level_at-prune b s p l sorted h = elim (prune_cases b s p) [
    | inl same ↦ (l, ap (λ (c : OrderBook M). level_at c s p) same ∙ h, inl refl)
    | inr (k, out, there, gone, cut) ↦
        let m = PriceMap.remove (sparse_levels b s) p in
        let read : ok k ≡ ok l =
          sym (level_at_sparse b s p out ∙ ap (λ o. ok (or_empty o)) there) ∙ h in
        let same : k ≡ l = cc in
        (
          empty_level,
          ap (λ (c : OrderBook M). level_at c s p) cut
              ∙ level_at_sparse (with_sparse b s m) s p (dense_index-with_sparse b s m p ∙ out)
              ∙ ap (λ m. ok (or_empty (PriceMap.get m p))) (sparse_levels-with_sparse b s m)
              ∙ ap (λ o. ok (or_empty o))
                  (get-remove_self 0 p (sparse_levels b s) (sparse_levels-Ascends b s sorted)),
          inr (subst (λ l. is_empty l ≡ true) same gone, refl),
        )
  ]

  pub level_at-prune_ne :
      (b : OrderBook M) (s : Side) (p r : ℕ)
      → p ≢ r
      → level_at (prune_if_sparse_empty b s p) s r ≡ level_at b s r
  level_at-prune_ne b s p r ne = elim (prune_cases b s p) [
    | inl same ↦ ap (λ (c : OrderBook M). level_at c s r) same
    | inr (k, out, there, gone, cut) ↦
        ap (λ (c : OrderBook M). level_at c s r) cut
        ∙ level_at-with_sparse_ne b s r (PriceMap.remove (sparse_levels b s) p)
            (get-remove_ne (sparse_levels b s) p r ne)
  ]

  pub level_at-prune_side :
      (b : OrderBook M) (s t : Side) (p r : ℕ)
      → s ≢ t
      → level_at (prune_if_sparse_empty b s p) t r ≡ level_at b t r
  unfolding level_at prune_if_sparse_empty dense_index
  level_at-prune_side b bid bid p r ne = absurd (ne refl)
  level_at-prune_side b bid ask p r ne = ground arith
  level_at-prune_side b ask bid p r ne = ground arith
  level_at-prune_side b ask ask p r ne = absurd (ne refl)
