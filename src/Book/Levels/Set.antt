-- ===== src/Book/Levels/Set.antt =====
-- What reads of the levels see of `set_level`.
use match_x.Base.{
  ℕ, ◌≡◌, ◌≢◌, refl, ap, sym, ◌∙◌, subst, List, none, some, Option-cases, get_elem?, set,
  get_elem?-set_self, get_elem?-set_ne, get_elem?-lt, inl, inr, ok, unwrap, arith,
}
use match_x.Types.{Side, bid, ask, PriceLevel}
use match_x.Book.PriceMap
use match_x.Book.PriceMap.{PriceMap}
use match_x.Book.State.{
  OrderBook, dense_index, dense_levels, sparse_levels, with_dense, with_sparse, level_at, set_level,
}
use match_x.Book.Levels.Maps.{get-insert_self, get-insert_ne, or_empty, Ascends, Ascends-insert}
use match_x.Book.Levels.Kept.{LevelsKept}

module _ {M : Type 0} where
  -- The keys of both sparse maps ascend.
  abbrev pub SparseSorted : OrderBook M → Type 0
  SparseSorted b = Ascends 0 b.bids_sparse × Ascends 0 b.asks_sparse

  pub SparseSorted-LevelsKept :
      (b c : OrderBook M) → LevelsKept b c → SparseSorted b → SparseSorted c
  SparseSorted-LevelsKept b c k (x, y) =
      (subst (Ascends 0) (sym k.bids_sparse) x, subst (Ascends 0) (sym k.asks_sparse) y)

  -- What `set_level` and `level_at` are inside the dense window and outside.
  set_level_dense :
      (b : OrderBook M) (s : Side) (p i : ℕ) (l : PriceLevel)
      → dense_index b p ≡ some i
      → set_level b s p l ≡ with_dense b s (set (dense_levels b s) i l)
  unfolding set_level
  set_level_dense b s p i l h = rw (h, set_level) refl

  set_level_sparse :
      (b : OrderBook M) (s : Side) (p : ℕ) (l : PriceLevel)
      → dense_index b p ≡ none
      → set_level b s p l ≡ with_sparse b s (PriceMap.insert (sparse_levels b s) p l)
  unfolding set_level
  set_level_sparse b s p l h = rw (h, set_level) refl

  pub level_at_dense :
      (b : OrderBook M) (s : Side) (p i : ℕ)
      → dense_index b p ≡ some i
      → level_at b s p ≡ unwrap (get_elem? (dense_levels b s) i)
  unfolding level_at
  level_at_dense b s p i h = rw (h, level_at) refl

  pub level_at_sparse :
      (b : OrderBook M) (s : Side) (p : ℕ)
      → dense_index b p ≡ none
      → level_at b s p ≡ ok (or_empty (PriceMap.get (sparse_levels b s) p))
  unfolding level_at
  level_at_sparse b s p h = ground arith

  dense_index-with_dense :
      (b : OrderBook M) (s : Side) (ls : List PriceLevel) (p : ℕ)
      → dense_index (with_dense b s ls) p ≡ dense_index b p
  unfolding dense_index
  dense_index-with_dense b bid ls p = refl
  dense_index-with_dense b ask ls p = refl

  pub dense_index-with_sparse :
      (b : OrderBook M) (s : Side) (m : PriceMap) (p : ℕ)
      → dense_index (with_sparse b s m) p ≡ dense_index b p
  unfolding dense_index
  dense_index-with_sparse b bid m p = refl
  dense_index-with_sparse b ask m p = refl

  dense_levels-with_dense :
      (b : OrderBook M) (s : Side) (ls : List PriceLevel) → dense_levels (with_dense b s ls) s ≡ ls
  dense_levels-with_dense b bid ls = refl
  dense_levels-with_dense b ask ls = refl

  dense_levels-with_sparse :
      (b : OrderBook M) (s t : Side) (m : PriceMap)
      → dense_levels (with_sparse b s m) t ≡ dense_levels b t
  dense_levels-with_sparse b bid bid m = refl
  dense_levels-with_sparse b bid ask m = refl
  dense_levels-with_sparse b ask bid m = refl
  dense_levels-with_sparse b ask ask m = refl

  pub sparse_levels-with_sparse :
      (b : OrderBook M) (s : Side) (m : PriceMap) → sparse_levels (with_sparse b s m) s ≡ m
  sparse_levels-with_sparse b bid m = refl
  sparse_levels-with_sparse b ask m = refl

  sparse_levels-with_dense :
      (b : OrderBook M) (s t : Side) (ls : List PriceLevel)
      → sparse_levels (with_dense b s ls) t ≡ sparse_levels b t
  sparse_levels-with_dense b bid bid ls = refl
  sparse_levels-with_dense b bid ask ls = refl
  sparse_levels-with_dense b ask bid ls = refl
  sparse_levels-with_dense b ask ask ls = refl

  SparseSorted-with_dense :
      (b : OrderBook M) (s : Side) (ls : List PriceLevel)
      → SparseSorted b
      → SparseSorted (with_dense b s ls)
  SparseSorted-with_dense b bid ls h = h
  SparseSorted-with_dense b ask ls h = h

  pub SparseSorted-with_sparse :
      (b : OrderBook M) (s : Side) (m : PriceMap)
      → Ascends 0 m
      → SparseSorted b
      → SparseSorted (with_sparse b s m)
  SparseSorted-with_sparse b bid m h (x, y) = (h, y)
  SparseSorted-with_sparse b ask m h (x, y) = (x, h)

  pub sparse_levels-Ascends :
      (b : OrderBook M) (s : Side) → SparseSorted b → Ascends 0 (sparse_levels b s)
  sparse_levels-Ascends b bid h = h.0
  sparse_levels-Ascends b ask h = h.1

  pub SparseSorted-set_level :
      (b : OrderBook M) (s : Side) (p : ℕ) (l : PriceLevel)
      → SparseSorted b
      → SparseSorted (set_level b s p l)
  SparseSorted-set_level b s p l h = elim (Option-cases (dense_index b p)) [
    | inl out ↦ subst SparseSorted (sym (set_level_sparse b s p l out)) (
        SparseSorted-with_sparse b s (PriceMap.insert (sparse_levels b s) p l)
          (Ascends-insert 0 p l (sparse_levels b s) (omega arith) (sparse_levels-Ascends b s h)) h)
    | inr (i, at) ↦
        subst SparseSorted (sym (set_level_dense b s p i l at))
          (SparseSorted-with_dense b s (set (dense_levels b s) i l) h)
  ]

  dense_index_inj :
      (b : OrderBook M) (p r i j : ℕ)
      → p ≢ r
      → dense_index b p ≡ some i
      → dense_index b r ≡ some j
      → i ≢ j
  unfolding dense_index
  dense_index_inj b p r i j ne h k = λ e. ne (ground arith)

  level_at-with_dense :
      (b : OrderBook M) (s : Side) (p i : ℕ) (l old : PriceLevel)
      → dense_index b p ≡ some i
      → level_at b s p ≡ ok old
      → level_at (with_dense b s (set (dense_levels b s) i l)) s p ≡ ok l
  level_at-with_dense b s p i l old at h =
      let there : unwrap (get_elem? (dense_levels b s) i) ≡ ok old =
        sym (level_at_dense b s p i at) ∙ h in
      let ls = set (dense_levels b s) i l in
      level_at_dense (with_dense b s ls) s p i (dense_index-with_dense b s ls p ∙ at)
      ∙ ap (λ xs. unwrap (get_elem? xs i)) (dense_levels-with_dense b s ls)
      ∙ ap unwrap (
          get_elem?-set_self (dense_levels b s) i l
            (get_elem?-lt (dense_levels b s) i old (ground arith)))

  pub level_at-set_level :
      (b : OrderBook M) (s : Side) (p : ℕ) (old l : PriceLevel)
      → level_at b s p ≡ ok old
      → level_at (set_level b s p l) s p ≡ ok l
  level_at-set_level b s p old l h = elim (Option-cases (dense_index b p)) [
    | inl out ↦
        let m = PriceMap.insert (sparse_levels b s) p l in
        ap (λ (c : OrderBook M). level_at c s p) (set_level_sparse b s p l out)
        ∙ level_at_sparse (with_sparse b s m) s p (dense_index-with_sparse b s m p ∙ out)
        ∙ ap (λ m. ok (or_empty (PriceMap.get m p))) (sparse_levels-with_sparse b s m)
        ∙ ap (λ o. ok (or_empty o)) (get-insert_self (sparse_levels b s) p l)
    | inr (i, at) ↦
        ap (λ (c : OrderBook M). level_at c s p) (set_level_dense b s p i l at)
        ∙ level_at-with_dense b s p i l old at h
  ]

  -- A write of the dense levels leaves the other ticks.
  level_at-with_dense_ne :
      (b : OrderBook M) (s : Side) (p r i : ℕ) (l : PriceLevel)
      → p ≢ r
      → dense_index b p ≡ some i
      → level_at (with_dense b s (set (dense_levels b s) i l)) s r ≡ level_at b s r
  level_at-with_dense_ne b s p r i l ne at =
      let ls = set (dense_levels b s) i l in
      elim (Option-cases (dense_index b r)) [
        | inl out ↦
            level_at_sparse (with_dense b s ls) s r (dense_index-with_dense b s ls r ∙ out)
            ∙ ap (λ m. ok (or_empty (PriceMap.get m r))) (sparse_levels-with_dense b s s ls)
            ∙ sym (level_at_sparse b s r out)
        | inr (j, at_j) ↦
            level_at_dense (with_dense b s ls) s r j (dense_index-with_dense b s ls r ∙ at_j)
            ∙ ap (λ xs. unwrap (get_elem? xs j)) (dense_levels-with_dense b s ls)
            ∙ ap unwrap
                (get_elem?-set_ne (dense_levels b s) i j l (dense_index_inj b p r i j ne at at_j))
            ∙ sym (level_at_dense b s r j at_j)
      ]

  -- A write of the sparse levels leaves the levels that it reads as before.
  pub level_at-with_sparse_ne :
      (b : OrderBook M) (s : Side) (r : ℕ) (m : PriceMap)
      → PriceMap.get m r ≡ PriceMap.get (sparse_levels b s) r
      → level_at (with_sparse b s m) s r ≡ level_at b s r
  level_at-with_sparse_ne b s r m same = elim (Option-cases (dense_index b r)) [
    | inl out ↦
        level_at_sparse (with_sparse b s m) s r (dense_index-with_sparse b s m r ∙ out)
        ∙ ap (λ m. ok (or_empty (PriceMap.get m r))) (sparse_levels-with_sparse b s m)
        ∙ ap (λ o. ok (or_empty o)) same
        ∙ sym (level_at_sparse b s r out)
    | inr (j, at_j) ↦
        level_at_dense (with_sparse b s m) s r j (dense_index-with_sparse b s m r ∙ at_j)
        ∙ ap (λ xs. unwrap (get_elem? xs j)) (dense_levels-with_sparse b s s m)
        ∙ sym (level_at_dense b s r j at_j)
  ]

  pub level_at-set_level_ne :
      (b : OrderBook M) (s : Side) (p r : ℕ) (l : PriceLevel)
      → p ≢ r
      → level_at (set_level b s p l) s r ≡ level_at b s r
  level_at-set_level_ne b s p r l ne = elim (Option-cases (dense_index b p)) [
    | inl out ↦
        ap (λ (c : OrderBook M). level_at c s r) (set_level_sparse b s p l out)
        ∙ level_at-with_sparse_ne b s r (PriceMap.insert (sparse_levels b s) p l)
            (get-insert_ne (sparse_levels b s) p r l ne)
    | inr (i, at) ↦
        ap (λ (c : OrderBook M). level_at c s r) (set_level_dense b s p i l at)
        ∙ level_at-with_dense_ne b s p r i l ne at
  ]

  pub level_at-set_level_side :
      (b : OrderBook M) (s t : Side) (p r : ℕ) (l : PriceLevel)
      → s ≢ t
      → level_at (set_level b s p l) t r ≡ level_at b t r
  unfolding level_at set_level dense_index
  level_at-set_level_side b bid bid p r l ne = absurd (ne refl)
  level_at-set_level_side b bid ask p r l ne = ground arith
  level_at-set_level_side b ask bid p r l ne = ground arith
  level_at-set_level_side b ask ask p r l ne = absurd (ne refl)
