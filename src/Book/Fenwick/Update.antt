-- ===== src/Book/Fenwick/Update.antt =====
-- `add` and `sub` change one entry of what a Fenwick tree stands for.
use match_x.Base.{
  ℕ, zero, suc, ◌+◌, ◌-◌, ◌^◌, ◌≤◌, ◌<◌, ◌≡◌, refl, List, length, length-set, set, get_or,
  get_elem?-get_or, get_or-set_self, get_or-set_ne, Bool-cases, inl, inr, true, leb, lt→ltb, le→leb,
  le→ltb_false, if◌then◌else◌, Exec, ok, add64, add64_ok, u64_mod, arith, dec_lt, ℕ_discrete, ◌∙◌,
  assert, ◌>>◌,
}
use match_x.Base.Bits.{lsb, lsb_bounds}
use match_x.Book.Fenwick.{FenwickTree, climb, add, sub}
use match_x.Book.Fenwick.Cover.{covers, covers_step, lowbit-lsb}
use match_x.Book.Fenwick.Sums.{
  Represents, psum, change, psum_mono, entry-le-psum, psum-add, psum-sub,
}

-- What a walk leaves: the covered nodes changed by `g`.
abbrev Climbed : (ℕ → ℕ) → List ℕ → ℕ → List ℕ → Type 0
Climbed g nodes i nodes' =
    (length nodes' ≡ length nodes)
    × ((k : ℕ)
        → 0 < k
        → k < length nodes
        → get_or nodes' k 0 ≡ (if covers 64 k i then g (get_or nodes k 0) else get_or nodes k 0))

module _ (f : ℕ → Exec ℕ) (g : ℕ → ℕ) where
  -- `f` computes `g` at the nodes that a walk from `i` visits.
  abbrev Computes : List ℕ → ℕ → Type 0
  Computes nodes i =
      (k : ℕ)
      → k < length nodes
      → covers 64 k i ≡ true
      → f (get_or nodes k 0) ≡ ok (g (get_or nodes k 0))

  climb_step :
      (fuel : ℕ) (nodes : List ℕ) (i : ℕ)
      → 0 < i
      → i < length nodes
      → length nodes < 2 ^ 62
      → Computes nodes i
      → climb (suc fuel) f nodes i
        ≡ climb fuel f (set nodes i (g (get_or nodes i 0))) (i + lsb 64 i)
  unfolding climb
  climb_step fuel nodes i pos inside small good =
      let low = lsb_bounds 64 i (omega arith) pos in
      rw (
        lt→ltb i (length nodes) inside,
        get_elem?-get_or nodes i 0 inside,
        good i inside (ground arith),
        lowbit-lsb i pos (omega arith),
        add64_ok i (lsb 64 i) (omega arith),
      )

  step-Computes :
      (nodes : List ℕ) (i v : ℕ)
      → 0 < i
      → i < length nodes
      → length nodes < 2 ^ 62
      → Computes nodes i
      → Computes (set nodes i v) (i + lsb 64 i)
  step-Computes nodes i v pos inside small good k hk c =
      let low = lsb_bounds 64 i (omega arith) pos in
      let len = length-set nodes i v in
      rw (get_or-set_ne nodes i k v 0 (ground arith)) (
        good k (omega arith)
          (covers_step 64 k i (omega arith) (omega arith) (ground arith) pos ∙ ground arith))

  climb_end :
      (fuel : ℕ) (nodes : List ℕ) (i : ℕ) → length nodes ≤ i → climb (suc fuel) f nodes i ≡ ok nodes
  unfolding climb
  climb_end fuel nodes i h = rw (le→ltb_false i (length nodes) h)

  Climbed_step :
      (nodes nodes' : List ℕ) (i k : ℕ)
      → 0 < i
      → 0 < k
      → k < length nodes
      → i < length nodes
      → length nodes < 2 ^ 62
      → ((j : ℕ)
          → 0 < j
          → j < length (set nodes i (g (get_or nodes i 0)))
          → get_or nodes' j 0 ≡ (
              if covers 64 j (i + lsb 64 i)
              then g (get_or (set nodes i (g (get_or nodes i 0))) j 0)
              else get_or (set nodes i (g (get_or nodes i 0))) j 0))
      → get_or nodes' k 0 ≡ (if covers 64 k i then g (get_or nodes k 0) else get_or nodes k 0)
  Climbed_step nodes nodes' i k pos p q inside small after =
      let low = lsb_bounds 64 i (omega arith) pos in
      let v = g (get_or nodes i 0) in
      let step = covers_step 64 k i (omega arith) (omega arith) p pos in
      after k p (rw (length-set nodes i v) q) ∙ elim (ℕ_discrete i k) [
        | yes e ↦ rw (← e, get_or-set_self nodes i v 0 inside) (ground arith)
        | no n ↦ rw (step, get_or-set_ne nodes i k v 0 n) (ground arith)
      ]

  -- A walk from node `i` ends, and changes exactly the nodes that cover entry `i - 1`.
  climb-Climbed :
      (fuel : ℕ) (nodes : List ℕ) (i : ℕ)
      → 0 < i
      → length nodes < 2 ^ 62
      → length nodes - i < fuel
      → Computes nodes i
      → (nodes' : List ℕ) × (climb fuel f nodes i ≡ ok nodes') × (Climbed g nodes i nodes')
  climb-Climbed zero nodes i pos small enough good = absurd (omega arith)
  climb-Climbed (suc fuel) nodes i pos small enough good = elim (dec_lt i (length nodes)) [
    | yes inside ↦
        let low = lsb_bounds 64 i (omega arith) pos in
        let v = g (get_or nodes i 0) in
        let len = length-set nodes i v in
        let (nodes', run, after) =
          climb-Climbed fuel (set nodes i v) (i + lsb 64 i) (omega arith) (omega arith)
            (omega arith) (step-Computes nodes i v pos inside small good) in
        (
          nodes',
          climb_step fuel nodes i pos inside small good ∙ run,
          (after.0 ∙ len, λ k p q. Climbed_step nodes nodes' i k pos p q inside small after.1),
        )
    | no outside ↦ (nodes, climb_end fuel nodes i (omega arith), (refl, λ k p q. ground arith))
  ]

-- The equation of a node that stands for the entries of `f`, after an addition at `index`.
node_add :
    (f : ℕ → ℕ) (index delta k v : ℕ)
    → 0 < k
    → k < 2 ^ 64
    → v + psum f (k - lsb 64 k) ≡ psum f k
    → (if covers 64 k (index + 1) then v + delta else v)
        + psum (change f index (λ q. q + delta)) (k - lsb 64 k)
      ≡ psum (change f index (λ q. q + delta)) k
node_add f index delta k v p small e =
    let low = lsb_bounds 64 k small p in
    rw (psum-add f index delta (k - lsb 64 k), psum-add f index delta k) (ground arith)

-- A node that covers the entry holds no less than the entry.
covered :
    (f : ℕ → ℕ) (index delta k v : ℕ)
    → covers 64 k (index + 1) ≡ true
    → k < 2 ^ 64
    → v + psum f (k - lsb 64 k) ≡ psum f k
    → delta ≤ f index
    → delta ≤ v
covered f index delta k v c small e enough =
    let low = lsb_bounds 64 k small (ground arith) in
    let above = entry-le-psum f index k (ground arith) in
    let below = psum_mono f (k - lsb 64 k) index (ground arith) in omega arith

node_sub :
    (f : ℕ → ℕ) (index delta k v : ℕ)
    → 0 < k
    → k < 2 ^ 64
    → delta ≤ f index
    → v + psum f (k - lsb 64 k) ≡ psum f k
    → (if covers 64 k (index + 1) then v - delta else v)
        + psum (change f index (λ q. q - delta)) (k - lsb 64 k)
      ≡ psum (change f index (λ q. q - delta)) k
node_sub f index delta k v p small enough e =
    let low = lsb_bounds 64 k small p in
    let before = psum-sub f index delta (k - lsb 64 k) enough in
    let after = psum-sub f index delta k enough in
    elim (Bool-cases (covers 64 k (index + 1))) [
      | inl c ↦ let held = covered f index delta k v c small e enough in rw c (ground arith)
      | inr c ↦ rw c (ground arith)
    ]

-- In a tree that stands for `f`, at an index inside it, an addition after which the sum of all
-- entries is below 2^64 succeeds; the tree keeps its size and stands for `f` with that entry
-- increased.
pub add-Represents :
    (t : FenwickTree) (f : ℕ → ℕ) (index delta : ℕ)
    → Represents t f
    → index + 1 < length t.nodes
    → psum f (length t.nodes) + delta < u64_mod
    → (t' : FenwickTree) × (add t index delta ≡ ok t')
      × (length t'.nodes ≡ length t.nodes)
      × Represents t' (change f index (λ q. q + delta))
unfolding add
add-Represents t f index delta r inside bound =
    let good : Computes (λ v. add64 v delta) (λ v. v + delta) t.nodes (index + 1) = λ k hk c.
      add64_ok (get_or t.nodes k 0) delta
        (ground (arith, r.node k, psum_mono f k (length t.nodes))) in
    let (nodes', run, (len, node)) =
      climb-Climbed (λ v. add64 v delta) (λ v. v + delta) (length t.nodes + 1) t.nodes (index + 1)
        (omega arith) r.small (omega arith) good in
    (
      record { nodes = nodes' },
      rw (add64_ok index 1 (omega (arith, r.small)), run),
      len,
      record {
        small = rw len r.small;
        node = λ k p q.
            let q' : k < length t.nodes = omega (arith, len) in
            rw (node k p q') (
              node_add f index delta k (get_or t.nodes k 0) p (omega (arith, r.small))
                (r.node k p q'));
      },
    )

-- In a tree that stands for `f`, at an index inside it, a subtraction of at most the entry
-- succeeds, so the debug assertion holds at every node; the tree keeps its size and stands for `f`
-- with that entry decreased.
pub sub-Represents :
    (t : FenwickTree) (f : ℕ → ℕ) (index delta : ℕ)
    → Represents t f
    → index + 1 < length t.nodes
    → delta ≤ f index
    → (t' : FenwickTree) × (sub t index delta ≡ ok t')
      × (length t'.nodes ≡ length t.nodes)
      × Represents t' (change f index (λ q. q - delta))
unfolding sub
sub-Represents t f index delta r inside enough =
    let good : Computes (λ v. do assert (leb delta v); ok (v - delta)) (λ v. v - delta) t.nodes
        (index + 1) =
      λ k hk c.
        let held =
          covered f index delta k (get_or t.nodes k 0) c (omega (arith, r.small))
            (r.node k (ground arith) hk) enough in
        rw (le→leb delta (get_or t.nodes k 0) held) in
    let (nodes', run, (len, node)) =
      climb-Climbed (λ v. do assert (leb delta v); ok (v - delta)) (λ v. v - delta)
        (length t.nodes + 1) t.nodes (index + 1) (omega arith) r.small (omega arith) good in
    (
      record { nodes = nodes' },
      rw (add64_ok index 1 (omega (arith, r.small)), run),
      len,
      record {
        small = rw len r.small;
        node = λ k p q.
            let q' : k < length t.nodes = omega (arith, len) in
            rw (node k p q') (
              node_sub f index delta k (get_or t.nodes k 0) p (omega (arith, r.small)) enough
                (r.node k p q'));
      },
    )
