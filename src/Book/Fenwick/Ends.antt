-- ===== src/Book/Fenwick/Ends.antt =====
-- The loops of `FenwickTree` end on any tree and any index: they panic or return.
use match_x.Base.{
  ℕ, zero, suc, ◌+◌, ◌-◌, ◌<◌, ◌==◌, List, length, length-set, set, get_elem?, ltb, leb, assert,
  ◌>>◌, if◌then◌else◌, Bool-cases, inl, inr, Exec, ok, Ends, Any, bind-Any, bind_unwrap, bind_add64,
  bind_sub64, sub64-Ends-Any, add64-Ends-Any, u64_mod, arith,
}
use match_x.Base.Bits.{lsb_bounds}
use match_x.Book.Fenwick.{FenwickTree, climb, descend, add, sub, prefix_sum, suffix_sum_ge}
use match_x.Book.Fenwick.Cover.{lowbit-lsb}

climb-Ends :
    (fuel : ℕ) (f : ℕ → Exec ℕ) (nodes : List ℕ) (i : ℕ)
    → ((v : ℕ) → Ends Any (f v))
    → 0 < i
    → i < u64_mod
    → length nodes - i < fuel
    → Ends Any (climb fuel f nodes i)
unfolding climb
climb-Ends zero f nodes i total pos small enough = absurd (omega arith)
climb-Ends (suc fuel) f nodes i total pos small enough = elim (Bool-cases (ltb i (length nodes))) [
  | inl inside ↦
      let low = lsb_bounds 64 i small pos in
      rw (inside, lowbit-lsb i pos small)
        (bind_unwrap Any (get_elem? nodes i) _ λ v _. bind-Any Any (f v) _ (total v) λ v'.
          bind_add64 Any i _ _ λ i' e fits.
            climb-Ends fuel f (set nodes i v') i' total (omega arith) (omega arith)
              (ground (arith, length-set nodes i v')))
  | inr outside ↦ rw outside tt
]

descend-Ends :
    (fuel : ℕ) (nodes : List ℕ) (i acc : ℕ)
    → i < u64_mod
    → i < fuel
    → Ends Any (descend fuel nodes i acc)
unfolding descend
descend-Ends zero nodes i acc small enough = absurd (omega arith)
descend-Ends (suc fuel) nodes i acc small enough = elim (Bool-cases (ltb 0 i)) [
  | inl pos ↦
      let p : 0 < i = ground arith in
      let low = lsb_bounds 64 i small p in
      rw (pos, lowbit-lsb i p small)
        (bind_unwrap Any (get_elem? nodes i) _ λ v _. bind_add64 Any acc v _ λ acc' _ _.
          bind_sub64 Any i _ _ λ i' e. descend-Ends fuel nodes i' acc' (omega arith) (omega arith))
  | inr done ↦ rw done tt
]

pub add-Ends : (t : FenwickTree) (index delta : ℕ) → Ends Any (add t index delta)
unfolding add
add-Ends t index delta = bind_add64 Any index 1 _ λ i e fits.
    bind-Any Any (climb (length t.nodes + 1) _ t.nodes i) _
      (climb-Ends (length t.nodes + 1) _ t.nodes i (λ v. add64-Ends-Any v delta) (omega arith)
        (omega arith) (omega arith))
      λ nodes. tt

shrink-Ends : (v delta : ℕ) → Ends Any (do assert (leb delta v); ok (v - delta))
shrink-Ends v delta = ground arith

pub sub-Ends : (t : FenwickTree) (index delta : ℕ) → Ends Any (sub t index delta)
unfolding sub
sub-Ends t index delta = bind_add64 Any index 1 _ λ i e fits.
    bind-Any Any (climb (length t.nodes + 1) _ t.nodes i) _
      (climb-Ends (length t.nodes + 1) _ t.nodes i (λ v. shrink-Ends v delta) (omega arith)
        (omega arith) (omega arith))
      λ nodes. tt

pub prefix_sum-Ends : (t : FenwickTree) (index : ℕ) → Ends Any (prefix_sum t index)
unfolding prefix_sum
prefix_sum-Ends t index =
    bind_add64 Any index 1 _
      λ i e fits. descend-Ends (i + 1) t.nodes i 0 (omega arith) (omega arith)

prefix_before-Ends :
    (t : FenwickTree) (index : ℕ) → Ends Any (if index == 0 then ok 0 else prefix_sum t (index - 1))
prefix_before-Ends t index = ground (arith, prefix_sum-Ends t (index - 1))

pub suffix_sum_ge-Ends : (t : FenwickTree) (index : ℕ) → Ends Any (suffix_sum_ge t index)
unfolding suffix_sum_ge
suffix_sum_ge-Ends t index = bind_sub64 Any (length t.nodes) 2 _ λ last _.
    bind-Any Any (prefix_sum t last) _ (prefix_sum-Ends t last)
      λ total. bind-Any Any _ _ (prefix_before-Ends t index) λ before. sub64-Ends-Any total before
