-- ===== src/Book/Fenwick/Query.antt =====
-- The sums that a Fenwick tree answers.
use match_x.Base.{
  ℕ, zero, suc, ◌+◌, ◌-◌, ◌<◌, ◌≡◌, sym, ap, length, get_or, get_elem?-get_or, lt→ltb, ◌==◌,
  if◌then◌else◌, ok, add64_ok, sub64_ok, u64_mod, arith,
}
use match_x.Base.Bits.{lsb, lsb_bounds}
use match_x.Book.Fenwick.{FenwickTree, descend, prefix_sum, suffix_sum_ge}
use match_x.Book.Fenwick.Cover.{lowbit-lsb}
use match_x.Book.Fenwick.Sums.{Represents, psum, psum_mono, psum_nil}

descend-psum :
    (t : FenwickTree) (f : ℕ → ℕ) (fuel i acc : ℕ)
    → Represents t f
    → i < length t.nodes
    → i < fuel
    → acc + psum f i < u64_mod
    → descend fuel t.nodes i acc ≡ ok (acc + psum f i)
unfolding descend
descend-psum t f zero i acc r inside enough bound = absurd (omega arith)
descend-psum t f (suc fuel) zero acc r inside enough bound = ap ok (omega (arith, psum_nil f))
descend-psum t f (suc fuel) (suc i) acc r inside enough bound =
    let k = suc i in
    let low = lsb_bounds 64 k (omega (arith, r.small)) (omega arith) in
    let node = r.node k (omega arith) inside in
    rw
      (
        lt→ltb 0 k (omega arith),
        get_elem?-get_or t.nodes k 0 inside,
        lowbit-lsb k (omega arith) (omega (arith, r.small)),
        add64_ok acc (get_or t.nodes k 0) (omega (arith, node)),
        sub64_ok k (lsb 64 k) low.1,
        descend-psum t f fuel (k - lsb 64 k) (acc + get_or t.nodes k 0) r (omega arith)
            (omega arith) (omega (arith, node)),
      )
      (ap ok (omega (arith, node)))

-- In a tree that stands for `f`, at an index inside it, with the sum of all entries below 2^64,
-- `prefix_sum` returns the sum of the entries up to and with the index.
pub prefix_sum-psum :
    (t : FenwickTree) (f : ℕ → ℕ) (index : ℕ)
    → Represents t f
    → index + 1 < length t.nodes
    → psum f (length t.nodes) < u64_mod
    → prefix_sum t index ≡ ok (psum f (index + 1))
unfolding prefix_sum
prefix_sum-psum t f index r inside bound =
    rw
      (
        add64_ok index 1 (omega (arith, r.small)),
        descend-psum t f (index + 1 + 1) (index + 1) 0 r inside (omega arith)
            (omega (arith, psum_mono f (index + 1) (length t.nodes))),
      )
      (ap ok (omega arith))

prefix_before :
    (t : FenwickTree) (f : ℕ → ℕ) (index : ℕ)
    → Represents t f
    → index < length t.nodes
    → psum f (length t.nodes) < u64_mod
    → (if index == 0 then ok 0 else prefix_sum t (index - 1)) ≡ ok (psum f index)
prefix_before t f zero r inside bound = ap ok (sym (psum_nil f))
prefix_before t f (suc i) r inside bound =
    let e : suc i - 1 + 1 ≡ suc i = omega arith in
    rw (prefix_sum-psum t f (suc i - 1) r (omega arith) bound, e) (ground arith)

-- In a tree of `size` entries that stands for `f`, at an index inside it, with the sum of all
-- entries below 2^64, `suffix_sum_ge` returns the sum of all entries less that of the entries
-- before the index.
pub suffix_sum_ge-psum :
    (t : FenwickTree) (f : ℕ → ℕ) (size index : ℕ)
    → Represents t f
    → length t.nodes ≡ size + 1
    → index < size
    → psum f (length t.nodes) < u64_mod
    → suffix_sum_ge t index ≡ ok (psum f size - psum f index)
unfolding suffix_sum_ge
suffix_sum_ge-psum t f size index r len inside bound =
    let last : length t.nodes - 2 + 1 ≡ size = omega (arith, len) in
    let before : (if index == 0 then ok 0 else prefix_sum t (index - 1)) ≡ ok (psum f index) =
      prefix_before t f index r (omega (arith, len)) bound in
    rw (
      sub64_ok (length t.nodes) 2 (omega (arith, len)),
      prefix_sum-psum t f (length t.nodes - 2) r (omega (arith, len)) bound,
      before,
      last,
      sub64_ok (psum f size) (psum f index) (psum_mono f index size (omega arith)),
    )
