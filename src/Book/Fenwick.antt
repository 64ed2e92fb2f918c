-- ===== src/Book/Fenwick.antt =====
-- crates/matchx-book/src/lib.rs: `FenwickTree`. Index arithmetic is on usize, here 64 bits wide.
pub mod Cover
pub mod Sums
pub mod Update
pub mod Query
pub mod Ends
use Prim.Native.Nat.{bit_and}
use match_x.Base.{
  ℕ, zero, suc, ◌+◌, ◌-◌, ◌%◌, List, ◌==◌, ltb, leb, if◌then◌else◌, length, get_elem?, set,
  replicate, Exec, ok, out_of_fuel, ◌>>=◌, ◌>>◌, assert, unwrap, add64, sub64, u64_mod,
}

pub record FenwickTree : Type 0 where
  pub nodes : List ℕ

unfoldable pub new : ℕ → FenwickTree
new size = record { nodes = replicate (size + 1) 0 }

-- `i & i.wrapping_neg()`
unfoldable pub lowbit : ℕ → ℕ
lowbit i = bit_and i ((u64_mod - i) % u64_mod)

-- A walk towards the root from node `i`, which changes each node by `f`.
climb : ℕ → (ℕ → Exec ℕ) → List ℕ → ℕ → Exec (List ℕ)
climb zero f nodes i = out_of_fuel
climb (suc fuel) f nodes i =
    if ltb i (length nodes)
    then (do
      v ← unwrap (get_elem? nodes i)
      v' ← f v
      i' ← add64 i (lowbit i)
      climb fuel f (set nodes i v') i')
    else ok nodes

unfoldable pub add : FenwickTree → ℕ → ℕ → Exec FenwickTree
unfolding climb lowbit
add t index delta = do
  i ← add64 index 1
  nodes ← climb (length t.nodes + 1) (λ v. add64 v delta) t.nodes i
  ok (record { nodes = nodes })

-- The debug assertion makes the `saturating_sub` exact.
unfoldable pub sub : FenwickTree → ℕ → ℕ → Exec FenwickTree
unfolding climb lowbit
sub t index delta = do
  i ← add64 index 1
  nodes ← climb (length t.nodes + 1) (λ v. do assert (leb delta v); ok (v - delta)) t.nodes i
  ok (record { nodes = nodes })

descend : ℕ → List ℕ → ℕ → ℕ → Exec ℕ
descend zero nodes i acc = out_of_fuel
descend (suc fuel) nodes i acc =
    if ltb 0 i
    then (do
      v ← unwrap (get_elem? nodes i)
      acc' ← add64 acc v
      i' ← sub64 i (lowbit i)
      descend fuel nodes i' acc')
    else ok acc

-- Sum of the entries from 0 to `index`.
unfoldable pub prefix_sum : FenwickTree → ℕ → Exec ℕ
unfolding descend lowbit
prefix_sum t index = do i ← add64 index 1; descend (i + 1) t.nodes i 0

unfoldable pub prefix_sum_le : FenwickTree → ℕ → Exec ℕ
unfolding prefix_sum
prefix_sum_le t index = prefix_sum t index

-- Sum of the entries from `index` on.
unfoldable pub suffix_sum_ge : FenwickTree → ℕ → Exec ℕ
suffix_sum_ge t index = do
  last ← sub64 (length t.nodes) 2
  total ← prefix_sum t last
  before ← (if index == 0 then ok 0 else prefix_sum t (index - 1))
  sub64 total before
