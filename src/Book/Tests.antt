-- ===== src/Book/Tests.antt =====
-- The witnesses on the Fenwick tree: a tree of eight entries with 5 at entry 2.
use match_x.Base.{ℕ, ◌+◌, ◌-◌, ◌<◌, ◌≡◌, length, length-replicate, ok, arith}
use match_x.Book.Fenwick.{FenwickTree, new, add, sub, prefix_sum, suffix_sum_ge}
use match_x.Book.Fenwick.Sums.{psum, change, Represents, new-Represents, psum-zero, psum-add}
use match_x.Book.Fenwick.Update.{add-Represents, sub-Represents}
use match_x.Book.Fenwick.Query.{prefix_sum-psum, suffix_sum_ge-psum}

abbrev no_quantity : ℕ → ℕ
no_quantity _ = 0

abbrev five : ℕ → ℕ
five = change no_quantity 2 (λ q. q + 5)

length-empty : length (new 8).nodes ≡ 9
unfolding new
length-empty = length-replicate {A = ℕ} 9 0

psum-five : (n : ℕ) → psum five n < 6
psum-five n = ground (arith, psum-add no_quantity 2 5 n, psum-zero n)

add-Represents_example :
    (t : FenwickTree) × (add (new 8) 2 5 ≡ ok t)
    × (length t.nodes ≡ length (new 8).nodes)
    × Represents t five
add-Represents_example =
    add-Represents (new 8) no_quantity 2 5 (new-Represents 8 (omega arith))
      (omega (arith, length-empty)) (omega (arith, psum-zero (length (new 8).nodes)))

-- the same tree, for the other witnesses
with_five :
    (t : FenwickTree) × (add (new 8) 2 5 ≡ ok t)
    × (length t.nodes ≡ length (new 8).nodes)
    × Represents t five
with_five =
    add-Represents (new 8) no_quantity 2 5 (new-Represents 8 (omega arith))
      (omega (arith, length-empty)) (omega (arith, psum-zero (length (new 8).nodes)))

sub-Represents_example :
    (t : FenwickTree) × (sub with_five.0 2 3 ≡ ok t)
    × (length t.nodes ≡ length with_five.0.nodes)
    × Represents t (change five 2 (λ q. q - 3))
sub-Represents_example =
    sub-Represents with_five.0 five 2 3 with_five.3 (omega (arith, with_five.2, length-empty))
      (omega arith)

prefix_sum-psum_example : prefix_sum with_five.0 3 ≡ ok (psum five 4)
prefix_sum-psum_example =
    prefix_sum-psum with_five.0 five 3 with_five.3 (omega (arith, with_five.2, length-empty))
      (omega (arith, psum-five (length with_five.0.nodes)))

suffix_sum_ge-psum_example : suffix_sum_ge with_five.0 1 ≡ ok (psum five 8 - psum five 1)
suffix_sum_ge-psum_example =
    suffix_sum_ge-psum with_five.0 five 8 1 with_five.3 (omega (arith, with_five.2, length-empty))
      (omega arith) (omega (arith, psum-five (length with_five.0.nodes)))
