-- ===== src/Book/SparseIndex.antt =====
-- crates/matchx-book/src/lib.rs: `SparseVolumeIndex`. On the sorted list of prices `binary_search`
-- and `partition_point` find the number of prices before the one sought, here by a scan.
use match_x.Base.{
  ℕ, zero, suc, ◌+◌, ◌-◌, List, [], ◌∷◌, ◌==◌, ltb, leb, if◌then◌else◌, Bool, Option, none, some,
  length, get_elem?, set, Exec, ok, ◌>>=◌, unwrap, add64, sub64,
}
use match_x.Book.Fenwick
use match_x.Book.Fenwick.{FenwickTree}

-- `partition_point`, `Vec::insert` and `Vec::remove` of the standard library
module _ {ℓ} {A : Type ℓ} where
  abbrev pub partition_point : (A → Bool) → List A → ℕ
  partition_point p [] = 0
  partition_point p (x ∷ xs) = if p x then suc (partition_point p xs) else 0

  abbrev pub insert_at : ℕ → A → List A → List A
  insert_at zero v xs = v ∷ xs
  insert_at (suc i) v [] = v ∷ []
  insert_at (suc i) v (x ∷ xs) = x ∷ insert_at i v xs

  abbrev pub remove_at : ℕ → List A → List A
  remove_at i [] = []
  remove_at zero (x ∷ xs) = xs
  remove_at (suc i) (x ∷ xs) = x ∷ remove_at i xs

pub record SparseIndex : Type 0 where
  pub prices : List ℕ
  pub qtys : List ℕ
  pub fenwick : FenwickTree

unfoldable pub new : SparseIndex
unfolding Fenwick.new
new = record { prices = []; qtys = []; fenwick = Fenwick.new 0 }

abbrev rank : ℕ → List ℕ → ℕ
rank price prices = partition_point (λ p. ltb p price) prices

-- the rank, if the price is there: `binary_search(..)` is `Ok`
unfoldable pub binary_search : ℕ → List ℕ → Option ℕ
binary_search price prices = elim (get_elem? prices (rank price prices)) [
  | none ↦ none
  | some p ↦ if p == price then some (rank price prices) else none
]

-- the loop of `rebuild_fenwick` from entry `i` on
unfoldable pub add_all : List ℕ → ℕ → FenwickTree → Exec FenwickTree
add_all [] i t = ok t
add_all (qty ∷ rest) i t = do
  t' ← (if ltb 0 qty then Fenwick.add t i qty else ok t)
  add_all rest (i + 1) t'

unfoldable pub rebuild_fenwick : SparseIndex → Exec SparseIndex
unfolding add_all Fenwick.new Fenwick.add
rebuild_fenwick s = do
  t ← add_all s.qtys 0 (Fenwick.new (length s.prices))
  ok (record s { fenwick = t })

unfoldable pub add : SparseIndex → ℕ → ℕ → Exec SparseIndex
unfolding binary_search rebuild_fenwick
add s price qty = elim (binary_search price s.prices) [
  | some r ↦ do
    q ← unwrap (get_elem? s.qtys r)
    q' ← add64 q qty
    t ← Fenwick.add s.fenwick r qty
    ok (record s { qtys = set s.qtys r q'; fenwick = t })
  | none ↦ rebuild_fenwick (record s {
    prices = insert_at (rank price s.prices) price s.prices;
    qtys = insert_at (rank price s.prices) qty s.qtys;
  })
]

unfoldable pub sub : SparseIndex → ℕ → ℕ → Exec SparseIndex
unfolding binary_search rebuild_fenwick Fenwick.sub
sub s price qty = do
  r ← unwrap (binary_search price s.prices)
  q ← unwrap (get_elem? s.qtys r)
  q' ← sub64 q qty
  t ← Fenwick.sub s.fenwick r qty
  (if q' == 0
      then rebuild_fenwick (record s {
        prices = remove_at r s.prices;
        qtys = remove_at r (set s.qtys r q');
        fenwick = t;
      })
      else ok (record s { qtys = set s.qtys r q'; fenwick = t }))

unfoldable pub sum_at_or_below : SparseIndex → ℕ → Exec ℕ
unfolding Fenwick.prefix_sum
sum_at_or_below s price =
    let n = partition_point (λ p. leb p price) s.prices in
    if n == 0 then ok 0 else Fenwick.prefix_sum s.fenwick (n - 1)

unfoldable pub sum_at_or_above : SparseIndex → ℕ → Exec ℕ
unfolding Fenwick.prefix_sum
sum_at_or_above s price =
    let start = partition_point (λ p. ltb p price) s.prices in
    let n = length s.prices in
    if leb n start then ok 0 else (do
      total ← Fenwick.prefix_sum s.fenwick (n - 1)
      before ← (if ltb 0 start then Fenwick.prefix_sum s.fenwick (start - 1) else ok 0)
      sub64 total before)
