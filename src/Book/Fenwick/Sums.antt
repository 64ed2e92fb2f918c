-- ===== src/Book/Fenwick/Sums.antt =====
-- What a Fenwick tree stands for: a quantity for each entry, read through its partial sums.
use match_x.Base.{
  ℕ, zero, suc, ◌+◌, ◌-◌, ◌^◌, ◌≤◌, ◌<◌, ◌≡◌, refl, dec_le, length-replicate, length, get_or,
  get_or-replicate, ltb, ◌==◌, if◌then◌else◌, arith,
}
use match_x.Base.Bits.{lsb}
use match_x.Book.Fenwick.{FenwickTree, new}

-- the sum of the first `n` entries
pub psum : (ℕ → ℕ) → ℕ → ℕ
psum f zero = 0
psum f (suc n) = psum f n + f n

pub psum_nil : (f : ℕ → ℕ) → psum f 0 ≡ 0
unfolding psum
psum_nil f = refl

-- one entry changed by `g`
abbrev pub change : (ℕ → ℕ) → ℕ → (ℕ → ℕ) → ℕ → ℕ
change f i g j = if j == i then g (f j) else f j

pub record Represents (t : FenwickTree) (f : ℕ → ℕ) : Type 0 where
  pub small : length t.nodes < 2 ^ 62
  pub node :
      (k : ℕ) → 0 < k → k < length t.nodes → get_or t.nodes k 0 + psum f (k - lsb 64 k) ≡ psum f k

pub psum_mono : (f : ℕ → ℕ) (m n : ℕ) → m ≤ n → psum f m ≤ psum f n
unfolding psum
psum_mono f m zero h = let e : m ≡ 0 = omega arith in rw e (omega arith)
psum_mono f m (suc n) h = elim (dec_le m n) [
  | yes p ↦ omega (arith, psum_mono f m n p)
  | no p ↦ let e : m ≡ suc n = omega arith in rw e (omega arith)
]

pub entry-le-psum : (f : ℕ → ℕ) (i n : ℕ) → i < n → f i + psum f i ≤ psum f n
unfolding psum
entry-le-psum f i n h = omega (arith, psum_mono f (suc i) n h)

pub psum-add :
    (f : ℕ → ℕ) (i d n : ℕ)
    → psum (change f i (λ q. q + d)) n ≡ psum f n + (if ltb i n then d else 0)
unfolding psum
psum-add f i d zero = ground arith
psum-add f i d (suc n) = ground (arith, psum-add f i d n)

pub psum-sub :
    (f : ℕ → ℕ) (i d n : ℕ)
    → d ≤ f i
    → psum (change f i (λ q. q - d)) n + (if ltb i n then d else 0) ≡ psum f n
unfolding psum
psum-sub f i d zero h = ground arith
psum-sub f i d (suc n) h = ground (arith, psum-sub f i d n)

pub psum-zero : (n : ℕ) → psum (λ _. 0) n ≡ 0
unfolding psum
psum-zero zero = refl
psum-zero (suc n) = omega (arith, psum-zero n)

-- A new tree stands for zeros.
pub new-Represents : (size : ℕ) → size + 1 < 2 ^ 62 → Represents (new size) (λ _. 0)
unfolding new
new-Represents size h = record {
  small = omega (arith, length-replicate {A = ℕ} (size + 1) 0);
  node = λ k p q.
      omega (arith, get_or-replicate {A = ℕ} (size + 1) k 0, psum-zero k, psum-zero (k - lsb 64 k));
}
