-- ===== src/Book/Bitset.antt =====
-- crates/matchx-book/src/lib.rs: the occupancy bitset, 64 ticks to a word.
use Prim.Native.Nat.{bit_and, bit_or}
use match_x.Base.{
  ℕ, zero, suc, ◌+◌, ◌-◌, ◌*◌, ◌/◌, ◌%◌, ◌^◌, List, [], ◌∷◌, ◌==◌, if◌then◌else◌, Option, none,
  some, get_elem?, set, Exec, ok, ◌>>=◌, unwrap, u64_max,
}

-- `occupied[word] |= 1 << bit` and `occupied[word] &= !(1 << bit)`
unfoldable pub set_bit : List ℕ → ℕ → Exec (List ℕ)
set_bit occupied tick = do
  word ← unwrap (get_elem? occupied (tick / 64))
  ok (set occupied (tick / 64) (bit_or word (2 ^ (tick % 64))))

unfoldable pub clear_bit : List ℕ → ℕ → Exec (List ℕ)
clear_bit occupied tick = do
  word ← unwrap (get_elem? occupied (tick / 64))
  ok (set occupied (tick / 64) (bit_and word (u64_max - 2 ^ (tick % 64))))

-- `leading_zeros` and `trailing_zeros` of u64
unfoldable pub bit_length : ℕ → ℕ → ℕ
bit_length zero x = 0
bit_length (suc n) x = if x == 0 then 0 else suc (bit_length n (x / 2))

unfoldable pub leading_zeros : ℕ → ℕ
unfolding bit_length
leading_zeros x = 64 - bit_length 64 x

unfoldable pub count_zeros : ℕ → ℕ → ℕ
count_zeros zero x = 0
count_zeros (suc n) x = if x % 2 == 1 then 0 else suc (count_zeros n (x / 2))

unfoldable pub trailing_zeros : ℕ → ℕ
unfolding count_zeros
trailing_zeros x = count_zeros 64 x

-- the scan from the last word back to word `w`
unfoldable pub highest_tick : ℕ → List ℕ → Option ℕ
unfolding leading_zeros
highest_tick w [] = none
highest_tick w (word ∷ words) = elim (highest_tick (w + 1) words) [
  | some tick ↦ some tick
  | none ↦ if word == 0 then none else some (w * 64 + (63 - leading_zeros word))
]

-- the scan from word `w` on
unfoldable pub lowest_tick : ℕ → List ℕ → Option ℕ
unfolding trailing_zeros
lowest_tick w [] = none
lowest_tick w (word ∷ words) =
    let rest = lowest_tick (w + 1) words in
    if word == 0 then rest else some (w * 64 + trailing_zeros word)

unfoldable pub highest : List ℕ → Option ℕ
unfolding highest_tick
highest occupied = highest_tick 0 occupied

unfoldable pub lowest : List ℕ → Option ℕ
unfolding lowest_tick
lowest occupied = lowest_tick 0 occupied
