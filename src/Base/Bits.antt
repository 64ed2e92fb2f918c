-- ===== src/Base/Bits.antt =====
-- The lowest set bit of a number, and `x & -x` on words of any width.
use Prim.Native.Nat.{
  ℕ, zero, suc, ◌+◌, ◌-◌, ◌*◌, ◌/◌, ◌%◌, ◌^◌, ◌≤◌, ◌<◌, min, bit_and, digits, bit_and-bitwise,
}
use mathlib.Core.Path.{◌≡◌, refl}
use native.Mathlib.Nat.{pow-suc}
use native.Mathlib.Omega.{arith}
use mathlib.Core.Logic.{inl, inr}
use match_x.Base.Tests.{◌==◌, if◌then◌else◌, Bool-cases}

-- `bit_and` digit by digit, for any bound on the number of digits
digit_and : ℕ → ℕ → ℕ → ℕ
digit_and n x y = digits (λ _. zero) min n x y

digit_and-bound : (n m x y : ℕ) → x ≤ n → x ≤ m → digit_and n x y ≡ digit_and m x y
unfolding digit_and
digit_and-bound zero zero x y p q = refl
digit_and-bound zero (suc m) zero y p q = refl
digit_and-bound zero (suc m) (suc x) y p q = absurd (omega arith)
digit_and-bound (suc n) zero zero y p q = refl
digit_and-bound (suc n) zero (suc x) y p q = absurd (omega arith)
digit_and-bound (suc n) (suc m) zero y p q = refl
digit_and-bound (suc n) (suc m) (suc x) y p q =
    omega (arith, digit_and-bound n m (suc x / 2) (y / 2) (omega arith) (omega arith))

pub bit_and-halves : (x y : ℕ) → bit_and x y ≡ bit_and (x / 2) (y / 2) * 2 + min (x % 2) (y % 2)
unfolding digit_and digit_and-bound
bit_and-halves zero y = omega (arith, bit_and-bitwise 0 y, bit_and-bitwise 0 (y / 2))
bit_and-halves (suc x) y = omega (
  arith,
  bit_and-bitwise (suc x) y,
  bit_and-bitwise (suc x / 2) (y / 2),
  digit_and-bound x (suc x / 2) (suc x / 2) (y / 2) (omega arith) (omega arith),
)

-- A number and its complement share no bit.
bit_and-complement : (w x : ℕ) → x < 2 ^ w → bit_and x (2 ^ w - 1 - x) ≡ 0
bit_and-complement zero zero h = refl
bit_and-complement zero (suc x) h = absurd (omega arith)
bit_and-complement (suc w) x h =
    let half : (2 ^ suc w - 1 - x) / 2 ≡ 2 ^ w - 1 - x / 2 = omega (arith, pow-suc 2 w) in
    rw (bit_and-halves x (2 ^ suc w - 1 - x), half)
      (omega (arith, pow-suc 2 w, bit_and-complement w (x / 2) (omega (arith, pow-suc 2 w))))

-- The lowest set bit of a number below 2 ^ w.
unfoldable pub lsb : ℕ → ℕ → ℕ
lsb zero i = 0
lsb (suc w) i = if i % 2 == 1 then 1 else 2 * lsb w (i / 2)

pub bit_and_neg : (w i : ℕ) → i < 2 ^ w → bit_and i (2 ^ w - i) ≡ lsb w i
unfolding lsb
bit_and_neg zero zero h = refl
bit_and_neg zero (suc i) h = absurd (omega arith)
bit_and_neg (suc w) i h = elim (Bool-cases (i % 2 == 1)) [
  | inl odd ↦
      let half : (2 ^ suc w - i) / 2 ≡ 2 ^ w - 1 - i / 2 = ground (arith, pow-suc 2 w) in
      rw (odd, bit_and-halves i (2 ^ suc w - i), half)
        (ground (arith, pow-suc 2 w, bit_and-complement w (i / 2)))
  | inr even ↦
      let half : (2 ^ suc w - i) / 2 ≡ 2 ^ w - i / 2 = ground (arith, pow-suc 2 w) in
      rw (even, bit_and-halves i (2 ^ suc w - i), half)
        (ground (arith, pow-suc 2 w, bit_and_neg w (i / 2)))
]

-- The lowest set bit is positive and no more than the number.
pub lsb_bounds : (w i : ℕ) → i < 2 ^ w → 0 < i → (0 < lsb w i) × (lsb w i ≤ i)
unfolding lsb
lsb_bounds zero i h p = absurd (omega arith)
lsb_bounds (suc w) i h p = ground (arith, pow-suc 2 w, lsb_bounds w (i / 2))
