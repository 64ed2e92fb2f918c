-- ===== src/Journal/Bytes.antt =====
-- Little-endian bytes (`to_le_bytes`, `from_le_bytes` of the standard library) and the reads of
-- `decode`, which keep the bytes from the current position on.
use native.Mathlib.Nat.{pow-suc}
use match_x.Base.{
  ℕ, zero, suc, ◌+◌, ◌*◌, ◌/◌, ◌%◌, ◌^◌, ◌<◌, ◌≡◌, refl, ap, leb, le→leb, List, [], ◌∷◌, ◌++◌,
  length, length-append, take, drop, take-append_exact, drop-append_exact, arith,
}
use match_x.Journal.Outcome.{Result, ok, invalid_data, require, ◌>>◌}

unfoldable pub to_le_bytes : ℕ → ℕ → List ℕ
to_le_bytes zero x = []
to_le_bytes (suc n) x = (x % 256) ∷ to_le_bytes n (x / 256)

unfoldable pub from_le_bytes : List ℕ → ℕ
from_le_bytes [] = 0
from_le_bytes (b ∷ bs) = b + 256 * from_le_bytes bs

-- The number in the next `n` bytes, and the bytes behind it.
unfoldable pub read_le : ℕ → List ℕ → Result (ℕ × List ℕ)
unfolding from_le_bytes
read_le n bs = do
  require (leb n (length bs)) invalid_data
  ok (from_le_bytes (take n bs), drop n bs)

pub length-to_le_bytes : (n x : ℕ) → length (to_le_bytes n x) ≡ n
unfolding to_le_bytes
length-to_le_bytes zero x = refl
length-to_le_bytes (suc n) x = ap suc (length-to_le_bytes n (x / 256))

pub from_le_bytes-to_le_bytes : (n x : ℕ) → x < 256 ^ n → from_le_bytes (to_le_bytes n x) ≡ x
unfolding to_le_bytes from_le_bytes
from_le_bytes-to_le_bytes zero x h = omega arith
from_le_bytes-to_le_bytes (suc n) x h =
    omega (arith, from_le_bytes-to_le_bytes n (x / 256) (omega (arith, pow-suc 256 n)))

-- What was written is read back.
pub read_le-to_le_bytes :
    (n x : ℕ) (rest : List ℕ) → x < 256 ^ n → read_le n (to_le_bytes n x ++ rest) ≡ ok (x, rest)
unfolding read_le
read_le-to_le_bytes n x rest h =
    let e = length-to_le_bytes n x in
    rw (
      le→leb n (length (to_le_bytes n x ++ rest))
          (omega (arith, e, length-append (to_le_bytes n x) rest)),
      take-append_exact n (to_le_bytes n x) rest e,
      drop-append_exact n (to_le_bytes n x) rest e,
      from_le_bytes-to_le_bytes n x h,
    )
