-- ===== src/Book/Fenwick/Cover.antt =====
-- Node `k` of a Fenwick tree stands for the entries from `k - lsb k` up to `k`, the last excluded.
-- The nodes on the way up from node `i` are those that stand for entry `i - 1`.
use native.Mathlib.Nat.{pow-suc}
use match_x.Base.{
  ℕ, zero, suc, ◌+◌, ◌-◌, ◌^◌, ◌/◌, ◌%◌, ◌<◌, ◌≡◌, Bool, ◌&&◌, ◌||◌, ◌==◌, ltb, leb, u64_mod, arith,
}
use match_x.Base.Bits.{lsb, lsb_bounds, bit_and_neg}
use match_x.Book.Fenwick.{lowbit}

abbrev pub covers : ℕ → ℕ → ℕ → Bool
covers w k i = ltb k (i + lsb w k) && leb i k

pub lowbit-lsb : (i : ℕ) → 0 < i → i < u64_mod → lowbit i ≡ lsb 64 i
unfolding lowbit
lowbit-lsb i p h =
    let small : (u64_mod - i) % u64_mod ≡ u64_mod - i = omega arith in rw small (bit_and_neg 64 i h)

pub covers_step :
    (w k i : ℕ)
    → k < 2 ^ w
    → i < 2 ^ w
    → 0 < k
    → 0 < i
    → covers w k i ≡ ((k == i) || covers w k (i + lsb w i))
unfolding lsb
covers_step zero k i hk hi pk pi = absurd (omega arith)
covers_step (suc w) k i hk hi pk pi =
    ground (
      arith,
      pow-suc 2 w,
      covers_step w (k / 2) (i / 2),
      lsb_bounds w (k / 2),
      lsb_bounds w (i / 2),
    )
