-- ===== src/Base/Words.antt =====
-- Machine integers as native numbers. Arithmetic is that of the build with overflow checks: a
-- result that does not fit panics.
use Prim.Native.Nat.{ℕ, ◌+◌, ◌-◌, ◌^◌, ◌<◌, ◌≤◌}
use mathlib.Core.Path.{◌≡◌}
use native.Mathlib.Omega.{arith}
use match_x.Base.Tests.{ltb, leb, if◌then◌else◌}
use match_x.Base.Outcome.{Exec, ok, panic, ◌>>=◌, Ends, Ends-bind, Any}

abbrev pub u32_mod : ℕ
u32_mod = 2 ^ 32

abbrev pub u64_mod : ℕ
u64_mod = 2 ^ 64

abbrev pub u32_max : ℕ
u32_max = 4294967295

abbrev pub u64_max : ℕ
u64_max = 18446744073709551615

-- `a + b` and `a - b` on u64 and usize, `a + b` on u32
unfoldable pub add64 : ℕ → ℕ → Exec ℕ
add64 a b = if ltb (a + b) u64_mod then ok (a + b) else panic

unfoldable pub sub64 : ℕ → ℕ → Exec ℕ
sub64 a b = if leb b a then ok (a - b) else panic

unfoldable pub add32 : ℕ → ℕ → Exec ℕ
add32 a b = if ltb (a + b) u32_mod then ok (a + b) else panic

pub add64_ok : (a b : ℕ) → a + b < u64_mod → add64 a b ≡ ok (a + b)
unfolding add64
add64_ok a b h = ground arith

pub sub64_ok : (a b : ℕ) → b ≤ a → sub64 a b ≡ ok (a - b)
unfolding sub64
sub64_ok a b h = ground arith

pub add64-Ends : (a b : ℕ) → Ends (λ c. (c ≡ a + b) × (a + b < u64_mod)) (add64 a b)
unfolding add64
add64-Ends a b = ground arith

pub sub64-Ends : (a b : ℕ) → Ends (λ c. (c + b ≡ a)) (sub64 a b)
unfolding sub64
sub64-Ends a b = ground arith

pub add32-Ends : (a b : ℕ) → Ends (λ c. c ≡ a + b) (add32 a b)
unfolding add32
add32-Ends a b = ground arith

-- What a checked operation returns.
pub add64_sum : (a b c : ℕ) → add64 a b ≡ ok c → c ≡ a + b
unfolding add64
add64_sum a b c h = ground arith

pub add32_sum : (a b c : ℕ) → add32 a b ≡ ok c → c ≡ a + b
unfolding add32
add32_sum a b c h = ground arith

pub sub64_sum : (a b c : ℕ) → sub64 a b ≡ ok c → c + b ≡ a
unfolding sub64
sub64_sum a b c h = ground arith

-- What follows a checked operation may use its result.
module _ {ℓ} {B : Type ℓ} (Q : B → Type 0) where
  pub bind_add64 :
      (a b : ℕ) (f : ℕ → Exec B)
      → ((c : ℕ) → c ≡ a + b → a + b < u64_mod → Ends Q (f c))
      → Ends Q (add64 a b >>= f)
  bind_add64 a b f k = Ends-bind _ Q (add64 a b) f (add64-Ends a b) (λ c e. k c e.0 e.1)

  pub bind_sub64 :
      (a b : ℕ) (f : ℕ → Exec B) → ((c : ℕ) → c + b ≡ a → Ends Q (f c)) → Ends Q (sub64 a b >>= f)
  bind_sub64 a b f k = Ends-bind _ Q (sub64 a b) f (sub64-Ends a b) k

  pub bind_add32 :
      (a b : ℕ) (f : ℕ → Exec B) → ((c : ℕ) → c ≡ a + b → Ends Q (f c)) → Ends Q (add32 a b >>= f)
  bind_add32 a b f k = Ends-bind _ Q (add32 a b) f (add32-Ends a b) k

pub sub64-Ends-Any : (a b : ℕ) → Ends Any (sub64 a b)
unfolding sub64
sub64-Ends-Any a b = ground arith

pub add64-Ends-Any : (a b : ℕ) → Ends Any (add64 a b)
unfolding add64
add64-Ends-Any a b = ground arith
