-- ===== src/Journal/Outcome.antt =====
-- crates/matchx-journal/src/lib.rs: `JournalError`, and results with it. A loop that the model
-- gives fuel has a third outcome, which the theorems on loops exclude.
use match_x.Base.{◌≡◌, refl, ◌⊎◌, inl, inr, Bool, true, false}

-- `io` stands for any `std::io::Error`.
pub data JournalError : Type 0 where
  io crc_mismatch invalid_data queue_full writer_stopped writer_degraded : JournalError

pub data Result {ℓ} (A : Type ℓ) : Type ℓ where
  ok : A → Result A
  err : JournalError → Result A
  out_of_fuel : Result A

infixl 5 ◌>>=◌ ◌>>◌
abbrev pub ◌>>=◌ {ℓ κ} : {A : Type ℓ} {B : Type κ} → Result A → (A → Result B) → Result B
ok a >>= f = f a
err e >>= f = err e
out_of_fuel >>= f = out_of_fuel

abbrev pub ◌>>◌ {ℓ} : {B : Type ℓ} → Result (Unit {0}) → Result B → Result B
m >> k = m >>= λ _. k

-- `if !test { return Err(e) }`
abbrev pub require : Bool → JournalError → Result (Unit {0})
require true e = ok tt
require false e = err e

-- A chain that ends well had a first part that ended well.
pub bind_ok :
    {A B : Type 0} {y : B} (first : Result A) (next : A → Result B)
    → (first >>= next) ≡ ok y
    → (x : A) × (first ≡ ok x) × (next x ≡ ok y)
bind_ok (err e) next h = cc
bind_ok out_of_fuel next h = cc
bind_ok (ok x) next h = (x, refl, h)

-- To split on a computed result and keep the equation.
pub Result-cases :
    {A : Type 0} (m : Result A)
    → ((a : A) × (m ≡ ok a)) ⊎ (((e : JournalError) × (m ≡ err e)) ⊎ (m ≡ out_of_fuel))
Result-cases (ok a) = inl (a, refl)
Result-cases (err e) = inr (inl (e, refl))
Result-cases out_of_fuel = inr (inr refl)
