-- ===== src/Base/Outcome.antt =====
-- The outcome of code that can panic. A loop that the model gives fuel has the third outcome when
-- the fuel runs out; the theorems on loops show that this never happens.
use mathlib.Core.Path.{◌≡◌, refl, subst}
use mathlib.Core.Logic.{◌≢◌, ◌⊎◌, inl, inr}
use mathlib.Core.Bool.{Bool, true, false}
use mathlib.Core.Option.{Option, none, some}

pub data Exec {ℓ} (A : Type ℓ) : Type ℓ where
  ok : A → Exec A
  panic : Exec A
  out_of_fuel : Exec A

infixl 5 ◌>>=◌ ◌>>◌
abbrev pub ◌>>=◌ {ℓ κ} : {A : Type ℓ} {B : Type κ} → Exec A → (A → Exec B) → Exec B
ok a >>= f = f a
panic >>= f = panic
out_of_fuel >>= f = out_of_fuel

abbrev pub ◌>>◌ {ℓ} : {B : Type ℓ} → Exec (Unit {0}) → Exec B → Exec B
m >> k = m >>= λ _. k

-- `assert!(b)`
abbrev pub assert : Bool → Exec (Unit {0})
assert true = ok tt
assert false = panic

-- `.unwrap()`, `.expect(..)` and an index out of bounds
abbrev pub unwrap {ℓ} : {A : Type ℓ} → Option A → Exec A
unwrap none = panic
unwrap (some a) = ok a

-- The code ends: it panics, or returns a value with the property. Fuel that runs out is neither.
abbrev pub Ends {ℓ} : {A : Type ℓ} → (A → Type 0) → Exec A → Type 0
Ends P (ok a) = P a
Ends P panic = Unit {0}
Ends P out_of_fuel = ⊥

module _ {ℓ κ} {A : Type ℓ} {B : Type κ} where
  pub Ends-bind :
      (P : A → Type 0) (Q : B → Type 0) (m : Exec A) (f : A → Exec B)
      → Ends P m
      → ((a : A) → P a → Ends Q (f a))
      → Ends Q (m >>= f)
  Ends-bind P Q (ok a) f p k = k a p
  Ends-bind P Q panic f p k = tt
  Ends-bind P Q out_of_fuel f p k = absurd p

  -- Inversion of a successful bind.
  pub bind_ok :
      (m : Exec A) (f : A → Exec B) {b : B} → (m >>= f) ≡ ok b → (a : A) × (m ≡ ok a) × (f a ≡ ok b)
  bind_ok (ok a) f h = (a, refl, h)
  bind_ok panic f h = cc
  bind_ok out_of_fuel f h = cc

pub ok_one : {A : Type 0} (x x' : A) → ok x ≡ ok x' → x ≡ x'
ok_one x x' h = cc

pub ok_two :
    {A B : Type 0} (x x' : A) (y y' : B)
    → ◌≡◌ {A = Exec (A × B)} (ok (x, y)) (ok (x', y'))
    → (x ≡ x') × (y ≡ y')
ok_two x x' y y' h = (cc, cc)

pub ok_three :
    {A B C : Type 0} (x x' : A) (y y' : B) (z z' : C)
    → ◌≡◌ {A = Exec (A × B × C)} (ok (x, y, z)) (ok (x', y', z'))
    → (x ≡ x') × (y ≡ y') × (z ≡ z')
ok_three x x' y y' z z' h = (cc, cc, cc)

pub ok_four :
    {A B C D : Type 0} (x x' : A) (y y' : B) (z z' : C) (w w' : D)
    → ◌≡◌ {A = Exec (A × B × C × D)} (ok (x, y, z, w)) (ok (x', y', z', w'))
    → (x ≡ x') × (y ≡ y') × (z ≡ z') × (w ≡ w')
ok_four x x' y y' z z' w w' h = (cc, cc, cc, cc)

-- To split on a computed outcome and keep the equation.
pub Exec-cases {ℓ} :
    {A : Type ℓ} (m : Exec A) → ((a : A) × (m ≡ ok a)) ⊎ ((m ≡ panic) ⊎ (m ≡ out_of_fuel))
Exec-cases (ok a) = inl (a, refl)
Exec-cases panic = inr (inl refl)
Exec-cases out_of_fuel = inr (inr refl)

Ends-imp {ℓ} :
    {A : Type ℓ} (P Q : A → Type 0) (m : Exec A) → Ends P m → ((a : A) → P a → Q a) → Ends Q m
Ends-imp P Q (ok a) p k = k a p
Ends-imp P Q panic p k = tt
Ends-imp P Q out_of_fuel p k = absurd p

-- What a run that ends and returns tells.
Ends-ok {ℓ} : {A : Type ℓ} (P : A → Type 0) (m : Exec A) {a : A} → Ends P m → m ≡ ok a → P a
Ends-ok P m h e = subst (Ends P) e h

abbrev pub Any {ℓ} : {A : Type ℓ} → A → Type 0
Any a = Unit {0}

module _ {ℓ κ} {A : Type ℓ} {B : Type κ} (Q : B → Type 0) where
  pub bind-Any :
      (m : Exec A) (f : A → Exec B) → Ends Any m → ((a : A) → Ends Q (f a)) → Ends Q (m >>= f)
  bind-Any m f p k = Ends-bind Any Q m f p (λ a _. k a)

  pub bind_unwrap :
      (o : Option A) (f : A → Exec B)
      → ((a : A) → o ≡ some a → Ends Q (f a))
      → Ends Q (unwrap o >>= f)
  bind_unwrap none f k = tt
  bind_unwrap (some a) f k = k a refl

  bind-Ends :
      (P : A → Type 0) (m : Exec A) (f : A → Exec B)
      → Ends P m
      → ((a : A) → P a → Ends Q (f a))
      → Ends Q (m >>= f)
  bind-Ends P m f p k = Ends-bind P Q m f p k

module _ {ℓ} {B : Type ℓ} (Q : B → Type 0) where
  bind_assert : (b : Bool) (m : Exec B) → (b ≡ true → Ends Q m) → Ends Q (assert b >> m)
  bind_assert true m k = k refl
  bind_assert false m k = tt

pub fuel_of_Ends {ℓ} : {A : Type ℓ} (P : A → Type 0) (m : Exec A) → Ends P m → m ≢ out_of_fuel
fuel_of_Ends P (ok a) p e = cc
fuel_of_Ends P panic p e = cc
fuel_of_Ends P out_of_fuel p e = absurd p
