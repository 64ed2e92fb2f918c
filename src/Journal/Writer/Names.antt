-- ===== src/Journal/Writer/Names.antt =====
-- Up to eight digits the names of segments sort as their indices do.
use native.Mathlib.Nat.{div-add-mod', div-mul-le_self, le-div_iff_mul-le, mod-lt}
use match_x.Base.{
  ℕ, zero, suc, ◌*◌, ◌/◌, ◌%◌, ◌^◌, ◌≤◌, ◌<◌, ◌≡◌, refl, ap, dec_lt, true, false, List, [], ◌∷◌,
  ◌++◌, ◌⊎◌, inl, inr, arith,
}
use match_x.Journal.Writer.{digits, widen, segment_path, sorts_before}

power_pos : (w : ℕ) → 0 < 10 ^ w
power_pos zero = omega arith
power_pos (suc w) = omega (arith, power_pos w)

-- The first digit decides, or the digits behind it.
first_digit : (k i n : ℕ) → 0 < k → i < n → (i / k < n / k) ⊎ ((i / k ≡ n / k) × (i % k < n % k))
first_digit k i n pos h =
    let at_most : i / k ≤ n / k = (le-div_iff_mul-le pos).1 (omega (arith, div-mul-le_self i k)) in
    elim (dec_lt (i / k) (n / k)) [
      | yes less ↦ inl less
      | no more ↦
          let same : i / k ≡ n / k = omega (arith, at_most, more) in
          inr (same, omega (arith, h, ap (λ q. q * k) same, div-add-mod' i k, div-add-mod' n k))
    ]

sorts-digits :
    (w i n : ℕ) (end : List ℕ)
    → i < n
    → n < 10 ^ w
    → sorts_before (digits w i ++ end) (digits w n ++ end) ≡ true
unfolding sorts_before digits
sorts-digits zero i n end h fits = absurd (omega arith)
sorts-digits (suc w) i n end h fits = elim (first_digit (10 ^ w) i n (power_pos w) h) [
  | inl less ↦ ground arith
  | inr (same, rest) ↦
      let later = sorts-digits w (i % 10 ^ w) (n % 10 ^ w) end rest (mod-lt n (power_pos w)) in
      ground arith
]

sorts_back : (xs ys : List ℕ) → sorts_before xs ys ≡ true → sorts_before ys xs ≡ false
unfolding sorts_before
sorts_back xs [] h = absurd (ground arith)
sorts_back [] (y ∷ ys) h = refl
sorts_back (x ∷ xs) (y ∷ ys) h = ground (arith, sorts_back xs ys)

eight_digits : (n : ℕ) → n < 10 ^ 8 → widen 12 8 n ≡ 8
unfolding widen
eight_digits n h = ground arith

pub sorts-segment_path :
    (i n : ℕ)
    → i < n
    → n < 10 ^ 8
    → (sorts_before (segment_path i) (segment_path n) ≡ true)
      × (sorts_before (segment_path n) (segment_path i) ≡ false)
unfolding segment_path sorts_before
sorts-segment_path i n h fits =
    let ending : List ℕ = 46 ∷ 119 ∷ 97 ∷ 108 ∷ [] in
    let before : sorts_before (segment_path i) (segment_path n) ≡ true =
      rw (eight_digits i (omega arith), eight_digits n fits) (sorts-digits 8 i n ending h fits) in
    (before, sorts_back (segment_path i) (segment_path n) before)
