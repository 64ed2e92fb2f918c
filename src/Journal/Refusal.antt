-- ===== src/Journal/Refusal.antt =====
-- The errors with which crates/matchx-journal/src/codec.rs refuses bytes.
use match_x.Base.{
  ℕ, ◌+◌, ◌≡◌, refl, ◌⊎◌, inl, inr, ◌==◌, Bool, true, false, if◌then◌else◌, leb, List, ◌++◌, length,
  take, drop, subst,
}
use match_x.Journal.Outcome.{
  JournalError, Result, ok, err, out_of_fuel, invalid_data, crc_mismatch, require, ◌>>=◌,
}
use match_x.Journal.Bytes.{read_le, to_le_bytes, from_le_bytes}
use match_x.Journal.Codec.{
  decode_side, decode_order_type, decode_tif, read_option, decode_new_order, decode_modify_order,
  decode, decode_record, max_payload,
}

-- an error that ends the scan of `recover_file`
abbrev pub Stops : JournalError → Type 0
Stops e = (e ≡ invalid_data) ⊎ (e ≡ crc_mismatch)

abbrev Refused : {A : Type 0} → Result A → Type 0
Refused (ok a) = Unit {0}
Refused (err e) = Stops e
Refused out_of_fuel = Unit {0}

Refused-bind :
    {A B : Type 0} (m : Result A) (f : A → Result B)
    → Refused m
    → ((a : A) → Refused (f a))
    → Refused (m >>= f)
Refused-bind (ok a) f h k = k a
Refused-bind (err e) f h k = h
Refused-bind out_of_fuel f h k = tt

Refused-if :
    {A : Type 0} (b : Bool) (x y : Result A) → Refused x → Refused y → Refused (if b then x else y)
Refused-if true x y h k = h
Refused-if false x y h k = k

Refused-require : (b : Bool) (e : JournalError) → Stops e → Refused (require b e)
Refused-require true e h = tt
Refused-require false e h = h

-- `InvalidData`
invalid : Stops invalid_data
invalid = inl refl

Refused-read_le : (n : ℕ) (bs : List ℕ) → Refused (read_le n bs)
unfolding read_le
Refused-read_le n bs =
    Refused-bind (require (leb n (length bs)) invalid_data) _
      (Refused-require (leb n (length bs)) invalid_data invalid) (λ x. tt)

Refused-decode_side : (b : ℕ) → Refused (decode_side b)
unfolding decode_side
Refused-decode_side b = Refused-if (b == 0) _ _ tt (Refused-if (b == 1) _ _ tt invalid)

Refused-decode_order_type : (b : ℕ) → Refused (decode_order_type b)
unfolding decode_order_type
Refused-decode_order_type b = Refused-if (b == 0) _ _ tt (
    Refused-if (b == 1) _ _ tt (
      Refused-if (b == 2) _ _ tt (Refused-if (b == 3) _ _ tt (Refused-if (b == 4) _ _ tt invalid))))

Refused-decode_tif : (b : ℕ) → Refused (decode_tif b)
unfolding decode_tif
Refused-decode_tif b =
    Refused-if (b == 0) _ _ tt (Refused-if (b == 1) _ _ tt (Refused-if (b == 2) _ _ tt invalid))

Refused-read_option : (n : ℕ) (bs : List ℕ) → Refused (read_option n bs)
unfolding read_option
Refused-read_option n bs = Refused-bind (read_le 1 bs) _ (Refused-read_le 1 bs) (λ t.
    Refused-if (t.0 == 0) _ _ tt (
      Refused-if (t.0 == 1) _ _ (Refused-bind (read_le n t.1) _ (Refused-read_le n t.1) (λ x. tt))
        invalid))

Refused-decode_new_order : (bs : List ℕ) → Refused (decode_new_order bs)
unfolding decode_new_order
Refused-decode_new_order bs = Refused-bind (read_le 8 bs) _ (Refused-read_le 8 bs) (λ a.
    Refused-bind (read_le 4 a.1) _ (Refused-read_le 4 a.1) (λ b.
      Refused-bind (read_le 1 b.1) _ (Refused-read_le 1 b.1) (λ c.
        Refused-bind (decode_side c.0) _ (Refused-decode_side c.0) (λ side.
          Refused-bind (read_le 8 c.1) _ (Refused-read_le 8 c.1) (λ d.
            Refused-bind (read_le 8 d.1) _ (Refused-read_le 8 d.1) (λ e.
              Refused-bind (read_le 1 e.1) _ (Refused-read_le 1 e.1) (λ f.
                Refused-bind (decode_order_type f.0) _ (Refused-decode_order_type f.0) (λ type.
                  Refused-bind (read_le 1 f.1) _ (Refused-read_le 1 f.1) (λ g.
                    Refused-bind (decode_tif g.0) _ (Refused-decode_tif g.0) (λ tif.
                      Refused-bind (read_option 8 g.1) _ (Refused-read_option 8 g.1) (λ h.
                        Refused-bind (read_option 8 h.1) _ (Refused-read_option 8 h.1) (λ i.
                          Refused-bind (read_option 4 i.1) _ (Refused-read_option 4 i.1)
                            (λ j. tt)))))))))))))

Refused-decode_modify_order : (bs : List ℕ) → Refused (decode_modify_order bs)
unfolding decode_modify_order
Refused-decode_modify_order bs = Refused-bind (read_le 8 bs) _ (Refused-read_le 8 bs) (λ a.
    Refused-bind (read_le 8 a.1) _ (Refused-read_le 8 a.1)
      (λ b. Refused-bind (read_le 8 b.1) _ (Refused-read_le 8 b.1) (λ c. tt)))

Refused-decode : (bs : List ℕ) → Refused (decode bs)
unfolding decode
Refused-decode bs = Refused-bind (read_le 1 bs) _ (Refused-read_le 1 bs) (λ c.
    Refused-if (c.0 == 0) _ _ (Refused-decode_new_order c.1) (
      Refused-if (c.0 == 1) _ _ (Refused-bind (read_le 8 c.1) _ (Refused-read_le 8 c.1) (λ x. tt))
        (Refused-if (c.0 == 2) _ _ (Refused-decode_modify_order c.1) invalid)))

Refused-decode_record : (crc : List ℕ → ℕ) (bs : List ℕ) → Refused (decode_record crc bs)
unfolding decode_record
Refused-decode_record crc bs =
    Refused-bind (require (leb 4 (length bs)) invalid_data) _
      (Refused-require (leb 4 (length bs)) invalid_data invalid)
      (λ _.
        Refused-bind (require (leb (from_le_bytes (take 4 bs)) max_payload) invalid_data) _
          (Refused-require (leb (from_le_bytes (take 4 bs)) max_payload) invalid_data invalid)
          (λ _.
            Refused-bind
              (require (leb (4 + 8 + from_le_bytes (take 4 bs) + 4) (length bs)) invalid_data) _
              (Refused-require (leb (4 + 8 + from_le_bytes (take 4 bs) + 4) (length bs))
                invalid_data invalid)
              (λ _.
                Refused-bind
                  (require
                    (crc (
                        to_le_bytes 8 (from_le_bytes (take 8 (drop 4 bs)))
                        ++ take (from_le_bytes (take 4 bs)) (drop 12 bs))
                      == from_le_bytes (take 4 (drop (12 + from_le_bytes (take 4 bs)) bs)))
                    crc_mismatch)
                  _ (Refused-require _ crc_mismatch (inr refl))
                  (λ _.
                    Refused-bind (decode (take (from_le_bytes (take 4 bs)) (drop 12 bs))) _
                      (Refused-decode _) (λ cmd. tt)))))

-- `decode_record` has no other errors.
pub decode_record-Stops :
    (crc : List ℕ → ℕ) (bs : List ℕ) (e : JournalError) → decode_record crc bs ≡ err e → Stops e
decode_record-Stops crc bs e h = subst Refused h (Refused-decode_record crc bs)
