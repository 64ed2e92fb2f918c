-- ===== src/Journal/Records.antt =====
-- The framed records of crates/matchx-journal/src/codec.rs.
use mathlib.Core.List.{append_assoc, append-nil}
use native.Mathlib.Nat.{add_assoc, mod-eq_of_lt}
use match_x.Base.{
  ℕ, ◌+◌, ◌%◌, ◌^◌, ◌≤◌, ◌<◌, ◌≡◌, refl, ap, ◌∙◌, List, [], ◌++◌, Option, none, some, ◌==◌, length,
  length-append, take, drop, le→leb, lt→leb_false, ==_refl, length-take, take-take,
  take-append_exact, drop-append_exact, drop-append_add, subst, dec_lt, arith, u32_mod,
}
use match_x.Types.{Command, new_order, cancel_order, modify_order}
use match_x.Journal.Outcome.{Result, ok, err, invalid_data, crc_mismatch, require, ◌>>=◌, ◌>>◌}
use match_x.Journal.Bytes.{
  to_le_bytes, from_le_bytes, from_le_bytes-to_le_bytes, length-to_le_bytes,
}
use match_x.Journal.Codec.{option_bytes, encode, decode, encode_record, decode_record, max_payload}
use match_x.Journal.RoundTrip.{Fits, decode-encode}

length-option_bytes : (width : ℕ) (o : Option ℕ) → length (option_bytes width o) ≤ width + 1
unfolding option_bytes
length-option_bytes width none = omega arith
length-option_bytes width (some x) = omega (arith, length-to_le_bytes width x)

pub length-encode : (cmd : Command) → length (encode cmd) ≤ 55
unfolding encode
length-encode
      (new_order id instrument_id side price qty order_type tif visible_qty stop_price stp) =
    omega (
      arith,
      length-append {0},
      length-to_le_bytes,
      length-option_bytes 8 visible_qty,
      length-option_bytes 8 stop_price,
      length-option_bytes 4 stp,
    )
length-encode (cancel_order id) = omega (arith, length-to_le_bytes 8 id)
length-encode (modify_order id new_price new_qty) =
    omega (arith, length-append {0}, length-to_le_bytes)

drop-header :
    (h s p rest : List ℕ)
    → length h ≡ 4
    → length s ≡ 8
    → drop (12 + length p) (h ++ (s ++ (p ++ rest))) ≡ rest
drop-header h s p rest eh es = rw (
  add_assoc 4 8 (length p),
  drop-append_add 4 (8 + length p) h (s ++ (p ++ rest)) eh,
  drop-append_add 8 (length p) s (p ++ rest) es,
  drop-append_exact (length p) p rest refl,
)

decode-encode_all : (cmd : Command) → Fits cmd → decode (encode cmd) ≡ ok cmd
decode-encode_all cmd h =
    subst (λ bs. decode bs ≡ ok cmd) (append-nil (encode cmd)) (decode-encode cmd [] h)

-- the length field of a record
from_le_bytes-header :
    (cmd : Command)
    → from_le_bytes (to_le_bytes 4 (length (encode cmd) % u32_mod)) ≡ length (encode cmd)
from_le_bytes-header cmd =
    from_le_bytes-to_le_bytes 4 (length (encode cmd) % u32_mod) (omega arith)
    ∙ mod-eq_of_lt (omega (arith, length-encode cmd))

module _ (crc : List ℕ → ℕ) where
  -- What is left of `decode_record` once the record's parts are known.
  abbrev verify : ℕ → List ℕ → ℕ → Result (ℕ × Command × ℕ)
  verify sequence payload stored_crc = do
    require (crc (to_le_bytes 8 sequence ++ payload) == stored_crc) crc_mismatch
    cmd ← decode payload
    ok (sequence, cmd, 4 + 8 + length payload + 4)

  decode_record_parts :
      (h s p c rest : List ℕ)
      → length h ≡ 4
      → length s ≡ 8
      → length c ≡ 4
      → from_le_bytes h ≡ length p
      → length p ≤ max_payload
      → decode_record crc (h ++ (s ++ (p ++ (c ++ rest))))
        ≡ verify (from_le_bytes s) p (from_le_bytes c)
  unfolding decode_record
  decode_record_parts h s p c rest eh es ec el bound = rw (
    take-append_exact 4 h (s ++ (p ++ (c ++ rest))) eh,
    el,
    le→leb 4 (length (h ++ (s ++ (p ++ (c ++ rest))))) (omega (arith, eh, length-append {0})),
    le→leb (length p) 1048576 bound,
    le→leb (4 + 8 + length p + 4) (length (h ++ (s ++ (p ++ (c ++ rest)))))
        (omega (arith, eh, es, ec, length-append {0})),
    drop-append_exact 4 h (s ++ (p ++ (c ++ rest))) eh,
    take-append_exact 8 s (p ++ (c ++ rest)) es,
    drop-append_add 4 8 h (s ++ (p ++ (c ++ rest))) eh,
    drop-append_exact 8 s (p ++ (c ++ rest)) es,
    take-append_exact (length p) p (c ++ rest) refl,
    drop-header h s p (c ++ rest) eh es,
    take-append_exact 4 c rest ec,
  )

  record_layout :
      (sequence : ℕ) (cmd : Command) (rest : List ℕ)
      → encode_record crc sequence cmd ++ rest
        ≡ to_le_bytes 4 (length (encode cmd) % u32_mod)
          ++ (to_le_bytes 8 sequence
              ++ (encode cmd
                  ++ (to_le_bytes 4 (crc (to_le_bytes 8 sequence ++ encode cmd)) ++ rest)))
  unfolding encode_record
  record_layout sequence cmd rest = simp append_assoc

  header_of_record :
      (sequence : ℕ) (cmd : Command)
      → from_le_bytes (take 4 (encode_record crc sequence cmd)) ≡ length (encode cmd)
  unfolding encode_record
  header_of_record sequence cmd =
      rw
        (take-append_exact 4 (to_le_bytes 4 (length (encode cmd) % u32_mod)) _
          (length-to_le_bytes 4 _))
        (from_le_bytes-header cmd)

  pub length-encode_record :
      (sequence : ℕ) (cmd : Command)
      → length (encode_record crc sequence cmd) ≡ length (encode cmd) + 16
  unfolding encode_record
  length-encode_record sequence cmd = omega (arith, length-append {0}, length-to_le_bytes)

module _ (crc : List ℕ → ℕ) (crc_lt : (bs : List ℕ) → crc bs < 256 ^ 4) where
  verify_ok :
      (sequence : ℕ) (cmd : Command)
      → sequence < 256 ^ 8
      → Fits cmd
      → verify crc
          (from_le_bytes (to_le_bytes 8 sequence))
          (encode cmd)
          (from_le_bytes (to_le_bytes 4 (crc (to_le_bytes 8 sequence ++ encode cmd))))
        ≡ ok (sequence, cmd, length (encode_record crc sequence cmd))
  verify_ok sequence cmd hs hc =
      let bs = to_le_bytes 8 sequence ++ encode cmd in
      rw
        (
          from_le_bytes-to_le_bytes 8 sequence hs,
          from_le_bytes-to_le_bytes 4 (crc bs) (crc_lt bs),
          ==_refl (crc bs),
          decode-encode_all cmd hc,
          length-encode_record crc sequence cmd,
        )
        (ap (λ k. ok (sequence, cmd, k)) (omega arith))

  -- For a checksum of four bytes, a sequence number below 2^64 and a command in range, a record is
  -- read back with its length, whatever follows it.
  pub decode_record-encode_record :
      (sequence : ℕ) (cmd : Command) (rest : List ℕ)
      → sequence < 256 ^ 8
      → Fits cmd
      → decode_record crc (encode_record crc sequence cmd ++ rest)
        ≡ ok (sequence, cmd, length (encode_record crc sequence cmd))
  decode_record-encode_record sequence cmd rest hs hc = rw (record_layout crc sequence cmd rest) (
      decode_record_parts crc _ _ (encode cmd) _ rest (length-to_le_bytes 4 _)
        (length-to_le_bytes 8 _) (length-to_le_bytes 4 _) (from_le_bytes-header cmd)
        (omega (arith, length-encode cmd))
      ∙ verify_ok sequence cmd hs hc)

-- A proper prefix of a record is refused as invalid data.
pub decode_record-take :
    (crc : List ℕ → ℕ) (sequence : ℕ) (cmd : Command) (n : ℕ)
    → n < length (encode_record crc sequence cmd)
    → decode_record crc (take n (encode_record crc sequence cmd)) ≡ err invalid_data
unfolding decode_record
decode_record-take crc sequence cmd n h =
    let r = encode_record crc sequence cmd in
    let len : length (take n r) ≡ n = length-take n r (omega arith) in
    elim (dec_lt n 4) [
      | yes short ↦ rw (len, lt→leb_false 4 n short)
      | no long ↦ rw (
        len,
        le→leb 4 n (omega arith),
        take-take 4 n r (omega arith),
        header_of_record crc sequence cmd,
        le→leb (length (encode cmd)) 1048576 (omega (arith, length-encode cmd)),
        lt→leb_false (4 + 8 + length (encode cmd) + 4) n
            (omega (arith, length-encode_record crc sequence cmd)),
      )
    ]
