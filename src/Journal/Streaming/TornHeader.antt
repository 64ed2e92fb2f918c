-- ===== src/Journal/Streaming/TornHeader.antt =====
-- The two readers on a file that ends inside the header of a record.
use mathlib.Core.List.{append_assoc}
use match_x.Base.{
  ℕ, zero, suc, ◌<◌, ◌^◌, ◌≡◌, refl, sym, subst, List, [], ◌∷◌, ◌++◌, length, length-append,
  drop-append_exact, lt→ltb, arith,
}
use match_x.Journal.Outcome.{ok, err, invalid_data}
use match_x.Journal.Codec.{encode_record, decode_record}
use match_x.Journal.Records.{length-encode_record, decode_record-encode_record}
use match_x.Journal.Reader.{JournalEntry, read_records, read_file, read_all}
use match_x.Journal.Scan.{AllFit, log_of}
use match_x.Journal.Streaming.{open_files, open_next_segment, next_entry, next_from, entries_of}
use match_x.Journal.Streaming.Agreement.{at, entries_of-cons}

module _ (crc : List ℕ → ℕ) (crc_lt : (bs : List ℕ) → crc bs < 256 ^ 4) (tail : List ℕ)
    (begun : 0 < length tail) (short : length tail < 4) where
  entries_of-tail : entries_of crc 1 (at crc [] tail) ≡ ok []
  unfolding entries_of next_entry next_from
  entries_of-tail = ground arith

  entries_of-log_of_tail :
      (es : List JournalEntry)
      → AllFit es
      → entries_of crc (suc (length es)) (at crc [] (log_of crc es ++ tail)) ≡ ok es
  unfolding log_of
  entries_of-log_of_tail [] fit = entries_of-tail
  entries_of-log_of_tail (e ∷ es) fit =
      let r = encode_record crc e.sequence e.command in
      let bytes = append_assoc r (log_of crc es) tail in
      subst (λ bs. entries_of crc (suc (suc (length es))) (at crc [] bs) ≡ ok (e ∷ es)) (sym bytes)
        (entries_of-cons crc (suc (length es)) [] (r ++ (log_of crc es ++ tail)) e.sequence
          (length r) e.command es
          (decode_record-encode_record crc crc_lt e.sequence e.command (log_of crc es ++ tail) fit.0
            fit.1)
          (rw (drop-append_exact (length r) r (log_of crc es ++ tail) refl)
            (entries_of-log_of_tail es fit.2)))

  decode_record-tail : decode_record crc tail ≡ err invalid_data
  unfolding decode_record
  decode_record-tail = ground arith

  read_records-log_of_tail :
      (fuel : ℕ) (es : List JournalEntry)
      → AllFit es
      → length (log_of crc es) < fuel
      → read_records crc fuel (log_of crc es ++ tail) ≡ err invalid_data
  unfolding read_records log_of
  read_records-log_of_tail zero es fit h = absurd (omega arith)
  read_records-log_of_tail (suc fuel) [] fit h =
      rw (lt→ltb 0 (length tail) begun, decode_record-tail) refl
  read_records-log_of_tail (suc fuel) (e ∷ es) fit h =
      let r = encode_record crc e.sequence e.command in
      let len = length-encode_record crc e.sequence e.command in
      rw
        (
          append_assoc r (log_of crc es) tail,
          lt→ltb 0 (length (r ++ (log_of crc es ++ tail)))
              (omega (arith, len, length-append r (log_of crc es ++ tail))),
          decode_record-encode_record crc crc_lt e.sequence e.command (log_of crc es ++ tail) fit.0
              fit.1,
          drop-append_exact (length r) r (log_of crc es ++ tail) refl,
          read_records-log_of_tail fuel es fit.2
              (omega (arith, len, length-append r (log_of crc es))),
        )
        refl

module _ (crc : List ℕ → ℕ) (crc_lt : (bs : List ℕ) → crc bs < 256 ^ 4) where
  -- For a checksum of four bytes and entries in range: on one file of their records followed by
  -- one to three bytes, a streaming reader asked once more than there are entries returns them and
  -- then that there are no more, while `read_all` returns invalid data.
  pub read_all-torn_header :
      (es : List JournalEntry) (tail : List ℕ)
      → AllFit es
      → 0 < length tail
      → length tail < 4
      → (entries_of crc (suc (length es)) (open_files ((log_of crc es ++ tail) ∷ [])) ≡ ok es)
        × (read_all crc ((log_of crc es ++ tail) ∷ []) ≡ err invalid_data)
  unfolding open_files open_next_segment read_all read_file
  read_all-torn_header es tail fit begun short = (
    entries_of-log_of_tail crc crc_lt tail begun short es fit,
    rw
        (read_records-log_of_tail crc crc_lt tail begun short (suc (length (log_of crc es ++ tail)))
          es fit (omega (arith, length-append (log_of crc es) tail)))
        refl,
  )
