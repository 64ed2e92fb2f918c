-- ===== src/Journal/Scan.antt =====
-- Reading and recovery of a log that was written record by record.
use mathlib.Core.List.{append_assoc, append-nil, flatten, map}
use native.Mathlib.Nat.{add-zero, zero-add, add-sub_cancel_left}
use match_x.Base.{
  ℕ, zero, suc, ◌+◌, ◌^◌, ◌<◌, ◌≡◌, refl, ap, ◌∙◌, List, [], ◌∷◌, ◌++◌, length, ltb, length-append,
  length-take, take, drop, drop-append_exact, lt→ltb, if◌then◌else◌, Bool-cases, inl, inr,
  take-append_exact, arith,
}
use match_x.Types.{Command}
use match_x.Journal.Outcome.{JournalError, ok, err, invalid_data}
use match_x.Journal.Codec.{encode_record, decode_record}
use match_x.Journal.RoundTrip.{Fits}
use match_x.Journal.Records.{length-encode_record, decode_record-encode_record, decode_record-take}
use match_x.Journal.Refusal.{decode_record-Stops}
use match_x.Journal.Reader.{
  JournalEntry, stop_scan, read_records, read_file, read_all, scan, recover_file,
}

-- Entries whose fields are in range.
abbrev pub AllFit : List JournalEntry → Type 0
AllFit [] = Unit {0}
AllFit (e ∷ es) = (e.sequence < 256 ^ 8) × Fits e.command × AllFit es

abbrev pub AllSegmentsFit : List (List JournalEntry) → Type 0
AllSegmentsFit [] = Unit {0}
AllSegmentsFit (es ∷ ess) = AllFit es × AllSegmentsFit ess

-- the last sequence number, or the one given
abbrev pub last_sequence : ℕ → List JournalEntry → ℕ
last_sequence n [] = n
last_sequence n (e ∷ es) = last_sequence e.sequence es

-- the bytes that `set_len` leaves
cut :
    (xs tail : List ℕ)
    → (if ltb 0 (length tail) then take (length xs) (xs ++ tail) else xs ++ tail) ≡ xs
cut xs [] = append-nil xs
cut xs (b ∷ tail) =
    rw (lt→ltb 0 (suc (length tail)) (omega arith))
      (take-append_exact (length xs) xs (b ∷ tail) refl)

-- every error of `decode_record` ends the scan
stopped :
    (crc : List ℕ → ℕ) (tail : List ℕ) (x : JournalError)
    → decode_record crc tail ≡ err x
    → (offset last : ℕ) → stop_scan x offset last ≡ ok (offset, last)
unfolding stop_scan
stopped crc tail x h offset last = elim (decode_record-Stops crc tail x h) [
  | inl e ↦ ap (λ x. stop_scan x offset last) e
  | inr e ↦ ap (λ x. stop_scan x offset last) e
]

module _ (crc : List ℕ → ℕ) where
  scan_step :
      (fuel : ℕ) (bs : List ℕ) (offset last : ℕ) {next used : ℕ} {cmd : Command}
      → 0 < length bs
      → decode_record crc bs ≡ ok (next, cmd, used)
      → scan crc (suc fuel) bs offset last ≡ scan crc fuel (drop used bs) (offset + used) next
  unfolding scan
  scan_step fuel bs offset last pos h = rw (lt→ltb 0 (length bs) pos, h)

  -- What a writer appends for the entries.
  unfoldable pub log_of : List JournalEntry → List ℕ
  log_of [] = []
  log_of (e ∷ es) = encode_record crc e.sequence e.command ++ log_of es

module _ (crc : List ℕ → ℕ) (crc_lt : (bs : List ℕ) → crc bs < 256 ^ 4) where
  read_records-log_of :
      (fuel : ℕ) (es : List JournalEntry)
      → AllFit es
      → length (log_of crc es) < fuel
      → read_records crc fuel (log_of crc es) ≡ ok es
  unfolding read_records log_of
  read_records-log_of zero es fit h = absurd (omega arith)
  read_records-log_of (suc fuel) [] fit h = refl
  read_records-log_of (suc fuel) (e ∷ es) fit h =
      let r = encode_record crc e.sequence e.command in
      let len = length-encode_record crc e.sequence e.command in
      rw (
        lt→ltb 0 (length (r ++ log_of crc es))
            (omega (arith, len, length-append r (log_of crc es))),
        decode_record-encode_record crc crc_lt e.sequence e.command (log_of crc es) fit.0 fit.1,
        drop-append_exact (length r) r (log_of crc es) refl,
        read_records-log_of fuel es fit.2 (omega (arith, len, length-append r (log_of crc es))),
      )

  pub read_file-log_of :
      (es : List JournalEntry) → AllFit es → read_file crc (log_of crc es) ≡ ok es
  unfolding read_file
  read_file-log_of es fit = read_records-log_of (suc (length (log_of crc es))) es fit (omega arith)

  -- a tail that is no record stops the scan behind the last whole record
  scan-log_of :
      (fuel : ℕ) (es : List JournalEntry) (tail : List ℕ) (x : JournalError) (offset last : ℕ)
      → AllFit es
      → decode_record crc tail ≡ err x
      → length (log_of crc es) + length tail < fuel
      → scan crc fuel (log_of crc es ++ tail) offset last
        ≡ ok (offset + length (log_of crc es), last_sequence last es)
  unfolding scan log_of
  scan-log_of zero es tail x offset last fit torn h = absurd (omega arith)
  scan-log_of (suc fuel) [] tail x offset last fit torn h =
      elim (Bool-cases (ltb 0 (length tail))) [
        | inl more ↦ rw (more, torn, stopped crc tail x torn offset last, add-zero)
        | inr done ↦ rw (done, add-zero)
      ]
  scan-log_of (suc fuel) (e ∷ es) tail x offset last fit torn h =
      let r = encode_record crc e.sequence e.command in
      let len = length-encode_record crc e.sequence e.command in
      let sum = length-append r (log_of crc es) in
      ap (λ bs. scan crc (suc fuel) bs offset last) (append_assoc r (log_of crc es) tail)
      ∙ scan_step crc fuel (r ++ (log_of crc es ++ tail)) offset last
          (omega (arith, len, length-append r (log_of crc es ++ tail)))
          (decode_record-encode_record crc crc_lt e.sequence e.command (log_of crc es ++ tail) fit.0
            fit.1)
      ∙ ap (λ bs. scan crc fuel bs (offset + length r) e.sequence)
          (drop-append_exact (length r) r (log_of crc es ++ tail) refl)
      ∙ scan-log_of fuel es tail x (offset + length r) e.sequence fit.2 torn
          (omega (arith, len, sum))
      ∙ ap (λ k. ok (k, last_sequence e.sequence es)) (omega (arith, sum))

  -- For a checksum of four bytes and entries in range: when the file of these entries is followed
  -- by bytes that `decode_record` refuses, with any error, recovery keeps the records of the
  -- entries, and reports their last sequence number (0 without entries) and the number of bytes
  -- dropped.
  pub recover_file-log_of :
      (es : List JournalEntry) (tail : List ℕ) (x : JournalError)
      → AllFit es
      → decode_record crc tail ≡ err x
      → recover_file crc (log_of crc es ++ tail)
        ≡ ok (
          record { last_valid_sequence = last_sequence 0 es; truncated_bytes = length tail },
          log_of crc es,
        )
  unfolding recover_file
  recover_file-log_of es tail x fit torn =
      let sum = length-append (log_of crc es) tail in
      rw (
        scan-log_of (suc (length (log_of crc es ++ tail))) es tail x 0 0 fit torn
            (omega (arith, sum)),
        zero-add,
        sum,
        add-sub_cancel_left (length (log_of crc es)) (length tail),
        cut (log_of crc es) tail,
      )

  -- For a checksum of four bytes and entries in range: when the file of these entries is followed
  -- by a proper prefix of one more record, recovery keeps the records of the entries, reports
  -- their last sequence number (0 without entries) and the length of the prefix, and what it keeps
  -- reads back as the entries.
  pub recover_file_torn :
      (es : List JournalEntry) (sequence : ℕ) (cmd : Command) (n : ℕ)
      → AllFit es
      → n < length (encode_record crc sequence cmd)
      → (recover_file crc (log_of crc es ++ take n (encode_record crc sequence cmd))
          ≡ ok (
            record { last_valid_sequence = last_sequence 0 es; truncated_bytes = n },
            log_of crc es,
          ))
        × (read_file crc (log_of crc es) ≡ ok es)
  recover_file_torn es sequence cmd n fit h =
      let tail = take n (encode_record crc sequence cmd) in
      (
        recover_file-log_of es tail invalid_data fit (decode_record-take crc sequence cmd n h)
            ∙ rw (length-take n (encode_record crc sequence cmd) (omega arith)),
        read_file-log_of es fit,
      )

  -- For a checksum of four bytes and entries in range, reading the segments of a log in order
  -- gives all entries in the order in which they were written.
  pub read_all-log_of :
      (ess : List (List JournalEntry))
      → AllSegmentsFit ess
      → read_all crc (map (log_of crc) ess) ≡ ok (flatten ess)
  unfolding read_all flatten
  read_all-log_of [] fit = refl
  read_all-log_of (es ∷ ess) fit = rw (read_file-log_of es fit.0, read_all-log_of ess fit.1)
