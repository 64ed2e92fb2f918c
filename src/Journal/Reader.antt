-- ===== src/Journal/Reader.antt =====
-- crates/matchx-journal/src/reader.rs and recovery.rs. A file is its bytes; the list of segment
-- paths is the list of the files in the order of their names.
use match_x.Base.{
  ℕ, zero, suc, ◌+◌, ◌-◌, List, [], ◌∷◌, ◌++◌, ◌==◌, ltb, if◌then◌else◌, length, take, drop,
}
use match_x.Types.{Command}
use match_x.Journal.Outcome.{
  JournalError, Result, ok, err, out_of_fuel, invalid_data, crc_mismatch, ◌>>=◌,
}
use match_x.Journal.Codec.{decode_record}

pub record JournalEntry : Type 0 where
  pub sequence : ℕ
  pub command : Command

pub record RecoveryReport : Type 0 where
  pub last_valid_sequence : ℕ
  pub truncated_bytes : ℕ

-- A record that is not valid ends the scan, other errors are passed on.
unfoldable pub stop_scan : JournalError → ℕ → ℕ → Result (ℕ × ℕ)
stop_scan invalid_data offset sequence = ok (offset, sequence)
stop_scan crc_mismatch offset sequence = ok (offset, sequence)
stop_scan e offset sequence = err e

module _ (crc : List ℕ → ℕ) where
  -- the inner loop of `read_all`, from the bytes at `pos` on
  unfoldable pub read_records : ℕ → List ℕ → Result (List JournalEntry)
  read_records zero bs = out_of_fuel
  read_records (suc fuel) bs =
      if ltb 0 (length bs)
      then (do
        (sequence, command, used) ← decode_record crc bs
        rest ← read_records fuel (drop used bs)
        ok (record { sequence = sequence; command = command } ∷ rest))
      else ok []

  unfoldable pub read_file : List ℕ → Result (List JournalEntry)
  unfolding read_records
  read_file bs = read_records (suc (length bs)) bs

  unfoldable pub read_all : List (List ℕ) → Result (List JournalEntry)
  unfolding read_file
  read_all [] = ok []
  read_all (file ∷ files) = do entries ← read_file file; rest ← read_all files; ok (entries ++ rest)

  -- The loop of `recover_file`: `pos` and `last_valid_offset` are one number at its head. The
  -- result is the offset of the first byte that is not valid, and the last sequence number.
  unfoldable pub scan : ℕ → List ℕ → ℕ → ℕ → Result (ℕ × ℕ)
  unfolding stop_scan
  scan zero bs offset sequence = out_of_fuel
  scan (suc fuel) bs offset sequence =
      if ltb 0 (length bs)
      then elim (decode_record crc bs) [
        | ok (next, _, used) ↦ scan fuel (drop used bs) (offset + used) next
        | err e ↦ stop_scan e offset sequence
        | out_of_fuel ↦ out_of_fuel
      ]
      else ok (offset, sequence)

  -- The report, and the file after `set_len`.
  unfoldable pub recover_file : List ℕ → Result (RecoveryReport × List ℕ)
  unfolding scan
  recover_file bs = do
    (offset, sequence) ← scan (suc (length bs)) bs 0 0
    ok (
      record { last_valid_sequence = sequence; truncated_bytes = length bs - offset },
      if ltb 0 (length bs - offset) then take offset bs else bs,
    )

  recover_segments : List (List ℕ) → RecoveryReport → Result (RecoveryReport × List (List ℕ))
  unfolding recover_file
  recover_segments [] report = ok (report, [])
  recover_segments (file ∷ files) report = do
    (segment, file') ← recover_file file
    (report, files') ← recover_segments files (record {
      last_valid_sequence =
          if segment.last_valid_sequence == 0
          then report.last_valid_sequence
          else segment.last_valid_sequence;
      truncated_bytes = report.truncated_bytes + segment.truncated_bytes;
    })
    ok (report, file' ∷ files')

  unfoldable pub recover_dir : List (List ℕ) → Result (RecoveryReport × List (List ℕ))
  unfolding recover_segments
  recover_dir files =
      recover_segments files (record { last_valid_sequence = 0; truncated_bytes = 0 })
