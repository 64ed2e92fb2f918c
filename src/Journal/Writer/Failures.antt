-- ===== src/Journal/Writer/Failures.antt =====
-- A write that fails in the middle, and the recovery after it.
use match_x.Base.{ℕ, ◌<◌, ◌≡◌, refl, ◌^◌, List, ◌∷◌, ◌++◌, some, length, take}
use match_x.Types.{Command}
use match_x.Journal.Outcome.{io, ok}
use match_x.Journal.Codec.{encode_record}
use match_x.Journal.Reader.{JournalEntry, recover_file, read_file}
use match_x.Journal.Scan.{AllFit, last_sequence, log_of, recover_file_torn}
use match_x.Journal.Writer.{Answer, fails, single, append}

module _ (crc : List ℕ → ℕ) (crc_lt : (bs : List ℕ) → crc bs < 256 ^ 4) where
  -- For a checksum of four bytes and entries in range: when the write of one more record to their
  -- file stops after `n` bytes of it, the append returns an I/O error and leaves a file that
  -- recovery cuts back to the records of the entries, reporting their last sequence number and the
  -- `n` bytes dropped, and what it keeps reads back as the entries.
  pub recover_file-append :
      (es : List JournalEntry) (sequence : ℕ) (cmd : Command) (n : ℕ) (os : List Answer)
      → AllFit es
      → n < length (encode_record crc sequence cmd)
      → (file : List ℕ) × (append crc (fails n ∷ os) (single (log_of crc es)) sequence cmd
          ≡ (single file, os, some io))
        × (recover_file crc file
            ≡ ok (
              record { last_valid_sequence = last_sequence 0 es; truncated_bytes = n },
              log_of crc es,
            ))
        × (read_file crc (log_of crc es) ≡ ok es)
  unfolding append
  recover_file-append es sequence cmd n os fit h =
      let (recovered, read) = recover_file_torn crc crc_lt es sequence cmd n fit h in
      (log_of crc es ++ take n (encode_record crc sequence cmd), refl, recovered, read)
