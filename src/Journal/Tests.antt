-- ===== src/Journal/Tests.antt =====
-- The witnesses on the journal: a log of two entries, with the first bytes' sum as its checksum.
use mathlib.Core.List.{flatten, map}
use native.Mathlib.Nat.{mod-lt}
use match_x.Base.{
  ℕ, ◌+◌, ◌%◌, ◌^◌, ◌<◌, ◌≡◌, refl, List, [], ◌∷◌, ◌++◌, none, some, length, take, arith,
}
use match_x.Types.{Command, bid, iceberg, gtc, new_order, cancel_order, modify_order}
use match_x.Journal.Outcome.{ok, err, invalid_data, crc_mismatch}
use match_x.Journal.Bytes.{to_le_bytes, from_le_bytes}
use match_x.Journal.Codec.{encode, decode, encode_record, decode_record}
use match_x.Journal.RoundTrip.{decode-encode}
use match_x.Journal.Records.{length-encode_record, decode_record-encode_record, decode_record-take}
use match_x.Journal.Reader.{JournalEntry, read_file, read_all, recover_file}
use match_x.Journal.Scan.{AllFit, log_of, recover_file-log_of, recover_file_torn, read_all-log_of}

-- a checksum of four bytes
abbrev total : List ℕ → ℕ
total [] = 0
total (b ∷ bs) = b + total bs

abbrev pub checksum : List ℕ → ℕ
checksum bs = total bs % 256 ^ 4

pub checksum_lt : (bs : List ℕ) → checksum bs < 256 ^ 4
checksum_lt bs = mod-lt (total bs) (omega arith)

abbrev pub order : Command
order = new_order 77 3 bid 10250 900 iceberg gtc (some 100) none (some 9)

abbrev pub entries : List JournalEntry
entries =
    record { sequence = 1; command = order }
    ∷ record { sequence = 2; command = modify_order 77 10300 450 }
    ∷ []

pub entries_fit : AllFit entries
entries_fit = (
  omega arith,
  (omega arith, omega arith, omega arith, omega arith, omega arith, tt, omega arith),
  (omega arith, (omega arith, omega arith, omega arith), tt),
)

decode-encode_example : decode (encode order ++ (5 ∷ 6 ∷ [])) ≡ ok order
decode-encode_example =
    decode-encode order (5 ∷ 6 ∷ [])
      (omega arith, omega arith, omega arith, omega arith, omega arith, tt, omega arith)

decode_record-encode_record_example :
    decode_record checksum (encode_record checksum 4 (cancel_order 12) ++ (1 ∷ []))
    ≡ ok (4, cancel_order 12, length (encode_record checksum 4 (cancel_order 12)))
decode_record-encode_record_example =
    decode_record-encode_record checksum checksum_lt 4 (cancel_order 12) (1 ∷ []) (omega arith)
      (omega arith)

decode_record-take_example :
    decode_record checksum (take 7 (encode_record checksum 4 (cancel_order 12))) ≡ err invalid_data
decode_record-take_example =
    decode_record-take checksum 4 (cancel_order 12) 7
      (omega (arith, length-encode_record checksum 4 (cancel_order 12)))

recover_file_torn_example :
    (recover_file checksum
        (log_of checksum entries ++ take 7 (encode_record checksum 3 (cancel_order 77)))
      ≡ ok (record { last_valid_sequence = 2; truncated_bytes = 7 }, log_of checksum entries))
    × (read_file checksum (log_of checksum entries) ≡ ok entries)
recover_file_torn_example =
    recover_file_torn checksum checksum_lt entries 3 (cancel_order 77) 7 entries_fit
      (omega (arith, length-encode_record checksum 3 (cancel_order 77)))

-- the record of a cancellation with a checksum that is one too large, and a record behind it
abbrev damaged : List ℕ
damaged =
    9 ∷ 0 ∷ 0 ∷ 0 ∷ 3 ∷ 0 ∷ 0 ∷ 0 ∷ 0 ∷ 0 ∷ 0 ∷ 0 ∷ 1 ∷ 77 ∷ 0 ∷ 0 ∷ 0 ∷ 0 ∷ 0 ∷ 0 ∷ 0 ∷ 82 ∷ 0 ∷ 0
    ∷ 0 ∷ 9 ∷ 0 ∷ 0 ∷ 0 ∷ 4 ∷ 0 ∷ 0 ∷ 0 ∷ 0 ∷ 0 ∷ 0 ∷ 0 ∷ 1 ∷ 77 ∷ 0 ∷ 0 ∷ 0 ∷ 0 ∷ 0 ∷ 0 ∷ 0 ∷ 82
    ∷ 0 ∷ 0 ∷ 0 ∷ []

recover_file-log_of_example :
    recover_file checksum (log_of checksum entries ++ damaged)
    ≡ ok (record { last_valid_sequence = 2; truncated_bytes = 50 }, log_of checksum entries)
unfolding decode_record to_le_bytes from_le_bytes
recover_file-log_of_example =
    recover_file-log_of checksum checksum_lt entries damaged crc_mismatch entries_fit refl

read_all-log_of_example :
    read_all checksum (map (log_of checksum) (entries ∷ [] ∷ entries ∷ []))
    ≡ ok (flatten (entries ∷ [] ∷ entries ∷ []))
read_all-log_of_example =
    read_all-log_of checksum checksum_lt (entries ∷ [] ∷ entries ∷ [])
      (entries_fit, (tt, (entries_fit, tt)))
