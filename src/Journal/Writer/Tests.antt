-- ===== src/Journal/Writer/Tests.antt =====
-- The witnesses on the writer and the streaming reader.
use mathlib.Core.List.{flatten, map}
use match_x.Base.{ℕ, ◌≡◌, List, [], ◌∷◌, ◌++◌, none, some, length, arith, suc}
use match_x.Types.{cancel_order}
use match_x.Journal.Outcome.{ok, err, io, invalid_data}
use match_x.Journal.Records.{length-encode_record}
use match_x.Journal.Reader.{read_all, read_file, recover_file}
use match_x.Journal.Scan.{log_of, read_all-log_of}
use match_x.Journal.Writer.{done, fails, single, segmented, SegmentedWriter, open_segmented, append}
use match_x.Journal.Writer.Segments.{append_entries, read_all-append_entries}
use match_x.Journal.Writer.Segments.Directory.{files, Within, PathsSorted}
use match_x.Journal.Writer.Failures.{recover_file-append}
use match_x.Journal.Streaming.{open_files, entries_of}
use match_x.Journal.Streaming.TornHeader.{read_all-torn_header}
use match_x.Journal.Streaming.Agreement.{entries_of-open_files}
use match_x.Journal.Tests.{checksum, checksum_lt, entries, entries_fit}

entries_of-open_files_example :
    entries_of checksum
      (suc (length (flatten (entries ∷ [] ∷ entries ∷ []))))
      (open_files (map (log_of checksum) (entries ∷ [] ∷ entries ∷ [])))
    ≡ ok (flatten (entries ∷ [] ∷ entries ∷ []))
entries_of-open_files_example =
    entries_of-open_files checksum (map (log_of checksum) (entries ∷ [] ∷ entries ∷ []))
      (flatten (entries ∷ [] ∷ entries ∷ []))
      (read_all-log_of checksum checksum_lt (entries ∷ [] ∷ entries ∷ [])
        (entries_fit, (tt, (entries_fit, tt))))

read_all-append_entries_example :
    (s : SegmentedWriter) × (append_entries checksum [] (open_segmented [] 80) entries
      ≡ (segmented s, [], none))
    × (read_all checksum (files s.dir) ≡ ok entries)
    × PathsSorted s.dir
    × Within 80 s.dir
read_all-append_entries_example =
    read_all-append_entries checksum checksum_lt entries 80 80 entries_fit (omega arith)
      (omega arith) (omega arith)

recover_file-append_example :
    (file : List ℕ) × (append checksum
        (fails 7 ∷ done ∷ [])
        (single (log_of checksum entries))
        3
        (cancel_order 77)
      ≡ (single file, done ∷ [], some io))
    × (recover_file checksum file
        ≡ ok (record { last_valid_sequence = 2; truncated_bytes = 7 }, log_of checksum entries))
    × (read_file checksum (log_of checksum entries) ≡ ok entries)
recover_file-append_example =
    recover_file-append checksum checksum_lt entries 3 (cancel_order 77) 7 (done ∷ []) entries_fit
      (omega (arith, length-encode_record checksum 3 (cancel_order 77)))

read_all-torn_header_example :
    (entries_of checksum 3 (open_files ((log_of checksum entries ++ 5 ∷ 6 ∷ []) ∷ [])) ≡ ok entries)
    × (read_all checksum ((log_of checksum entries ++ 5 ∷ 6 ∷ []) ∷ []) ≡ err invalid_data)
read_all-torn_header_example =
    read_all-torn_header checksum checksum_lt entries (5 ∷ 6 ∷ []) entries_fit (omega arith)
      (omega arith)
