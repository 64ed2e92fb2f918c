-- ===== src/Journal/Streaming.antt =====
-- crates/matchx-journal/src/streaming_reader.rs: `StreamingReader`. A file is its bytes, and a
-- `BufReader` the bytes of its file that it has not yet handed out.
pub mod Agreement
pub mod TornHeader
use match_x.Base.{
  ℕ, zero, suc, ◌+◌, List, [], ◌∷◌, ◌++◌, Option, none, some, Bool, true, false, leb, if◌then◌else◌,
  length, take, drop,
}
use match_x.Journal.Outcome.{Result, ok, out_of_fuel, invalid_data, require, ◌>>=◌, ◌>>◌}
use match_x.Journal.Bytes.{from_le_bytes}
use match_x.Journal.Codec.{decode_record}
use match_x.Journal.Reader.{JournalEntry}

-- `paths` are the files from `current_segment` on; `header_buf` is a local of `next_entry`.
pub record StreamingReader : Type 0 where
  pub paths : List (List ℕ)
  pub reader : Option (List ℕ)

unfoldable pub open_next_segment : StreamingReader → StreamingReader × Bool
open_next_segment s = elim s.paths [
  | [] ↦ (record s { reader = none }, false)
  | file ∷ files ↦ (record { paths = files; reader = some file }, true)
]

-- `open` on the files of a directory, or on the one file of a path
unfoldable pub open_files : List (List ℕ) → StreamingReader
unfolding open_next_segment
open_files files = (open_next_segment (record { paths = files; reader = none })).0

module _ (crc : List ℕ → ℕ) where
  -- The part of `next_entry` behind a header that was read whole: `bytes` begin with it.
  unfoldable pub read_record :
      List (List ℕ) → List ℕ → Result (StreamingReader × Option JournalEntry)
  read_record files bytes = do
    let header = take 4 bytes
    let body_len = 8 + from_le_bytes header + 4
    require (leb body_len (length (drop 4 bytes))) invalid_data
    (sequence, command, _) ← decode_record crc (header ++ take body_len (drop 4 bytes))
    ok (
      record { paths = files; reader = some (drop body_len (drop 4 bytes)) },
      some (record { sequence = sequence; command = command }),
    )

  -- The loop of `next_entry`: a header cut short ends the segment.
  unfoldable pub next_from : List (List ℕ) → List ℕ → Result (StreamingReader × Option JournalEntry)
  next_from [] bytes =
      if leb 4 (length bytes)
      then read_record [] bytes
      else ok (record { paths = []; reader = none }, none)
  next_from (file ∷ files) bytes =
      if leb 4 (length bytes) then read_record (file ∷ files) bytes else next_from files file

  unfoldable pub next_entry : StreamingReader → Result (StreamingReader × Option JournalEntry)
  unfolding next_from read_record
  next_entry s = elim s.reader [ none ↦ ok (s, none) | some bytes ↦ next_from s.paths bytes ]

  -- The entries that a caller gets who asks until there are no more.
  unfoldable pub entries_of : ℕ → StreamingReader → Result (List JournalEntry)
  entries_of zero s = out_of_fuel
  entries_of (suc fuel) s = do
    (s, entry) ← next_entry s
    elim entry [ none ↦ ok [] | some e ↦ do rest ← entries_of fuel s; ok (e ∷ rest) ]
