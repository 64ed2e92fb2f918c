-- ===== src/Journal/Writer.antt =====
-- crates/matchx-journal/src/writer.rs: `JournalWriter`. A file is its bytes, a directory the list
-- of its segments in the order of their paths, as `list_segment_paths` returns them, each with the
-- index that stands in its path. The sizes of files are below 2^64.
pub mod Names
pub mod Failures
pub mod Segments
pub mod Tests
use match_x.Base.{
  ℕ, zero, suc, ◌+◌, ◌/◌, ◌%◌, ◌^◌, true, false, List, [], ◌∷◌, ◌++◌, Option, none, some, ltb, ◌==◌,
  ◌&&◌, Bool, if◌then◌else◌, length, take,
}
use match_x.Types.{Command}
use match_x.Journal.Outcome.{JournalError, io}
use match_x.Journal.Codec.{encode_record}

-- What the operating system answers to one call: success, or an error, for a write after some
-- bytes are in the file. Calls behind the last answer succeed.
pub data Answer : Type 0 where
  done : Answer
  fails : (written : ℕ) → Answer

abbrev pub first_answer : List Answer → Answer
first_answer [] = done
first_answer (a ∷ os) = a

abbrev pub later_answers : List Answer → List Answer
later_answers [] = []
later_answers (a ∷ os) = os

abbrev pub Dir : Type 0
Dir = List (ℕ × List ℕ)

-- the decimal digits of `n` in ASCII, `width` of them, the most significant first
unfoldable pub digits : ℕ → ℕ → List ℕ
digits zero n = []
digits (suc width) n = (48 + n / 10 ^ width) ∷ digits width (n % 10 ^ width)

-- the number of digits of `n`, but at least `width` and at most `more` more than that
unfoldable pub widen : ℕ → ℕ → ℕ → ℕ
widen zero width n = width
widen (suc more) width n = if ltb n (10 ^ width) then width else widen more (width + 1) n

-- The name of a segment, `journal-{index:08}.wal`, in ASCII. A `u64` has at most 20 digits.
unfoldable pub segment_path : ℕ → List ℕ
segment_path index =
    106
    ∷ 111
    ∷ 117
    ∷ 114
    ∷ 110
    ∷ 97
    ∷ 108
    ∷ 45
    ∷ (digits (widen 12 8 index) index ++ 46 ∷ 119 ∷ 97 ∷ 108 ∷ [])

-- the order by which paths are sorted, that of their bytes
unfoldable pub sorts_before : List ℕ → List ℕ → Bool
sorts_before xs [] = false
sorts_before [] (y ∷ ys) = true
sorts_before (x ∷ xs) (y ∷ ys) =
    if ltb x y then true else if ltb y x then false else sorts_before xs ys

-- `create(true)`: a file that is there is left alone, a new one stands where the sorted list of
-- the paths has it.
unfoldable pub create : ℕ → Dir → Dir
create index [] = (index, []) ∷ []
create index ((i, file) ∷ dir) =
    if i == index
    then (i, file) ∷ dir
    else if sorts_before (segment_path index) (segment_path i)
    then (index, []) ∷ (i, file) ∷ dir
    else (i, file) ∷ create index dir

unfoldable pub append_to : ℕ → List ℕ → Dir → Dir
append_to index bytes [] = []
append_to index bytes ((i, file) ∷ dir) =
    if i == index then (i, file ++ bytes) ∷ dir else (i, file) ∷ append_to index bytes dir

unfoldable pub file_of : ℕ → Dir → List ℕ
file_of index [] = []
file_of index ((i, file) ∷ dir) = if i == index then file else file_of index dir

-- the index of the last segment, or 1
unfoldable pub last_index : Dir → ℕ
last_index [] = 1
last_index ((i, file) ∷ []) = i
last_index (s ∷ t ∷ dir) = last_index (t ∷ dir)

-- `file` is the index of the segment that the handle writes to.
pub record SegmentedWriter : Type 0 where
  pub dir : Dir
  pub max_segment_bytes : ℕ
  pub current_segment_index : ℕ
  pub current_segment_size : ℕ
  pub file : ℕ

pub data WriterMode : Type 0 where
  single : (file : List ℕ) → WriterMode
  segmented : SegmentedWriter → WriterMode

-- The writer after a call, the answers left and the error that the call returned.
abbrev pub Written : Type 0
Written = WriterMode × List Answer × Option JournalError

-- the operator `?` between two calls
abbrev pub and_then : Written → (List Answer → WriterMode → Written) → Written
and_then (w, os, none) f = f os w
and_then (w, os, some e) f = (w, os, some e)

-- What a write puts into the file.
abbrev pub written_bytes : Answer → List ℕ → List ℕ
written_bytes done bytes = bytes
written_bytes (fails n) bytes = take n bytes

abbrev pub error_of : Answer → Option JournalError
error_of done = none
error_of (fails n) = some io

unfoldable pub open_single : List ℕ → WriterMode
open_single file = single file

unfoldable pub open_segmented : Dir → ℕ → WriterMode
open_segmented dir max_segment_bytes =
    let index = last_index dir in
    let dir' = create index dir in
    segmented (record {
      dir = dir';
      max_segment_bytes = if max_segment_bytes == 0 then 1 else max_segment_bytes;
      current_segment_index = index;
      current_segment_size = length (file_of index dir');
      file = index;
    })

-- The index moves on before the file is opened.
unfoldable pub rotate_segment : Answer → SegmentedWriter → SegmentedWriter
rotate_segment done s =
    let next = s.current_segment_index + 1 in
    record s {
      dir = create next s.dir;
      current_segment_index = next;
      current_segment_size = 0;
      file = next;
    }
rotate_segment (fails n) s = record s { current_segment_index = s.current_segment_index + 1 }

-- the write to the open segment
unfoldable pub write_segment : List Answer → SegmentedWriter → List ℕ → Written
write_segment os s bytes = elim (first_answer os) [
  | done ↦ (
    segmented (record s {
      dir = append_to s.file bytes s.dir;
      current_segment_size = s.current_segment_size + length bytes;
    }),
    later_answers os,
    none,
  )
  | fails n ↦ (
    segmented (record s { dir = append_to s.file (take n bytes) s.dir }),
    later_answers os,
    some io,
  )
]

abbrev pub is_full : SegmentedWriter → List ℕ → Bool
is_full s bytes =
    ltb 0 s.current_segment_size && ltb s.max_segment_bytes (s.current_segment_size + length bytes)

unfoldable pub append_segmented : List Answer → SegmentedWriter → List ℕ → Written
unfolding rotate_segment write_segment
append_segmented os s bytes =
    if is_full s bytes
    then elim (first_answer os) [
      | done ↦ write_segment (later_answers os) (rotate_segment done s) bytes
      | fails n ↦ (segmented (rotate_segment (fails n) s), later_answers os, some io)
    ]
    else write_segment os s bytes

unfoldable pub append_raw : List Answer → WriterMode → List ℕ → Written
unfolding append_segmented
append_raw os (single file) bytes = (
  single (file ++ written_bytes (first_answer os) bytes),
  later_answers os,
  error_of (first_answer os),
)
append_raw os (segmented s) bytes = append_segmented os s bytes

unfoldable pub flush : List Answer → WriterMode → Written
flush os w = (w, later_answers os, error_of (first_answer os))

-- the loop of `append_raw_batch`, then the flush
unfoldable pub append_raw_batch : List Answer → WriterMode → List (List ℕ) → Written
unfolding append_raw flush
append_raw_batch os w [] = flush os w
append_raw_batch os w (bytes ∷ batch) =
    and_then (append_raw os w bytes) (λ os' w'. append_raw_batch os' w' batch)

module _ (crc : List ℕ → ℕ) where
  unfoldable pub append : List Answer → WriterMode → ℕ → Command → Written
  unfolding append_raw flush
  append os w sequence cmd = and_then (append_raw os w (encode_record crc sequence cmd)) flush
