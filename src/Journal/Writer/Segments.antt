-- ===== src/Journal/Writer/Segments.antt =====
-- What a segmented writer leaves in its directory when no call fails.
pub mod Directory
use mathlib.Core.List.{append_assoc, append-nil, flatten, map, map-append}
use match_x.Base.{
  ℕ, ◌+◌, ◌≤◌, ◌<◌, ◌≡◌, refl, ap, sym, ◌∙◌, ◌^◌, ◌==◌, if◌then◌else◌, subst, Bool-cases, inl, inr,
  List, [], ◌∷◌, ◌++◌, none, length, length-append, arith,
}
use match_x.Journal.Outcome.{ok}
use match_x.Journal.Codec.{encode_record}
use match_x.Journal.Records.{length-encode, length-encode_record}
use match_x.Journal.Reader.{JournalEntry, read_all}
use match_x.Journal.Scan.{AllFit, AllSegmentsFit, log_of, read_all-log_of}
use match_x.Journal.Writer.{
  Answer, done, Dir, create, append_to, last_index, file_of, SegmentedWriter, WriterMode, segmented,
  Written, open_segmented, rotate_segment, write_segment, is_full, append_segmented, append_raw,
  flush, append, and_then,
}
use match_x.Journal.Logs.{AllFit-append, log_of-append_last}
use match_x.Journal.Writer.Segments.Directory.{
  Below, files, Within, PathsSorted, PathsSorted-append, append_to_last, create_last, Below-append,
  Within-append, files-append, AllSegmentsFit-append, flatten-append_last,
}

module _ (crc : List ℕ → ℕ) where
  -- The directory holds the entries, cut into segments `ess` that are closed and the open one,
  -- `last`; no segment has more than `m` bytes.
  record Stores (m : ℕ) (es : List JournalEntry) (s : SegmentedWriter) : Type 0 where
    ess : List (List JournalEntry)
    last : List JournalEntry
    older : Dir
    all : flatten ess ++ last ≡ es
    below : Below s.file older
    closed : files older ≡ map (log_of crc) ess
    opened : s.dir ≡ older ++ (s.file, log_of crc last) ∷ []
    index : s.current_segment_index ≡ s.file
    size : s.current_segment_size ≡ length (log_of crc last)
    limit : s.max_segment_bytes ≤ m
    sorted : PathsSorted older
    within : Within m older
    within_last : length (log_of crc last) ≤ m
    fit : AllSegmentsFit ess
    fit_last : AllFit last

  -- what is written to the open segment
  Stores-write_segment :
      (m : ℕ) (es : List JournalEntry) (s : SegmentedWriter) (e : JournalEntry)
      → (st : Stores m es s) → AllFit (e ∷ [])
      → length (log_of crc st.last) + length (encode_record crc e.sequence e.command) ≤ m
      → (s' : SegmentedWriter) × (write_segment [] s (encode_record crc e.sequence e.command)
          ≡ (segmented s', [], none))
        × (s'.file ≡ s.file)
        × Stores m (es ++ e ∷ []) s'
  unfolding write_segment
  Stores-write_segment m es s e st fits room =
      let r = encode_record crc e.sequence e.command in
      let log = log_of-append_last crc st.last e in
      let len = length-append (log_of crc st.last) r in
      (
        record s {
          dir = append_to s.file r s.dir;
          current_segment_size = s.current_segment_size + length r;
        },
        refl,
        refl,
        record {
          ess = st.ess;
          last = st.last ++ e ∷ [];
          older = st.older;
          all =
              sym (append_assoc (flatten st.ess) st.last (e ∷ [])) ∙ ap (λ xs. xs ++ e ∷ []) st.all;
          below = st.below;
          closed = st.closed;
          opened =
              rw (st.opened, log) (append_to_last s.file st.older (log_of crc st.last) r st.below);
          index = st.index;
          size = rw log (omega (arith, st.size, len));
          limit = st.limit;
          sorted = st.sorted;
          within = st.within;
          within_last = rw log (omega (arith, len));
          fit = st.fit;
          fit_last = AllFit-append st.last (e ∷ []) st.fit_last fits;
        },
      )

  -- a new segment is opened
  Stores-rotate_segment :
      (m : ℕ) (es : List JournalEntry) (s : SegmentedWriter)
      → (st : Stores m es s) → s.file + 1 < 10 ^ 8
      → (st' : Stores m es (rotate_segment done s)) × (length (log_of crc st'.last) ≡ 0)
  unfolding rotate_segment log_of
  Stores-rotate_segment m es s st small =
      let next : s.current_segment_index + 1 ≡ s.file + 1 = omega (arith, st.index) in
      let fresh : Below (s.file + 1) s.dir =
        rw st.opened (Below-append s.file st.older (log_of crc st.last) st.below) in
      (
        record {
          ess = st.ess ++ st.last ∷ [];
          last = [];
          older = s.dir;
          all = append-nil _ ∙ flatten-append_last st.ess st.last ∙ st.all;
          below = rw next fresh;
          closed =
              rw (st.opened, files-append st.older ((s.file, log_of crc st.last) ∷ []), st.closed)
                (sym (map-append (log_of crc) st.ess (st.last ∷ [])));
          opened = rw next (create_last (s.file + 1) s.dir fresh small);
          index = refl;
          size = refl;
          limit = st.limit;
          sorted = rw st.opened (
              PathsSorted-append s.file st.older (log_of crc st.last) st.below (omega arith)
                st.sorted);
          within =
              rw st.opened
                (Within-append m s.file st.older (log_of crc st.last) st.within st.within_last);
          within_last = omega arith;
          fit = AllSegmentsFit-append st.ess st.last st.fit st.fit_last;
          fit_last = tt;
        },
        refl,
      )

  rotated : (s : SegmentedWriter) → (rotate_segment done s).file ≡ s.current_segment_index + 1
  unfolding rotate_segment
  rotated s = refl

  Stores-append_segmented :
      (m : ℕ) (es : List JournalEntry) (s : SegmentedWriter) (e : JournalEntry)
      → Stores m es s
      → AllFit (e ∷ [])
      → 71 ≤ m
      → s.file + 1 < 10 ^ 8
      → (s' : SegmentedWriter) × (append_segmented [] s (encode_record crc e.sequence e.command)
          ≡ (segmented s', [], none))
        × (s'.file ≤ s.file + 1)
        × Stores m (es ++ e ∷ []) s'
  unfolding append_segmented
  Stores-append_segmented m es s e st fits large small =
      let r = encode_record crc e.sequence e.command in
      let short : length r ≤ 71 =
        omega (arith, length-encode e.command, length-encode_record crc e.sequence e.command) in
      elim (Bool-cases (is_full s r)) [
        | inl full ↦
            let (st', empty) = Stores-rotate_segment m es s st small in
            let (s', run, file, st'') =
              Stores-write_segment m es (rotate_segment done s) e st' fits (omega (arith, empty)) in
            (s', rw full run, omega (arith, file, rotated s, st.index), st'')
        | inr room ↦
            let (s', run, file, st') =
              Stores-write_segment m es s e st fits (ground (arith, st.size, st.limit)) in
            (s', rw room run, omega (arith, file), st')
      ]

  Stores-append :
      (m : ℕ) (es : List JournalEntry) (s : SegmentedWriter) (e : JournalEntry)
      → Stores m es s
      → AllFit (e ∷ [])
      → 71 ≤ m
      → s.file + 1 < 10 ^ 8
      → (s' : SegmentedWriter) × (append crc [] (segmented s) e.sequence e.command
          ≡ (segmented s', [], none))
        × (s'.file ≤ s.file + 1)
        × Stores m (es ++ e ∷ []) s'
  unfolding append append_raw flush
  Stores-append m es s e st fits large small =
      let (s', run, file, st') = Stores-append_segmented m es s e st fits large small in
      (s', ap (λ r. and_then r flush) run, file, st')

  -- The entries appended one after the other, up to the first error.
  unfoldable pub append_entries : List Answer → WriterMode → List JournalEntry → Written
  append_entries os w [] = (w, os, none)
  append_entries os w (e ∷ es) =
      and_then (append crc os w e.sequence e.command) (λ os' w'. append_entries os' w' es)

  Stores-append_entries :
      (m : ℕ) (es new : List JournalEntry) (s : SegmentedWriter)
      → Stores m es s
      → AllFit new
      → 71 ≤ m
      → s.file + length new < 10 ^ 8
      → (s' : SegmentedWriter) × (append_entries [] (segmented s) new ≡ (segmented s', [], none))
        × (s'.file < 10 ^ 8)
        × Stores m (es ++ new) s'
  unfolding append_entries
  Stores-append_entries m es [] s st fits large small =
      (s, refl, omega arith, subst (λ xs. Stores m xs s) (sym (append-nil es)) st)
  Stores-append_entries m es (e ∷ new) s st fits large small =
      let (s', run, file, st') =
        Stores-append m es s e st (fits.0, fits.1, tt) large (omega arith) in
      let (s'', runs, file', st'') =
        Stores-append_entries m (es ++ e ∷ []) new s' st' fits.2 large (omega (arith, file)) in
      (
        s'',
        ap (λ r. and_then r (λ os w. append_entries os w new)) run ∙ runs,
        file',
        subst (λ xs. Stores m xs s'') (append_assoc es (e ∷ []) new) st'',
      )

  Stores-open_segmented :
      (max m : ℕ)
      → max ≤ m
      → 71 ≤ m
      → (s : SegmentedWriter) × (open_segmented [] max ≡ segmented s) × (s.file ≡ 1) × Stores m [] s
  unfolding open_segmented create last_index file_of log_of flatten
  Stores-open_segmented max m h large = (
    record {
      dir = (1, []) ∷ [];
      max_segment_bytes = if max == 0 then 1 else max;
      current_segment_index = 1;
      current_segment_size = 0;
      file = 1;
    },
    refl,
    refl,
    record {
      ess = [];
      last = [];
      older = [];
      all = refl;
      below = tt;
      closed = refl;
      opened = refl;
      index = refl;
      size = refl;
      limit = ground arith;
      sorted = tt;
      within = tt;
      within_last = omega arith;
      fit = tt;
      fit_last = tt;
    },
  )

module _ (crc : List ℕ → ℕ) (crc_lt : (bs : List ℕ) → crc bs < 256 ^ 4) where
  -- The segments of a writer read back as the entries that it was given.
  read_all-Stores :
      (m : ℕ) (es : List JournalEntry) (s : SegmentedWriter)
      → (st : Stores crc m es s) → s.file < 10 ^ 8
      → (read_all crc (files s.dir) ≡ ok es) × PathsSorted s.dir × Within m s.dir
  read_all-Stores m es s st small =
      let segments : files s.dir ≡ map (log_of crc) (st.ess ++ st.last ∷ []) =
        ap files st.opened
        ∙ files-append st.older ((s.file, log_of crc st.last) ∷ [])
        ∙ ap (λ xs. xs ++ log_of crc st.last ∷ []) st.closed
        ∙ sym (map-append (log_of crc) st.ess (st.last ∷ [])) in
      let whole : flatten (st.ess ++ st.last ∷ []) ≡ es =
        flatten-append_last st.ess st.last ∙ st.all in
      (
        ap (read_all crc) segments
            ∙ read_all-log_of crc crc_lt (st.ess ++ st.last ∷ [])
                (AllSegmentsFit-append st.ess st.last st.fit st.fit_last)
            ∙ ap ok whole,
        subst PathsSorted (sym st.opened)
            (PathsSorted-append s.file st.older (log_of crc st.last) st.below small st.sorted),
        subst (Within m) (sym st.opened)
            (Within-append m s.file st.older (log_of crc st.last) st.within st.within_last),
      )

  -- For a checksum of four bytes and entries in range, fewer than 10^8 - 1, appended one after the
  -- other to an empty segmented journal when no call of the operating system fails: every append
  -- succeeds, the paths of the segments are in the order in which paths sort, reading the segments
  -- in this order gives the entries, and no segment has more than `m` bytes, for every `m` of at
  -- least 71 (the longest record) and the limit on segments.
  pub read_all-append_entries :
      (es : List JournalEntry) (max m : ℕ)
      → AllFit es
      → max ≤ m
      → 71 ≤ m
      → 1 + length es < 10 ^ 8
      → (s : SegmentedWriter) × (append_entries crc [] (open_segmented [] max) es
          ≡ (segmented s, [], none))
        × (read_all crc (files s.dir) ≡ ok es)
        × PathsSorted s.dir
        × Within m s.dir
  read_all-append_entries es max m fits h large few =
      let (s, opened, first, st) = Stores-open_segmented crc max m h large in
      let (s', run, file, st') =
        Stores-append_entries crc m [] es s st fits large (omega (arith, first)) in
      let (read, sorted, within) = read_all-Stores m es s' st' file in
      (s', rw opened run, read, sorted, within)
