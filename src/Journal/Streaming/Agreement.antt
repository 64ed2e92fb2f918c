-- ===== src/Journal/Streaming/Agreement.antt =====
-- The streaming reader gives what the batch reader gives.
use native.Mathlib.Nat.{suc-add, zero-add}
use match_x.Base.{
  ℕ, zero, suc, ◌+◌, ◌≤◌, ◌≡◌, refl, ap, sym, ◌∙◌, List, [], ◌∷◌, ◌++◌, some, length, length-append,
  subst, take, drop, length-take, length-drop, drop-drop, take-take, le→leb, lt→ltb, arith,
}
use match_x.Types.{Command}
use match_x.Journal.Outcome.{ok, bind_ok}
use match_x.Journal.Bytes.{from_le_bytes}
use match_x.Journal.Codec.{decode_record}
use match_x.Journal.Reader.{JournalEntry, read_records, read_file, read_all}
use match_x.Journal.Streaming.{
  StreamingReader, open_files, read_record, next_from, next_entry, entries_of,
}

-- a window inside the bytes kept is the window of all bytes
take-drop-take :
    {A : Type 0} (a b n : ℕ) (xs : List A)
    → a + b ≤ n
    → take b (drop a (take n xs)) ≡ take b (drop a xs)
take-drop-take zero b n xs h = take-take b n xs (omega arith)
take-drop-take (suc a) b zero xs h = absurd (omega arith)
take-drop-take (suc a) b (suc n) [] h = refl
take-drop-take (suc a) b (suc n) (x ∷ xs) h = take-drop-take a b n xs (omega arith)

take_split :
    {A : Type 0} (a b : ℕ) (xs : List A) → take a xs ++ take b (drop a xs) ≡ take (a + b) xs
take_split zero b xs = ground arith
take_split (suc a) zero [] = rw suc-add
take_split (suc a) (suc b) [] = rw suc-add
take_split (suc a) b (x ∷ xs) = rw suc-add (ap (◌∷◌ x) (take_split a b xs))

module _ (crc : List ℕ → ℕ) where
  abbrev required : List ℕ → ℕ
  required bytes = 4 + 8 + from_le_bytes (take 4 bytes) + 4

  -- Bytes behind the record that a header announces do not count.
  decode_record-take-required :
      (bytes : List ℕ) (n : ℕ)
      → required bytes ≤ n
      → n ≤ length bytes
      → decode_record crc (take n bytes) ≡ decode_record crc bytes
  unfolding decode_record
  decode_record-take-required bytes n h k = rw (
    length-take n bytes k,
    take-take 4 n bytes (omega arith),
    le→leb 4 n (omega arith),
    le→leb 4 (length bytes) (omega arith),
    le→leb (required bytes) n h,
    le→leb (required bytes) (length bytes) (omega arith),
    take-drop-take 4 8 n bytes (omega arith),
    take-drop-take 12 (from_le_bytes (take 4 bytes)) n bytes (omega arith),
    take-drop-take (12 + from_le_bytes (take 4 bytes)) 4 n bytes (omega arith),
  )

  used-decode_record :
      (bytes : List ℕ) (r : ℕ × Command × ℕ)
      → decode_record crc bytes ≡ ok r
      → (r.2 ≡ required bytes) × (required bytes ≤ length bytes)
  unfolding decode_record
  used-decode_record bytes r h = ground arith

  -- A record that the batch reader decodes is the streaming reader's next entry.
  read_record-decode_record :
      (files : List (List ℕ)) (bytes : List ℕ) (sequence used : ℕ) (cmd : Command)
      → decode_record crc bytes ≡ ok (sequence, cmd, used)
      → read_record crc files bytes
        ≡ ok (
          record { paths = files; reader = some (drop used bytes) },
          some (record { sequence = sequence; command = cmd }),
        )
  unfolding read_record
  read_record-decode_record files bytes sequence used cmd h =
      let (u, inside) = used-decode_record bytes (sequence, cmd, used) h in
      let body = 8 + from_le_bytes (take 4 bytes) + 4 in
      let whole : 4 + body ≡ used = omega (arith, u) in
      rw (
        le→leb body (length (drop 4 bytes)) (omega (arith, length-drop 4 bytes)),
        take_split 4 body bytes,
        drop-drop body 4 bytes,
        whole,
        decode_record-take-required bytes used (omega arith) (omega arith),
        h,
      )

  next_from-decode_record :
      (files : List (List ℕ)) (bytes : List ℕ) (sequence used : ℕ) (cmd : Command)
      → decode_record crc bytes ≡ ok (sequence, cmd, used)
      → next_from crc files bytes ≡ read_record crc files bytes
  unfolding next_from
  next_from-decode_record [] bytes sequence used cmd h =
      rw (le→leb 4 (length bytes) (omega (arith, used-decode_record bytes (sequence, cmd, used) h)))
  next_from-decode_record (file ∷ files) bytes sequence used cmd h =
      rw (le→leb 4 (length bytes) (omega (arith, used-decode_record bytes (sequence, cmd, used) h)))

  -- The state between two records, with these bytes left in the file.
  abbrev pub at : List (List ℕ) → List ℕ → StreamingReader
  at files bytes = record { paths = files; reader = some bytes }

  pub entries_of-cons :
      (fuel : ℕ) (files : List (List ℕ)) (bytes : List ℕ) (sequence used : ℕ) (cmd : Command)
      (rest : List JournalEntry)
      → decode_record crc bytes ≡ ok (sequence, cmd, used)
      → entries_of crc fuel (at files (drop used bytes)) ≡ ok rest
      → entries_of crc (suc fuel) (at files bytes)
        ≡ ok (record { sequence = sequence; command = cmd } ∷ rest)
  unfolding entries_of next_entry
  entries_of-cons fuel files bytes sequence used cmd rest h k = rw (
    next_from-decode_record files bytes sequence used cmd h,
    read_record-decode_record files bytes sequence used cmd h,
    k,
  )

  -- The entries of one file, before those of the files behind it.
  entries_of-read_records :
      (fuel k : ℕ) (files : List (List ℕ)) (bytes : List ℕ) (es rest : List JournalEntry)
      → read_records crc fuel bytes ≡ ok es
      → entries_of crc k (at files []) ≡ ok rest
      → entries_of crc (length es + k) (at files bytes) ≡ ok (es ++ rest)
  unfolding read_records
  entries_of-read_records zero k files bytes es rest h next = absurd (ground arith)
  entries_of-read_records (suc fuel) k files [] es rest h next =
      let none_left : es ≡ [] = ground arith in rw (none_left, zero-add) next
  entries_of-read_records (suc fuel) k files (b ∷ bytes) es rest h next =
      let full = rw (lt→ltb 0 (suc (length bytes)) (omega arith)) at h in
      let (d, hd, h') = bind_ok (decode_record crc (b ∷ bytes)) _ full in
      let (es', hes, h'') = bind_ok (read_records crc fuel (drop d.2 (b ∷ bytes))) _ h' in
      let split : es ≡ record { sequence = d.0; command = d.1 } ∷ es' = ground arith in
      rw (split, suc-add)
        (entries_of-cons (length es' + k) files (b ∷ bytes) d.0 d.2 d.1 (es' ++ rest) hd
          (entries_of-read_records fuel k files (drop d.2 (b ∷ bytes)) es' rest hes next))

  -- At the end of a file the next one is opened.
  entries_of-next_file :
      (n : ℕ) (file : List ℕ) (files : List (List ℕ))
      → entries_of crc (suc n) (at (file ∷ files) []) ≡ entries_of crc (suc n) (at files file)
  unfolding entries_of next_entry next_from
  entries_of-next_file n file files = refl

  entries_of-read_all :
      (files : List (List ℕ)) (es : List JournalEntry)
      → read_all crc files ≡ ok es
      → entries_of crc (suc (length es)) (at files []) ≡ ok es
  unfolding entries_of next_entry next_from read_all read_file
  entries_of-read_all [] es h = ground arith
  entries_of-read_all (file ∷ files) es h =
      let (a, ha, h') = bind_ok (read_file crc file) _ h in
      let (b, hb, h'') = bind_ok (read_all crc files) _ h' in
      let joined : a ++ b ≡ es = ground arith in
      let count : length a + suc (length b) ≡ suc (length (a ++ b)) =
        omega (arith, length-append a b) in
      subst (λ es. entries_of crc (suc (length es)) (at (file ∷ files) []) ≡ ok es) joined
        (entries_of-next_file (length (a ++ b)) file files
          ∙ subst (λ n. entries_of crc n (at files file) ≡ ok (a ++ b)) count
              (entries_of-read_records (suc (length file)) (suc (length b)) files file a b ha
                (entries_of-read_all files b hb)))

  -- When `read_all` of some files returns entries, a reader opened on these files that is asked
  -- once more than there are entries returns the same ones, and then that there are no more.
  pub entries_of-open_files :
      (files : List (List ℕ)) (es : List JournalEntry)
      → read_all crc files ≡ ok es
      → entries_of crc (suc (length es)) (open_files files) ≡ ok es
  unfolding open_files read_all entries_of next_entry
  entries_of-open_files [] es h = ground arith
  entries_of-open_files (file ∷ files) es h =
      sym (entries_of-next_file (length es) file files) ∙ entries_of-read_all (file ∷ files) es h
