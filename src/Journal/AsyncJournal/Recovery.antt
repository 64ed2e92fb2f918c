-- ===== src/Journal/AsyncJournal/Recovery.antt =====
-- Recovery of the file of an asynchronous journal that stopped in some reachable state.
use mathlib.Core.List.{append_assoc, append-nil, map}
use match_x.Base.{
  ℕ, zero, suc, ◌≤◌, ◌<◌, ◌^◌, ◌≡◌, refl, ap, sym, ◌∙◌, subst, List, [], ◌∷◌, ◌++◌, false, length,
  length-append, take, drop, take-append_exact, drop-append_exact, dec_lt, arith,
}
use match_x.Journal.Outcome.{ok, err, invalid_data}
use match_x.Journal.Codec.{decode_record}
use match_x.Journal.Records.{decode_record-take}
use match_x.Journal.Reader.{JournalEntry, recover_file}
use match_x.Journal.Scan.{AllFit, last_sequence, log_of, recover_file-log_of}
use match_x.Journal.Writer.{single}
use match_x.Journal.AsyncJournal.{Worker, AsyncJournal, open_journal, receiving, record_of, Reach}
use match_x.Journal.Logs.{AllFit-append, AllFit-front, bytes_of, log_of-append}
use match_x.Journal.AsyncJournal.History.{records, take-drop_append}
use match_x.Journal.AsyncJournal.Invariant.{Holds}
use match_x.Journal.AsyncJournal.Durability.{InvOf-Reach}

module _ {A : Type 0} where
  take-append_le : (n : ℕ) (xs ys : List A) → n ≤ length xs → take n (xs ++ ys) ≡ take n xs
  take-append_le zero xs ys h = refl
  take-append_le (suc n) [] ys h = absurd (omega arith)
  take-append_le (suc n) (x ∷ xs) ys h = ap (◌∷◌ x) (take-append_le n xs ys (omega arith))

  drop-append_le : (n : ℕ) (xs ys : List A) → n ≤ length xs → drop n (xs ++ ys) ≡ drop n xs ++ ys
  drop-append_le zero xs ys h = refl
  drop-append_le (suc n) [] ys h = absurd (omega arith)
  drop-append_le (suc n) (x ∷ xs) ys h = drop-append_le n xs ys (omega arith)

  -- Of two ways to cut a list, the shorter first piece begins the other.
  front_short :
      (xs ys us vs : List A)
      → xs ++ ys ≡ us ++ vs
      → length xs ≤ length us
      → xs ≡ take (length xs) us
  front_short xs ys us vs h k =
      sym (take-append_exact (length xs) xs ys refl)
      ∙ ap (take (length xs)) h
      ∙ take-append_le (length xs) us vs k

  front_long :
      (xs ys us vs : List A)
      → xs ++ ys ≡ us ++ vs
      → length us ≤ length xs
      → (ws : List A) × (xs ≡ us ++ ws) × (ws ++ ys ≡ vs)
  front_long xs ys us vs h k =
      let start : take (length us) xs ≡ us =
        sym (take-append_le (length us) xs ys k)
        ∙ ap (take (length us)) h
        ∙ take-append_exact (length us) us vs refl in
      (
        drop (length us) xs,
        sym (take-drop_append (length us) xs) ∙ ap (λ zs. zs ++ drop (length us) xs) start,
        sym (drop-append_le (length us) xs ys k)
            ∙ ap (drop (length us)) h
            ∙ drop-append_exact (length us) us vs refl,
      )

module _ (crc : List ℕ → ℕ) where
  -- A piece of a log is some whole records and a tail that is no record.
  cut_log :
      (es : List JournalEntry) (part rest : List ℕ)
      → part ++ rest ≡ log_of crc es
      → (kept : List JournalEntry) × (lost : List JournalEntry) × (tail : List ℕ) × (kept ++ lost
          ≡ es)
        × (part ≡ log_of crc kept ++ tail)
        × (decode_record crc tail ≡ err invalid_data)
  unfolding log_of decode_record
  cut_log [] [] rest h = ([], [], [], refl, refl, refl)
  cut_log [] (b ∷ part) rest h = cc
  cut_log (e ∷ es) part rest h = elim (dec_lt (length part) (length (bytes_of crc e))) [
    | yes short ↦
        let cut = front_short part rest (bytes_of crc e) (log_of crc es) h (omega arith) in
        (
          [],
          e ∷ es,
          part,
          refl,
          refl,
          subst (λ p. decode_record crc p ≡ err invalid_data) (sym cut)
              (decode_record-take crc e.sequence e.command (length part) short),
        )
    | no long ↦
        let (part', first, later) =
          front_long part rest (bytes_of crc e) (log_of crc es) h (omega arith) in
        let (kept, lost, tail, split, whole, torn) = cut_log es part' rest later in
        (
          e ∷ kept,
          lost,
          tail,
          ap (◌∷◌ e) split,
          first
              ∙ ap (◌++◌ (bytes_of crc e)) whole
              ∙ sym (append_assoc (bytes_of crc e) (log_of crc kept) tail),
          torn,
        )
  ]

-- All entries of `a` and `b` in range: those of a front of `b` are.
fit_kept :
    (old synced kept lost waiting : List JournalEntry) {sent : List JournalEntry}
    → AllFit old
    → AllFit sent
    → synced ++ ((kept ++ lost) ++ waiting) ≡ sent
    → AllFit ((old ++ synced) ++ kept)
fit_kept old synced kept lost waiting old_fit fit split =
    let cut : (synced ++ kept) ++ (lost ++ waiting) ≡ synced ++ ((kept ++ lost) ++ waiting) =
      simp append_assoc in
    subst AllFit (sym (append_assoc old synced kept)) (
      AllFit-append old (synced ++ kept) old_fit
        (AllFit-front (synced ++ kept) (lost ++ waiting) (subst AllFit (sym (cut ∙ split)) fit)))

module _ (crc : List ℕ → ℕ) (crc_lt : (bs : List ℕ) → crc bs < 256 ^ 4) where
  -- For a checksum of four bytes, a journal opened on the file of the entries `old`, and entries
  -- in range: in every state that callers and worker reach, whatever the operating system has
  -- answered, the entries put into the queue so far, `sent`, begin with `synced` and then `kept`;
  -- the durable sequence number is the last of `synced` (0 without), recovery of the file keeps
  -- exactly the records of `old`, `synced` and `kept` and reports their last number, and it drops
  -- no byte unless the journal is degraded.
  pub recover_file-Reach :
      (old sent : List JournalEntry) (capacity batch_size : ℕ) (j : AsyncJournal)
      → Reach crc (open_journal capacity batch_size (log_of crc old)) sent j
      → AllFit old
      → AllFit sent
      → (synced : List JournalEntry) × (kept : List JournalEntry) × (lost : List JournalEntry)
        × (file : List ℕ) × (n : ℕ) × (synced ++ (kept ++ lost) ≡ sent)
        × (j.durable ≡ last_sequence 0 synced)
        × (j.writer ≡ single file)
        × (recover_file crc file
            ≡ ok (
              record {
                last_valid_sequence = last_sequence 0 ((old ++ synced) ++ kept);
                truncated_bytes = n;
              },
              log_of crc ((old ++ synced) ++ kept),
            ))
        × (j.degraded ≡ false → n ≡ 0)
  recover_file-Reach old sent capacity batch_size j reach old_fit fit =
      let v = InvOf-Reach crc old capacity batch_size sent j reach in
      let (kept, lost, tail, split, part, torn) = cut_log crc v.batch v.part v.rest v.partial in
      let pieces : v.synced ++ ((kept ++ lost) ++ v.waiting) ≡ sent =
        ap (λ b. v.synced ++ (b ++ v.waiting)) split ∙ v.split in
      let bytes : log_of crc (old ++ v.synced) ++ v.part
          ≡ log_of crc ((old ++ v.synced) ++ kept) ++ tail =
        ap (◌++◌ (log_of crc (old ++ v.synced))) part
        ∙ sym (append_assoc (log_of crc (old ++ v.synced)) (log_of crc kept) tail)
        ∙ ap (λ b. b ++ tail) (sym (log_of-append crc (old ++ v.synced) kept)) in
      (
        v.synced,
        kept,
        lost ++ v.waiting,
        log_of crc ((old ++ v.synced) ++ kept) ++ tail,
        length tail,
        ap (◌++◌ v.synced) (sym (append_assoc kept lost v.waiting)) ∙ pieces,
        v.mark,
        v.file ∙ ap single bytes,
        recover_file-log_of crc crc_lt ((old ++ v.synced) ++ kept) tail invalid_data
            (fit_kept old v.synced kept lost v.waiting old_fit fit pieces) torn,
        λ good.
            omega
              (arith, ap length (sym (v.clean good) ∙ part), length-append (log_of crc kept) tail),
      )

map_nil : {A B : Type 0} (f : A → B) (xs : List A) → [] ≡ map f xs → xs ≡ []
map_nil f [] h = refl
map_nil f (x ∷ xs) h = cc

module _ (crc : List ℕ → ℕ) where
  -- In every reachable state of a journal opened on the file of the entries `old` that is not
  -- degraded, when the worker waits for a message and the queue is empty, the file is that of
  -- `old` followed by all entries put into the queue, and the durable sequence number is the last
  -- of these (0 without).
  pub synced-Reach :
      (old sent : List JournalEntry) (capacity batch_size : ℕ) (j : AsyncJournal)
      → Reach crc (open_journal capacity batch_size (log_of crc old)) sent j
      → j.degraded ≡ false
      → j.worker ≡ receiving
      → j.queue ≡ []
      → (j.writer ≡ single (log_of crc (old ++ sent))) × (j.durable ≡ last_sequence 0 sent)
  synced-Reach old sent capacity batch_size j reach good idle empty =
      let v = InvOf-Reach crc old capacity batch_size sent j reach in
      let none_held : v.batch ≡ [] =
        (subst (λ (w : Worker). Holds crc old j.degraded w v.synced v.batch) idle v.held).1 in
      let none_waits : v.waiting ≡ [] =
        map_nil (record_of crc) v.waiting (ap records (sym empty) ∙ v.queue) in
      let all : v.synced ≡ sent =
        sym (append-nil v.synced)
        ∙ ap (◌++◌ v.synced) (sym (ap (λ b. b ++ v.waiting) none_held ∙ none_waits))
        ∙ v.split in
      (
        v.file
            ∙ ap (λ p. single (log_of crc (old ++ v.synced) ++ p)) (v.clean good)
            ∙ ap single (append-nil (log_of crc (old ++ v.synced)))
            ∙ ap (λ es. single (log_of crc (old ++ es))) all,
        v.mark ∙ ap (last_sequence 0) all,
      )
