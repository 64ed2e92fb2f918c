-- ===== src/Journal/AsyncJournal/Tests.antt =====
-- The witnesses on the asynchronous journal: a record that is sent, written, and cut off.
use match_x.Base.{ℕ, ◌≡◌, refl, List, [], ◌∷◌, ◌++◌, true, false, take, arith}
use match_x.Types.{cancel_order}
use match_x.Journal.Outcome.{ok}
use match_x.Journal.Reader.{JournalEntry, recover_file}
use match_x.Journal.Scan.{AllFit, last_sequence, log_of}
use match_x.Journal.Writer.{fails, single, append_raw, append_raw_batch, flush}
use match_x.Journal.AsyncJournal.{
  append, receiving, collecting, writing, exited, checked, queued, AsyncJournal, open_journal,
  check_open, try_send, receive, collect, finish_batch, worker_step, record_of, begin, send, work,
  Reach, start, later,
}
use match_x.Journal.AsyncJournal.Recovery.{recover_file-Reach, synced-Reach}
use match_x.Journal.AsyncJournal.Progress.{run_worker}
use match_x.Journal.AsyncJournal.Running.{run_worker_writes}
use match_x.Journal.AsyncJournal.Races.{lost_after_close}
use match_x.Journal.Logs.{bytes_of}
use match_x.Journal.Tests.{checksum, checksum_lt, entries, entries_fit}

abbrev next : JournalEntry
next = record { sequence = 3; command = cancel_order 77 }

abbrev opened : AsyncJournal
opened = open_journal 4 2 (log_of checksum entries)

abbrev sent_one : AsyncJournal
sent_one = record opened { queue = append (record_of checksum next) ∷ []; calls = queued 3 ∷ [] }

abbrev in_batch : AsyncJournal
in_batch = record sent_one { queue = []; worker = collecting (bytes_of checksum next ∷ []) 3 }

abbrev to_write : AsyncJournal
to_write = record in_batch { worker = writing (bytes_of checksum next ∷ []) 3 false }

abbrev written : AsyncJournal
written = record to_write {
  writer = single (log_of checksum entries ++ bytes_of checksum next);
  durable = 3;
  worker = receiving;
}

abbrev cut_off : AsyncJournal
cut_off = record to_write {
  writer = single (log_of checksum entries ++ take 7 (bytes_of checksum next));
  degraded = true;
  worker = exited;
}

sent_one-Reach : Reach checksum opened (next ∷ []) sent_one
unfolding open_journal check_open try_send
sent_one-Reach =
    let asked : AsyncJournal = record opened { calls = checked next ∷ [] } in
    later (next ∷ []) sent_one (later [] asked start (begin next refl))
      (send [] [] next (record asked { queue = append (record_of checksum next) ∷ [] }) refl refl)

to_write-Reach : Reach checksum opened (next ∷ []) to_write
unfolding open_journal worker_step receive collect
to_write-Reach =
    later [] to_write (later [] in_batch sent_one-Reach (work [] in_batch refl))
      (work [] to_write refl)

written-Reach : Reach checksum opened (next ∷ []) written
unfolding open_journal worker_step finish_batch append_raw_batch append_raw flush
written-Reach = later [] written to_write-Reach (work [] written refl)

cut_off-Reach : Reach checksum opened (next ∷ []) cut_off
unfolding open_journal worker_step finish_batch append_raw_batch append_raw flush
cut_off-Reach = later [] cut_off to_write-Reach (work (fails 7 ∷ []) cut_off refl)

next_fit : AllFit (next ∷ [])
next_fit = (omega arith, omega arith, tt)

recover_file-Reach_example :
    (synced : List JournalEntry) × (kept : List JournalEntry) × (lost : List JournalEntry)
    × (file : List ℕ) × (n : ℕ) × (synced ++ (kept ++ lost) ≡ next ∷ [])
    × (cut_off.durable ≡ last_sequence 0 synced)
    × (cut_off.writer ≡ single file)
    × (recover_file checksum file
        ≡ ok (
          record {
            last_valid_sequence = last_sequence 0 ((entries ++ synced) ++ kept);
            truncated_bytes = n;
          },
          log_of checksum ((entries ++ synced) ++ kept),
        ))
    × (cut_off.degraded ≡ false → n ≡ 0)
recover_file-Reach_example =
    recover_file-Reach checksum checksum_lt entries (next ∷ []) 4 2 cut_off cut_off-Reach
      entries_fit next_fit

synced-Reach_example :
    (written.writer ≡ single (log_of checksum (entries ++ next ∷ []))) × (written.durable ≡ 3)
unfolding open_journal
synced-Reach_example =
    synced-Reach checksum entries (next ∷ []) 4 2 written written-Reach refl refl refl

run_worker_writes_example :
    ((run_worker 6 sent_one).writer ≡ single (log_of checksum (entries ++ next ∷ [])))
    × ((run_worker 6 sent_one).durable ≡ 3)
unfolding open_journal
run_worker_writes_example =
    run_worker_writes checksum entries (next ∷ []) 4 2 6 sent_one sent_one-Reach refl refl
      (omega arith)

lost_after_close_example :
    (j : AsyncJournal) × Reach checksum (open_journal 2 8 []) (next ∷ []) j
    × (j.accepted ≡ 3)
    × (j.worker ≡ exited)
    × (j.degraded ≡ false)
    × (j.writer ≡ single [])
lost_after_close_example = lost_after_close checksum [] next 2 8 (omega arith)
