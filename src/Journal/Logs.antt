-- ===== src/Journal/Logs.antt =====
-- Logs and the ranges of their entries, of two lists behind each other.
use mathlib.Core.List.{append_assoc, append-nil}
use match_x.Base.{ℕ, ◌≡◌, refl, ap, sym, ◌∙◌, List, [], ◌∷◌, ◌++◌}
use match_x.Journal.Codec.{encode_record}
use match_x.Journal.Reader.{JournalEntry}
use match_x.Journal.Scan.{AllFit, log_of}

pub AllFit-append : (xs ys : List JournalEntry) → AllFit xs → AllFit ys → AllFit (xs ++ ys)
AllFit-append [] ys h k = k
AllFit-append (x ∷ xs) ys h k = (h.0, h.1, AllFit-append xs ys h.2 k)

pub AllFit-front : (xs ys : List JournalEntry) → AllFit (xs ++ ys) → AllFit xs
AllFit-front [] ys h = tt
AllFit-front (x ∷ xs) ys h = (h.0, h.1, AllFit-front xs ys h.2)

module _ (crc : List ℕ → ℕ) where
  abbrev pub bytes_of : JournalEntry → List ℕ
  bytes_of e = encode_record crc e.sequence e.command

  pub log_of-append :
      (xs ys : List JournalEntry) → log_of crc (xs ++ ys) ≡ log_of crc xs ++ log_of crc ys
  unfolding log_of
  log_of-append [] ys = refl
  log_of-append (x ∷ xs) ys =
      ap (◌++◌ (bytes_of x)) (log_of-append xs ys)
      ∙ sym (append_assoc (bytes_of x) (log_of crc xs) (log_of crc ys))

  pub log_of-append_last :
      (es : List JournalEntry) (e : JournalEntry)
      → log_of crc (es ++ e ∷ []) ≡ log_of crc es ++ bytes_of e
  unfolding log_of
  log_of-append_last es e =
      log_of-append es (e ∷ []) ∙ ap (◌++◌ (log_of crc es)) (append-nil (bytes_of e))
