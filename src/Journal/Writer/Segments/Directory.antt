-- ===== src/Journal/Writer/Segments/Directory.antt =====
-- The directory of a segmented writer whose last segment is the open one.
use mathlib.Core.List.{append_assoc, append-nil, flatten}
use match_x.Base.{
  ℕ, ◌+◌, ◌≤◌, ◌<◌, ◌≡◌, refl, ap, sym, ◌∙◌, ◌^◌, true, List, [], ◌∷◌, ◌++◌, length, arith,
}
use match_x.Journal.Reader.{JournalEntry}
use match_x.Journal.Scan.{AllFit, AllSegmentsFit}
use match_x.Journal.Writer.{Dir, create, append_to, segment_path, sorts_before}
use match_x.Journal.Writer.Names.{sorts-segment_path}

-- every segment comes before segment `n`
abbrev pub Below : ℕ → Dir → Type 0
Below n [] = Unit {0}
Below n ((i, file) ∷ dir) = (i < n) × Below n dir

abbrev pub files : Dir → List (List ℕ)
files [] = []
files ((i, file) ∷ dir) = file ∷ files dir

-- no segment has more than `m` bytes
abbrev pub Within : ℕ → Dir → Type 0
Within m [] = Unit {0}
Within m ((i, file) ∷ dir) = (length file ≤ m) × Within m dir

pub append_to_last :
    (n : ℕ) (older : Dir) (file bytes : List ℕ)
    → Below n older
    → append_to n bytes (older ++ (n, file) ∷ []) ≡ older ++ (n, file ++ bytes) ∷ []
unfolding append_to
append_to_last n [] file bytes h = ground arith
append_to_last n ((i, f) ∷ older) file bytes h = ground (arith, append_to_last n older file bytes)

-- the names of the segments come one after the other in the order of paths
abbrev pub PathsSorted : Dir → Type 0
PathsSorted [] = Unit {0}
PathsSorted ((i, file) ∷ []) = Unit {0}
PathsSorted ((i, file) ∷ (j, next) ∷ dir) =
    (sorts_before (segment_path i) (segment_path j) ≡ true) × PathsSorted ((j, next) ∷ dir)

pub create_last :
    (n : ℕ) (dir : Dir) → Below n dir → n < 10 ^ 8 → create n dir ≡ dir ++ (n, []) ∷ []
unfolding create
create_last n [] h small = refl
create_last n ((i, f) ∷ dir) h small =
    ground (arith, create_last n dir h.1 small, (sorts-segment_path i n h.0 small).1)

-- a segment behind all others stands last in the order of paths
pub PathsSorted-append :
    (n : ℕ) (dir : Dir) (file : List ℕ)
    → Below n dir
    → n < 10 ^ 8
    → PathsSorted dir
    → PathsSorted (dir ++ (n, file) ∷ [])
PathsSorted-append n [] file h small sorted = tt
PathsSorted-append n ((i, f) ∷ []) file h small sorted = ((sorts-segment_path i n h.0 small).0, tt)
PathsSorted-append n ((i, f) ∷ (j, g) ∷ dir) file h small sorted =
    (sorted.0, PathsSorted-append n ((j, g) ∷ dir) file h.1 small sorted.1)

pub Below-append :
    (n : ℕ) (older : Dir) (file : List ℕ) → Below n older → Below (n + 1) (older ++ (n, file) ∷ [])
Below-append n [] file h = omega arith
Below-append n ((i, f) ∷ older) file h = ground (arith, Below-append n older file)

pub Within-append :
    (m n : ℕ) (older : Dir) (file : List ℕ)
    → Within m older
    → length file ≤ m
    → Within m (older ++ (n, file) ∷ [])
Within-append m n [] file h k = omega arith
Within-append m n ((i, f) ∷ older) file h k = (h.0, Within-append m n older file h.1 k)

pub files-append : (a b : Dir) → files (a ++ b) ≡ files a ++ files b
files-append [] b = refl
files-append ((i, f) ∷ a) b = ap (◌∷◌ f) (files-append a b)

pub AllSegmentsFit-append :
    (ess : List (List JournalEntry)) (es : List JournalEntry)
    → AllSegmentsFit ess
    → AllFit es
    → AllSegmentsFit (ess ++ es ∷ [])
AllSegmentsFit-append [] es h k = (k, tt)
AllSegmentsFit-append (x ∷ ess) es h k = (h.0, AllSegmentsFit-append ess es h.1 k)

pub flatten-append_last :
    {A : Type 0} (xss : List (List A)) (xs : List A) → flatten (xss ++ xs ∷ []) ≡ flatten xss ++ xs
unfolding flatten
flatten-append_last [] xs = append-nil xs
flatten-append_last (x ∷ xss) xs =
    ap (◌++◌ x) (flatten-append_last xss xs) ∙ sym (append_assoc x (flatten xss) xs)
