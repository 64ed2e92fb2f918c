-- ===== src/Book/AssocMap.antt =====
-- An association list meets the interface of the order index. The tests run the book with it.
use match_x.Base.{ℕ, ◌≡◌, ◌≢◌, refl, List, [], ◌∷◌, ◌==◌, if◌then◌else◌, Option, none, some, arith}
use match_x.Book.State.{IndexMap}

abbrev pub AssocMap : Type 0
AssocMap = List (ℕ × ℕ)

unfoldable pub find : AssocMap → ℕ → Option ℕ
find [] k = none
find ((j, v) ∷ m) k = if j == k then some v else find m k

unfoldable pub delete : AssocMap → ℕ → AssocMap
delete [] k = []
delete ((j, v) ∷ m) k = if j == k then delete m k else (j, v) ∷ delete m k

unfoldable pub put : AssocMap → ℕ → ℕ → AssocMap
put m k v = (k, v) ∷ m

pub find-put_self : (m : AssocMap) (k v : ℕ) → find (put m k v) k ≡ some v
unfolding find put
find-put_self m k v = ground arith

pub find-put_ne : (m : AssocMap) (k j v : ℕ) → k ≢ j → find (put m k v) j ≡ find m j
unfolding find put
find-put_ne m k j v h = ground arith

pub find-delete_self : (m : AssocMap) (k : ℕ) → find (delete m k) k ≡ none
unfolding find delete
find-delete_self [] k = refl
find-delete_self ((j, v) ∷ m) k = ground (arith, find-delete_self m k)

pub find-delete_ne : (m : AssocMap) (k j : ℕ) → k ≢ j → find (delete m k) j ≡ find m j
unfolding find delete
find-delete_ne [] k j h = refl
find-delete_ne ((i, v) ∷ m) k j h = ground (arith, find-delete_ne m k j h)

pub find-nil : (k : ℕ) → find [] k ≡ none
unfolding find
find-nil k = refl

instance abbrev pub assoc_map : IndexMap AssocMap
assoc_map = record {
  new = [];
  get = find;
  insert = put;
  remove = delete;
  get-new = find-nil;
  get-insert_self = find-put_self;
  get-insert_ne = find-put_ne;
  get-remove_self = find-delete_self;
  get-remove_ne = find-delete_ne;
}
