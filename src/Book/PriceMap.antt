-- ===== src/Book/PriceMap.antt =====
-- `BTreeMap<u64, PriceLevel>` of the standard library: the entries in the order of their prices.
use match_x.Base.{ℕ, List, [], ◌∷◌, ◌==◌, ltb, leb, ◌&&◌, if◌then◌else◌, Option, none, some}
use match_x.Types.{PriceLevel}

abbrev pub PriceMap : Type 0
PriceMap = List (ℕ × PriceLevel)

unfoldable pub get : PriceMap → ℕ → Option PriceLevel
get [] p = none
get ((q, l) ∷ m) p = if q == p then some l else get m p

unfoldable pub insert : PriceMap → ℕ → PriceLevel → PriceMap
insert [] p l = (p, l) ∷ []
insert ((q, k) ∷ m) p l =
    let rest = insert m p l in
    if p == q then (p, l) ∷ m else if ltb p q then (p, l) ∷ (q, k) ∷ m else (q, k) ∷ rest

unfoldable pub remove : PriceMap → ℕ → PriceMap
remove [] p = []
remove ((q, k) ∷ m) p = let rest = remove m p in if q == p then m else (q, k) ∷ rest

-- `keys().next()` and `keys().next_back()`
unfoldable pub first_key : PriceMap → Option ℕ
first_key [] = none
first_key ((q, k) ∷ m) = some q

unfoldable pub last_key : PriceMap → Option ℕ
last_key [] = none
last_key ((q, k) ∷ m) = elim (last_key m) [ none ↦ some q | some p ↦ some p ]

-- the keys of `range(low..high)`
unfoldable pub keys_in : PriceMap → ℕ → ℕ → List ℕ
keys_in [] low high = []
keys_in ((q, k) ∷ m) low high =
    if leb low q && ltb q high then q ∷ keys_in m low high else keys_in m low high
