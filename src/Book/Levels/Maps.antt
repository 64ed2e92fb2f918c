-- ===== src/Book/Levels/Maps.antt =====
-- Reads of a sparse map after an insertion and a removal.
use match_x.Base.{ℕ, suc, ◌≤◌, ◌<◌, ◌≡◌, ◌≢◌, refl, [], ◌∷◌, Option, none, some, arith}
use match_x.Types.{PriceLevel, empty_level}
use match_x.Book.PriceMap
use match_x.Book.PriceMap.{PriceMap}

pub get-insert_self :
    (m : PriceMap) (p : ℕ) (l : PriceLevel) → PriceMap.get (PriceMap.insert m p l) p ≡ some l
unfolding PriceMap.get PriceMap.insert
get-insert_self [] p l = ground arith
get-insert_self ((q, k) ∷ m) p l = ground (arith, get-insert_self m p l)

pub get-insert_ne :
    (m : PriceMap) (p r : ℕ) (l : PriceLevel)
    → p ≢ r
    → PriceMap.get (PriceMap.insert m p l) r ≡ PriceMap.get m r
unfolding PriceMap.get PriceMap.insert
get-insert_ne [] p r l h = ground arith
get-insert_ne ((q, k) ∷ m) p r l h = ground (arith, get-insert_ne m p r l h)

pub get-remove_ne :
    (m : PriceMap) (p r : ℕ) → p ≢ r → PriceMap.get (PriceMap.remove m p) r ≡ PriceMap.get m r
unfolding PriceMap.get PriceMap.remove
get-remove_ne [] p r h = refl
get-remove_ne ((q, k) ∷ m) p r h = ground (arith, get-remove_ne m p r h)

-- a vacant entry is an empty level
abbrev pub or_empty : Option PriceLevel → PriceLevel
or_empty none = empty_level
or_empty (some l) = l

-- The keys ascend, from `lo` on.
abbrev pub Ascends : ℕ → PriceMap → Type 0
Ascends lo [] = Unit {0}
Ascends lo ((q, k) ∷ m) = (lo ≤ q) × Ascends (suc q) m

Ascends-weaken : (lo hi : ℕ) (m : PriceMap) → lo ≤ hi → Ascends hi m → Ascends lo m
Ascends-weaken lo hi [] h a = tt
Ascends-weaken lo hi ((q, k) ∷ m) h a = (omega arith, a.1)

pub Ascends-insert :
    (lo p : ℕ) (l : PriceLevel) (m : PriceMap)
    → lo ≤ p
    → Ascends lo m
    → Ascends lo (PriceMap.insert m p l)
unfolding PriceMap.insert
Ascends-insert lo p l [] h a = (h, tt)
Ascends-insert lo p l ((q, k) ∷ m) h a = ground (arith, Ascends-insert (suc q) p l m)

get_below : (lo p : ℕ) (m : PriceMap) → p < lo → Ascends lo m → PriceMap.get m p ≡ none
unfolding PriceMap.get
get_below lo p [] h a = refl
get_below lo p ((q, k) ∷ m) h a = ground (arith, get_below (suc q) p m)

pub get-remove_self :
    (lo p : ℕ) (m : PriceMap) → Ascends lo m → PriceMap.get (PriceMap.remove m p) p ≡ none
unfolding PriceMap.get PriceMap.remove
get-remove_self lo p [] a = refl
get-remove_self lo p ((q, k) ∷ m) a =
    ground (arith, get-remove_self (suc q) p m, get_below (suc q) p m)

pub Ascends-remove : (lo p : ℕ) (m : PriceMap) → Ascends lo m → Ascends lo (PriceMap.remove m p)
unfolding PriceMap.remove
Ascends-remove lo p [] a = tt
Ascends-remove lo p ((q, k) ∷ m) a =
    ground (arith, Ascends-remove (suc q) p m, Ascends-weaken lo (suc q) m)
