-- ===== src/Book/Queue/Links.antt =====
-- Segments of a queue: how they come apart, and what a write to a slot leaves of them.
use match_x.Base.{
  ◌≡◌, ◌≢◌, refl, ap, sym, ◌∙◌, subst, List, [], ◌∷◌, ◌++◌, some, set, get_elem?-set_ne, Exec, ok,
  bind_ok,
}
use match_x.Types.{ArenaIndex, Order}
use match_x.Arena
use match_x.Arena.{Arena, assert_live}
use match_x.Arena.Access.{get-get_mut}
use match_x.Arena.FreeList.Slots.{SameBut}
use match_x.Book.Queue.{Entry, first, last, NotIn, Linked, Segment}

get_set_ne :
    (a : Arena) (i j : ArenaIndex) (o : Order)
    → i ≢ j
    → Arena.get (record a { data_slots = set a.data_slots i (some o) }) j ≡ Arena.get a j
unfolding Arena.get assert_live
get_set_ne a i j o ne = rw (get_elem?-set_ne a.data_slots i j (some o) ne) refl

pub get_mut-SameBut :
    (a b : Arena) (i : ArenaIndex) (f : Order → Exec Order)
    → Arena.get_mut a i f ≡ ok b
    → SameBut i a b
unfolding Arena.get_mut
get_mut-SameBut a b i f h j ne =
    let (o, read, later) = bind_ok (Arena.get a i) _ h in
    let (o', changed, last) = bind_ok (f o) _ later in
    let same : record a { data_slots = set a.data_slots i (some o') } ≡ b = cc in
    ap (λ (b : Arena). Arena.get b j) (sym same) ∙ get_set_ne a i j o' ne

get_mut_run :
    (a : Arena) (i : ArenaIndex) (f : Order → Exec Order) (o o' : Order)
    → Arena.get a i ≡ ok o
    → f o ≡ ok o'
    → Arena.get_mut a i f ≡ ok (record a { data_slots = set a.data_slots i (some o') })
unfolding Arena.get_mut
get_mut_run a i f o o' read changed = rw (read, changed) refl

-- A write to a slot in use returns.
pub get_mut_present :
    (a : Arena) (i : ArenaIndex) (f : Order → Exec Order) (o o' : Order)
    → Arena.get a i ≡ ok o
    → f o ≡ ok o'
    → (b : Arena) × (Arena.get_mut a i f ≡ ok b) × (Arena.get b i ≡ ok o') × SameBut i a b
get_mut_present a i f o o' read changed =
    let b : Arena = record a { data_slots = set a.data_slots i (some o') } in
    let h = get_mut_run a i f o o' read changed in
    (b, h, get-get_mut a b i f o o' h read changed, get_mut-SameBut a b i f h)

pub NotIn-append :
    (i : ArenaIndex) (xs ys : List Entry) → NotIn i (xs ++ ys) → NotIn i xs × NotIn i ys
NotIn-append i [] ys h = (tt, h)
NotIn-append i (x ∷ xs) ys h = let (l, r) = NotIn-append i xs ys h.1 in ((h.0, l), r)

pub NotIn-both :
    (i : ArenaIndex) (xs ys : List Entry) → NotIn i xs → NotIn i ys → NotIn i (xs ++ ys)
NotIn-both i [] ys h k = k
NotIn-both i (x ∷ xs) ys h k = (h.0, NotIn-both i xs ys h.1 k)

pub last_ne : (i : ArenaIndex) (x : Entry) (xs : List Entry) → NotIn i (x ∷ xs) → i ≢ last x.0 xs
last_ne i x [] h = h.0
last_ne i x (y ∷ ys) h = last_ne i y ys h.1

pub first-append :
    (xs ys : List Entry) (n : ArenaIndex) → first (xs ++ ys) n ≡ first xs (first ys n)
first-append [] ys n = refl
first-append (x ∷ xs) ys n = refl

pub last-append : (p : ArenaIndex) (xs ys : List Entry) → last p (xs ++ ys) ≡ last (last p xs) ys
last-append p [] ys = refl
last-append p (x ∷ xs) ys = last-append x.0 xs ys

abbrev pub Apart : List Entry → List Entry → Type 0
Apart [] ys = Unit {0}
Apart (x ∷ xs) ys = NotIn x.0 ys × Apart xs ys

pub last-Apart : (x : Entry) (xs ys : List Entry) → Apart (x ∷ xs) ys → NotIn (last x.0 xs) ys
last-Apart x [] ys h = h.0
last-Apart x (y ∷ xs) ys h = last-Apart y xs ys h.1

pub first-Apart : (xs : List Entry) (y : Entry) (ys : List Entry) → Apart xs (y ∷ ys) → NotIn y.0 xs
first-Apart [] y ys h = tt
first-Apart (x ∷ xs) y ys h = (λ e. h.0.0 (sym e), first-Apart xs y ys h.1)

pub Apart-rest : (xs : List Entry) (y : Entry) (ys : List Entry) → Apart xs (y ∷ ys) → Apart xs ys
Apart-rest [] y ys h = tt
Apart-rest (x ∷ xs) y ys h = (h.0.1, Apart-rest xs y ys h.1)

pub Apart-append :
    (zs xs : List Entry) (i : ArenaIndex) (o : Order)
    → Apart zs xs
    → NotIn i zs
    → Apart zs (xs ++ (i, o) ∷ [])
Apart-append [] xs i o h k = tt
Apart-append (z ∷ zs) xs i o h k =
    (NotIn-both z.0 xs ((i, o) ∷ []) h.0 (λ e. k.0 (sym e), tt), Apart-append zs xs i o h.1 k.1)

Linked-same :
    (a b : Arena) (i prev : ArenaIndex) (x : Entry) (next : ArenaIndex)
    → SameBut i a b
    → i ≢ x.0
    → Linked a prev x next
    → Linked b prev x next
Linked-same a b i prev x next same ne (inside, (o, at, before, after, left)) =
    (inside, (o, same x.0 ne ∙ at, before, after, left))

-- A write to a slot outside leaves a segment.
pub Segment-same :
    (a b : Arena) (i prev : ArenaIndex) (xs : List Entry) (next : ArenaIndex)
    → SameBut i a b
    → NotIn i xs
    → Segment a prev xs next
    → Segment b prev xs next
Segment-same a b i prev [] next same out s = tt
Segment-same a b i prev (x ∷ xs) next same out s = (
  Linked-same a b i prev x (first xs next) same out.0 s.0,
  s.1,
  Segment-same a b i x.0 xs next same out.1 s.2,
)

pub Segment-split :
    (a : Arena) (prev : ArenaIndex) (xs ys : List Entry) (next : ArenaIndex)
    → Segment a prev (xs ++ ys) next
    → Segment a prev xs (first ys next) × Segment a (last prev xs) ys next × Apart xs ys
Segment-split a prev [] ys next s = (tt, s, tt)
Segment-split a prev (x ∷ xs) ys next s =
    let (l, r, apart) = Segment-split a x.0 xs ys next s.2 in
    let (left, right) = NotIn-append x.0 xs ys s.1 in
    ((subst (Linked a prev x) (first-append xs ys next) s.0, left, l), r, (right, apart))

pub Segment-join :
    (a : Arena) (prev : ArenaIndex) (xs ys : List Entry) (next : ArenaIndex)
    → Segment a prev xs (first ys next)
    → Segment a (last prev xs) ys next
    → Apart xs ys
    → Segment a prev (xs ++ ys) next
Segment-join a prev [] ys next l r apart = r
Segment-join a prev (x ∷ xs) ys next l r apart = (
  subst (Linked a prev x) (sym (first-append xs ys next)) l.0,
  NotIn-both x.0 xs ys l.1 apart.0,
  Segment-join a x.0 xs ys next l.2 r apart.1,
)

-- The writes that `link_tail` and `unlink` make.
abbrev pub set_next : ArenaIndex → Order → Exec Order
set_next n o = ok (record o { next = n })

abbrev set_prev : ArenaIndex → Order → Exec Order
set_prev p o = ok (record o { prev = p })

pub Segment-set_next :
    (a : Arena) (prev : ArenaIndex) (x : Entry) (xs : List Entry) (m n : ArenaIndex)
    → Segment a prev (x ∷ xs) m
    → (b : Arena) × (Arena.get_mut a (last x.0 xs) (set_next n) ≡ ok b)
      × SameBut (last x.0 xs) a b
      × Segment b prev (x ∷ xs) n
Segment-set_next a prev x [] m n ((inside, (o, at, before, after, left)), out, rest) =
    let (b, run, now, same) =
      get_mut_present a x.0 (set_next n) o (record o { next = n }) at refl in
    (b, run, same, ((inside, (record o { next = n }, now, before, refl, left)), tt, tt))
Segment-set_next a prev x (y ∷ ys) m n (link, out, rest) =
    let (b, run, same, seg) = Segment-set_next a x.0 y ys m n rest in
    (
      b,
      run,
      same,
      (
        Linked-same a b (last y.0 ys) prev x y.0 same (λ e. last_ne x.0 y ys out (sym e)) link,
        out,
        seg,
      ),
    )

pub Segment-set_prev :
    (a : Arena) (prev p : ArenaIndex) (x : Entry) (xs : List Entry) (next : ArenaIndex)
    → Segment a prev (x ∷ xs) next
    → (b : Arena) × (Arena.get_mut a x.0 (set_prev p) ≡ ok b)
      × SameBut x.0 a b
      × Segment b p (x ∷ xs) next
Segment-set_prev a prev p x xs next ((inside, (o, at, before, after, left)), out, rest) =
    let (b, run, now, same) =
      get_mut_present a x.0 (set_prev p) o (record o { prev = p }) at refl in
    (
      b,
      run,
      same,
      (
        (inside, (record o { prev = p }, now, refl, after, left)),
        out,
        Segment-same a b x.0 x.0 xs next same out rest,
      ),
    )
