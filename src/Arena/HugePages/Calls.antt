-- ===== src/Arena/HugePages/Calls.antt =====
-- Sequences of calls of the common interface of `Arena` and `HugePageArena`.
use match_x.Base.{
  ℕ, ◌≡◌, ap, sym, ◌∙◌, ◌||◌, Bool, true, List, [], ◌∷◌, Option, Exec, ok, ◌>>=◌, bind_ok, ok_two,
  subst,
}
use match_x.Types.{Order, ArenaIndex}
use match_x.Arena
use match_x.Arena.{Arena}
use match_x.Arena.HugePages
use match_x.Arena.HugePages.{HugePageArena}
use match_x.Arena.HugePages.Simulation.{
  Agrees, alloc-Agrees, free-Agrees, get-Agrees, get_mut-Agrees, new-Agrees,
}

pub data Op : Type 0 where
  allocate : Order → Op
  release read : ArenaIndex → Op
  write : ArenaIndex → (Order → Exec Order) → Op

pub data Reply : Type 0 where
  slot : Option ArenaIndex → Reply
  order : Order → Reply
  nothing : Reply

unfoldable pub call : Arena → Op → Exec (Arena × Reply)
call a (allocate o) = do (a, i) ← Arena.alloc a o; ok (a, slot i)
call a (release i) = do a ← Arena.free a i; ok (a, nothing)
call a (read i) = do o ← Arena.get a i; ok (a, order o)
call a (write i f) = do a ← Arena.get_mut a i f; ok (a, nothing)

unfoldable pub huge_call : HugePageArena → Op → Exec (HugePageArena × Reply)
huge_call a (allocate o) = do (a, i) ← HugePages.alloc a o; ok (a, slot i)
huge_call a (release i) = do a ← HugePages.free a i; ok (a, nothing)
huge_call a (read i) = do o ← HugePages.get a i; ok (a, order o)
huge_call a (write i f) = do a ← HugePages.get_mut a i f; ok (a, nothing)

unfoldable pub calls : Arena → List Op → Exec (Arena × List Reply)
calls a [] = ok (a, [])
calls a (op ∷ ops) = do (a, reply) ← call a op; (a, replies) ← calls a ops; ok (a, reply ∷ replies)

unfoldable pub huge_calls : HugePageArena → List Op → Exec (HugePageArena × List Reply)
huge_calls a [] = ok (a, [])
huge_calls a (op ∷ ops) = do
  (a, reply) ← huge_call a op
  (a, replies) ← huge_calls a ops
  ok (a, reply ∷ replies)

call-Agrees :
    (a b : Arena) (h : HugePageArena) (op : Op) (r : Reply)
    → Agrees a h
    → call a op ≡ ok (b, r)
    → (k : HugePageArena) × (huge_call h op ≡ ok (k, r)) × Agrees b k
unfolding call huge_call
call-Agrees a b h (allocate o) r g run =
    let ((a', i), ran, last) = bind_ok (Arena.alloc a o) _ run in
    let (same, reply) = ok_two a' b (slot i) r last in
    let (k, huge, agrees) = alloc-Agrees a a' h o i g ran in
    (
      k,
      ap (λ (m : Exec (HugePageArena × Option ArenaIndex)). m >>= λ x. ok (x.0, slot x.1)) huge
          ∙ ap (λ (r : Reply). ok (k, r)) reply,
      subst (λ b. Agrees b k) same agrees,
    )
call-Agrees a b h (release i) r g run =
    let (a', ran, last) = bind_ok (Arena.free a i) _ run in
    let (same, reply) = ok_two a' b nothing r last in
    let (k, huge, agrees) = free-Agrees a a' h i g ran in
    (
      k,
      ap (λ (m : Exec HugePageArena). m >>= λ x. ok (x, nothing)) huge
          ∙ ap (λ (r : Reply). ok (k, r)) reply,
      subst (λ b. Agrees b k) same agrees,
    )
call-Agrees a b h (read i) r g run =
    let (o, ran, last) = bind_ok (Arena.get a i) _ run in
    let (same, reply) = ok_two a b (order o) r last in
    (
      h,
      ap (λ (m : Exec Order). m >>= λ o. ok (h, order o)) (get-Agrees a h i o g ran)
          ∙ ap (λ (r : Reply). ok (h, r)) reply,
      subst (λ b. Agrees b h) same g,
    )
call-Agrees a b h (write i f) r g run =
    let (a', ran, last) = bind_ok (Arena.get_mut a i f) _ run in
    let (same, reply) = ok_two a' b nothing r last in
    let (k, huge, agrees) = get_mut-Agrees a a' h i f g ran in
    (
      k,
      ap (λ (m : Exec HugePageArena). m >>= λ x. ok (x, nothing)) huge
          ∙ ap (λ (r : Reply). ok (k, r)) reply,
      subst (λ b. Agrees b k) same agrees,
    )

calls-Agrees :
    (ops : List Op) (a b : Arena) (h : HugePageArena) (rs : List Reply)
    → Agrees a h
    → calls a ops ≡ ok (b, rs)
    → (k : HugePageArena) × (huge_calls h ops ≡ ok (k, rs)) × Agrees b k
unfolding calls huge_calls
calls-Agrees [] a b h rs g run =
    let (same, replies) = ok_two a b [] rs run in
    (h, ap (λ (rs : List Reply). ok (h, rs)) replies, subst (λ b. Agrees b h) same g)
calls-Agrees (op ∷ ops) a b h rs g run =
    let ((a', r), first, run') = bind_ok (call a op) _ run in
    let ((b', rs'), rest, run'') = bind_ok (calls a' ops) _ run' in
    let (same, replies) = ok_two b' b (r ∷ rs') rs run'' in
    let (k, huge, agrees) = call-Agrees a a' h op r g first in
    let (l, huges, agrees') = calls-Agrees ops a' b' k rs' agrees rest in
    (
      l,
      ap
            (λ (m : Exec (HugePageArena × Reply)).
              m >>= λ x. huge_calls x.0 ops >>= λ y. ok (y.0, x.1 ∷ y.1))
            huge
          ∙ ap (λ (m : Exec (HugePageArena × List Reply)). m >>= λ y. ok (y.0, r ∷ y.1)) huges
          ∙ ap (λ (rs : List Reply). ok (l, rs)) replies,
      subst (λ b. Agrees b l) same agrees',
    )

-- When one of the two calls of `mmap` succeeds, the arena on huge pages is made, and every
-- sequence of calls through which the checked arena of the same capacity returns gets the same
-- replies from it and leaves as many orders in it.
pub huge_calls-calls :
    (huge_pages anonymous : Bool) (capacity : ℕ) (ops : List Op) (b : Arena) (rs : List Reply)
    → (huge_pages || anonymous) ≡ true
    → calls (Arena.new capacity) ops ≡ ok (b, rs)
    → (h : HugePageArena) × (k : HugePageArena) × (HugePages.new huge_pages anonymous capacity
        ≡ ok h)
      × (huge_calls h ops ≡ ok (k, rs))
      × (k.len ≡ b.len)
huge_calls-calls huge_pages anonymous capacity ops b rs mapped run =
    let (h, made, g) = new-Agrees huge_pages anonymous capacity mapped in
    let (k, huge, agrees) = calls-Agrees ops (Arena.new capacity) b h rs g run in
    (h, k, made, huge, sym agrees.count)
