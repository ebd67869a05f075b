-- ===== src/Slabs/Waiting/Safe.antt =====
-- What holds in every order of steps.
use mepl.Prelude.{
  one_if, ℕ, suc, ◌+◌, ◌≤◌, ◌<◌, ◌≡◌, refl, sym, ap, ◌∙◌, Bool, true, false, some, List, arith, ltb,
  Bool-cases, inl, inr, length, get_elem?, set, get_elem?-set_ne, ◌≢◌, ok, fault,
}
use mepl.Slabs.Stack.{FreeStack, free_write, stack_empty}
use mepl.Slabs.Waiting.{
  Thread, want, testing, found_none, asleep, woken, found_some, getting, lowered, loaded, got, has,
  putting, stored, raised, gave, World, GetMove, lock, lock_again, test_none, test_some, sleep,
  wake, read_top, lower, load_lowered, load, lower_loaded, unlock, PutMove, read_place, put_first,
  raise_stored, raise, put_raised, Step, get_move, put_move, signal, signal_none, Reach, here, next,
}
use mepl.Slabs.Waiting.Totals.{total, inside, ready, under, total-set, ready_le_inside, total-at}

-- The mutex is locked where one thread has it, and else none has; `fp` is above the start of `free` where a
-- thread is about to call s_get(); and no thread in s_get() has found it at the start.
abbrev pub IsSafe : World → Type 0
IsSafe w =
    (total inside w.threads ≡ one_if w.locked)
    × (total ready w.threads ≤ w.slab.fp)
    × (total under w.threads ≡ 0)

nonempty : (sp : FreeStack) → stack_empty sp ≡ false → 0 < sp.fp
unfolding stack_empty
nonempty sp h = ground (arith, h)

module _ (ts : List Thread) (i : ℕ) (a a' : Thread) (at : get_elem? ts i ≡ some a) (sp : FreeStack)
    (b : Bool) (safe : IsSafe (record { slab = sp; locked = b; threads = ts })) where
  -- A step of the thread, behind which `fp` is large enough.
  stays :
      (sp' : FreeStack) (b' : Bool)
      → one_if b' + inside a ≡ one_if b + inside a'
      → under a' ≡ 0
      → total ready (set ts i a') ≤ sp'.fp
      → IsSafe (record { slab = sp'; locked = b'; threads = set ts i a' })
  stays sp' b' io none_under enough =
      let (locks, old, found) = safe in
      let moved = total-set inside ts i a a' at in
      let less = total-set under ts i a a' at in
      (omega (arith, moved, io, locks), enough, omega (arith, less, found, none_under))

  -- A step that leaves `fp`.
  quiet :
      (sp' : FreeStack) (b' : Bool)
      → one_if b' + inside a ≡ one_if b + inside a'
      → under a' ≡ 0
      → ready a' ≤ ready a
      → sp'.fp ≡ sp.fp
      → IsSafe (record { slab = sp'; locked = b'; threads = set ts i a' })
  quiet sp' b' io none_under less same =
      let moved = total-set ready ts i a a' at in
      let enough = safe.1 in stays sp' b' io none_under (omega (arith, moved, less, enough, same))

  -- Behind a step of the thread that has the mutex, no other is about to call s_get().
  alone : b ≡ true → inside a ≡ 1 → ready a' ≡ 0 → total ready (set ts i a') ≡ 0
  alone l one none_ready =
      let locks = safe.0 in
      let ones = ap one_if l in
      let io = total-set inside ts i a found_some at in
      let as_ready = total-set ready ts i a found_some at in
      let least = ready_le_inside (set ts i found_some) in
      let moved = total-set ready ts i a a' at in
      omega (arith, locks, ones, one, io, as_ready, least, moved, none_ready)

  -- One thread at most is about to call s_get().
  few : inside a' ≡ inside a → total ready (set ts i a') ≤ 1
  few same =
      let locks = safe.0 in
      let io = total-set inside ts i a a' at in
      let least = ready_le_inside (set ts i a') in
      let one = one_at_most b in omega (arith, locks, io, least, one, same)
    where
      one_at_most : (b : Bool) → one_if b ≤ 1
      one_at_most true = omega arith
      one_at_most false = omega arith

GetMove-IsSafe :
    (ts : List Thread) (i : ℕ) {a a' : Thread} {sp sp' : FreeStack} {b b' : Bool}
    → get_elem? ts i ≡ some a
    → GetMove sp b a sp' b' a'
    → IsSafe (record { slab = sp; locked = b; threads = ts })
    → IsSafe (record { slab = sp'; locked = b'; threads = set ts i a' })
GetMove-IsSafe ts i at (lock sp) safe =
    quiet ts i want testing at sp false safe sp true refl refl (omega arith) refl
GetMove-IsSafe ts i at (lock_again sp) safe =
    quiet ts i woken testing at sp false safe sp true refl refl (omega arith) refl
GetMove-IsSafe ts i at (test_none sp h) safe =
    quiet ts i testing found_none at sp true safe sp true refl refl (omega arith) refl
GetMove-IsSafe ts i at (test_some sp h) safe =
    let some_free = nonempty sp h in
    let one = few ts i testing found_some at sp true safe refl in
    stays ts i testing found_some at sp true safe sp true refl refl (omega (arith, some_free, one))
GetMove-IsSafe ts i at (sleep sp) safe =
    quiet ts i found_none asleep at sp true safe sp false refl refl (omega arith) refl
GetMove-IsSafe ts i at (wake sp b) safe =
    quiet ts i asleep woken at sp b safe sp b refl refl (omega arith) refl
GetMove-IsSafe ts i at (read_top sp) safe =
    let one = total-at ready ts i found_some at in
    let enough = safe.1 in
    quiet ts i found_some (getting sp.fp) at sp true safe sp true refl (ground (arith, one, enough))
      (omega arith) refl
GetMove-IsSafe ts i at (lower sp n) safe =
    let nobody = alone ts i (getting (suc n)) (lowered n) at sp true safe refl refl refl in
    stays ts i (getting (suc n)) (lowered n) at sp true safe (record sp { fp = n }) true refl refl
      (omega (arith, nobody))
GetMove-IsSafe ts i at (load_lowered sp n p h) safe =
    quiet ts i (lowered n) (got p) at sp true safe sp true refl refl (omega arith) refl
GetMove-IsSafe ts i at (load sp n p h) safe =
    quiet ts i (getting (suc n)) (loaded n p) at sp true safe sp true refl refl (omega arith) refl
GetMove-IsSafe ts i at (lower_loaded sp n p) safe =
    let nobody = alone ts i (loaded n p) (got p) at sp true safe refl refl refl in
    stays ts i (loaded n p) (got p) at sp true safe (record sp { fp = n }) true refl refl
      (omega (arith, nobody))
GetMove-IsSafe ts i at (unlock sp p) safe =
    quiet ts i (got p) (has p) at sp true safe sp false refl refl (omega arith) refl

free_write-fp : (sp sp' : FreeStack) (n p : ℕ) → free_write sp n p ≡ ok sp' → sp'.fp ≡ sp.fp
unfolding free_write
free_write-fp sp sp' n p h = elim (Bool-cases (ltb n (length sp.free))) [
  | inl t ↦
      let wrote : free_write sp n p ≡ ok (record sp { free = set sp.free n p }) = rw t in
      let same : record sp { free = set sp.free n p } ≡ sp' = cc in sym (ap (λ s. s.fp) same)
  | inr f ↦ let broken : free_write sp n p ≡ fault = rw f in cc
]

PutMove-IsSafe :
    (ts : List Thread) (i : ℕ) (b : Bool) {a a' : Thread} {sp sp' : FreeStack}
    → get_elem? ts i ≡ some a
    → PutMove sp a sp' a'
    → IsSafe (record { slab = sp; locked = b; threads = ts })
    → IsSafe (record { slab = sp'; locked = b; threads = set ts i a' })
PutMove-IsSafe ts i b at (read_place sp p) safe =
    quiet ts i (has p) (putting p sp.fp) at sp b safe sp b refl refl (omega arith) refl
PutMove-IsSafe ts i b at (put_first sp sp' p n h) safe =
    quiet ts i (putting p n) (stored n) at sp b safe sp' b refl refl (omega arith)
      (free_write-fp sp sp' n p h)
PutMove-IsSafe ts i b at (raise_stored sp n) safe =
    let one = few ts i (stored n) gave at sp b safe refl in
    stays ts i (stored n) gave at sp b safe (record sp { fp = n + 1 }) b refl refl
      (omega (arith, one))
PutMove-IsSafe ts i b at (raise sp p n) safe =
    let one = few ts i (putting p n) (raised p n) at sp b safe refl in
    stays ts i (putting p n) (raised p n) at sp b safe (record sp { fp = n + 1 }) b refl refl
      (omega (arith, one))
PutMove-IsSafe ts i b at (put_raised sp sp' p n h) safe =
    quiet ts i (raised p n) gave at sp b safe sp' b refl refl (omega arith)
      (free_write-fp sp sp' n p h)

Step-IsSafe : {w w' : World} {i : ℕ} → Step w i w' → IsSafe w → IsSafe w'
Step-IsSafe {w} (get_move i at m) safe = GetMove-IsSafe w.threads i at m safe
Step-IsSafe {w} (put_move i at m) safe = PutMove-IsSafe w.threads i w.locked at m safe
Step-IsSafe {w} (signal i j at sleeps) safe =
    let given =
      quiet w.threads i gave want at w.slab w.locked safe w.slab w.locked refl refl (omega arith)
        refl in
    let still = get_elem?-set_ne w.threads want (apart w.threads i j at sleeps) ∙ sleeps in
    quiet (set w.threads i want) j asleep woken still w.slab w.locked given w.slab w.locked refl
      refl (omega arith) refl
  where
    apart :
        (ts : List Thread) (i j : ℕ)
        → get_elem? ts i ≡ some gave
        → get_elem? ts j ≡ some asleep
        → i ≢ j
    apart ts i j at sleeps e = let same = ap (λ k. get_elem? ts k) e in cc
Step-IsSafe {w} (signal_none i at none_asleep) safe =
    quiet w.threads i gave want at w.slab w.locked safe w.slab w.locked refl refl (omega arith) refl

-- From a state where one thread has the mutex if it is locked, and none if it is not, `fp` is above the
-- start of `free` if a thread is about to call s_get(), and no thread in s_get() has read `fp` at the
-- start: every sequence of steps of threads that get and put, with the accesses of s_put() at any
-- time, leads to such a state.
pub Reach-IsSafe : (w w' : World) → IsSafe w → Reach w w' → IsSafe w'
Reach-IsSafe w w' safe here = safe
Reach-IsSafe w w' safe (next {t = v} i r st) = Step-IsSafe st (Reach-IsSafe w v safe r)
