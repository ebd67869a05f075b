-- ===== src/Slabs/Waiting/Totals.antt =====
-- Sums over the threads.
use mepl.Prelude.{
  ℕ, zero, suc, ◌+◌, ◌≤◌, ◌≡◌, some, List, [], ◌∷◌, arith, ◌==◌, one_if, get_elem?, set,
}
use mepl.Slabs.Waiting.{Thread, testing, found_none, found_some, getting, lowered, loaded, got}

abbrev pub total : (Thread → ℕ) → List Thread → ℕ
total f [] = 0
total f (a ∷ ts) = f a + total f ts

-- Whether the thread has locked the mutex.
abbrev pub inside : Thread → ℕ
inside testing = 1
inside found_none = 1
inside found_some = 1
inside (getting n) = 1
inside (lowered n) = 1
inside (loaded n p) = 1
inside (got p) = 1
inside _ = 0

-- Whether the thread is about to call s_get().
abbrev pub ready : Thread → ℕ
ready found_some = 1
ready _ = 0

-- Whether the thread in s_get() has found `fp` at the start of `free`.
abbrev pub under : Thread → ℕ
under (getting n) = one_if (n == 0)
under _ = 0

pub total-set :
    (f : Thread → ℕ) (ts : List Thread) (i : ℕ) (a a' : Thread)
    → get_elem? ts i ≡ some a
    → total f (set ts i a') + f a ≡ total f ts + f a'
total-set f [] i a a' e = cc
total-set f (b ∷ ts) zero a a' e = let same : f b ≡ f a = cc in omega (arith, same)
total-set f (b ∷ ts) (suc i) a a' e = let rest = total-set f ts i a a' e in omega (arith, rest)

total_le :
    (f g : Thread → ℕ) → ((a : Thread) → f a ≤ g a) → (ts : List Thread) → total f ts ≤ total g ts
total_le f g h [] = omega arith
total_le f g h (a ∷ ts) = let one = h a in let rest = total_le f g h ts in omega (arith, one, rest)

pub ready_le_inside : (ts : List Thread) → total ready ts ≤ total inside ts
ready_le_inside = total_le ready inside each
  where
    each : (a : Thread) → ready a ≤ inside a
    each found_some = omega arith
    each _ = omega arith

pub total-at :
    (f : Thread → ℕ) (ts : List Thread) (i : ℕ) (a : Thread)
    → get_elem? ts i ≡ some a
    → f a ≤ total f ts
total-at f [] i a e = cc
total-at f (b ∷ ts) zero a e = let same : f b ≡ f a = cc in omega (arith, same)
total-at f (b ∷ ts) (suc i) a e = let rest = total-at f ts i a e in omega (arith, rest)
