-- ===== src/Slabs/Waiting/Lost.antt =====
-- A wake-up can be lost.
use mepl.Prelude.{
  ℕ, zero, suc, ◌+◌, ◌<◌, ◌≡◌, ◌≢◌, refl, true, false, some, List, ◌∷◌, arith, length, get_elem?,
  set,
}
use mepl.Slabs.Stack.{FreeStack, stack_empty}
use mepl.Slabs.Waiting.Race.{free_write-room}
use mepl.Slabs.Waiting.{
  Thread, want, found_none, asleep, has, gave, lock, test_none, sleep, read_place, put_first,
  raise_stored, get_move, put_move, signal_none, Reach, here, next,
}

nobody_behind :
    (a b : Thread) (ts : List Thread)
    → a ≢ asleep
    → b ≢ asleep
    → ((j : ℕ) → get_elem? ts j ≢ some asleep)
    → (j : ℕ) → get_elem? (a ∷ b ∷ ts) j ≢ some asleep
nobody_behind a b ts ha hb h zero e = ha cc
nobody_behind a b ts ha hb h (suc zero) e = hb cc
nobody_behind a b ts ha hb h (suc (suc j)) e = h j e

raised-some : (sp : FreeStack) (n : ℕ) → stack_empty (record sp { fp = n + 1 }) ≡ false
unfolding stack_empty
raised-some sp n = ground arith

-- For a thread that wants an element, a thread that has one, and further threads of which none
-- sleeps, where nothing of the slab is free, its array has room, and nobody has the mutex: some order of
-- the steps ends with the first thread asleep and the second behind its signal, though an element is
-- free.
pub lost_wakeup :
    (sp : FreeStack) (p : ℕ) (ts : List Thread)
    → sp.fp < length sp.free
    → stack_empty sp ≡ true
    → ((j : ℕ) → get_elem? ts j ≢ some asleep)
    → (sp' : FreeStack) × (stack_empty sp' ≡ false)
      × Reach
          (record { slab = sp; locked = false; threads = want ∷ has p ∷ ts })
          (record { slab = sp'; locked = false; threads = asleep ∷ want ∷ ts })
lost_wakeup sp p ts room nothing nobody =
    let n = sp.fp in
    let sp1 = record sp { free = set sp.free n p } in
    let sp2 = record sp1 { fp = n + 1 } in
    let quiet = nobody_behind found_none gave ts (λ e. cc) (λ e. cc) nobody in
    (
      sp2,
      raised-some sp1 n,
      next 0
          (next 1
            (next 1
              (next 1
                (next 1
                  (next 0 (next 0 here (get_move 0 refl (lock sp)))
                    (get_move 0 refl (test_none sp nothing)))
                  (put_move 1 refl (read_place sp p)))
                (put_move 1 refl (put_first sp sp1 p n (free_write-room sp n p room))))
              (put_move 1 refl (raise_stored sp1 n)))
            (signal_none 1 refl quiet))
          (get_move 0 refl (sleep sp2)),
    )
