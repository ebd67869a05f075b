-- ===== src/Slabs/Waiting.antt =====
-- Threads that call slab_tab_get() and slab_tab_put() for one entry, with MUTEX_LOCK(), COND_WAIT(),
-- COND_SIGNAL() and MUTEX_UNLOCK() of ideas/slab/lib.h. The mutex and the condition are POSIX's: a
-- wait gives the mutex up and sleeps in one step, and may end without a signal; a signal wakes one
-- of the sleeping threads, if there are any; the functions do not fail. slab_tab_put() does not lock the
-- mutex, so that s_put() and s_get() may run at the same time: a step is one access to `fp` or to
-- `free`. The memory is sequentially consistent. C leaves open in which order an assignment and the
-- side effect of its `++` or `--` are done, and so do the steps. An access out of bounds has no step.
pub mod Totals
pub mod Safe
pub mod Race
pub mod Lost
use mepl.Prelude.{ℕ, suc, ◌+◌, ◌≡◌, ◌≢◌, Bool, true, false, some, List, get_elem?, set, ok}
use mepl.Slabs.Stack.{FreeStack, free_write, stack_empty}

-- Where a thread is, in slab_tab_get() up to `got`, then in slab_tab_put(), with its local variables.
pub data Thread : Type 0 where
  want : Thread
  -- behind MUTEX_LOCK(), or a wait: about to test s_empty()
  testing : Thread
  -- about to call pthread_cond_wait()
  found_none : Thread
  asleep : Thread
  -- in pthread_cond_wait(), about to lock the mutex again
  woken : Thread
  -- about to call s_get()
  found_some : Thread
  -- in s_get(): `fp` was read
  getting : ℕ → Thread
  -- `fp` is lowered to this, and the element is not read yet
  lowered : ℕ → Thread
  -- the element is read, and `fp` is to be lowered to this
  loaded : ℕ → ℕ → Thread
  -- about to unlock the mutex
  got : ℕ → Thread
  -- between slab_tab_get() and s_put()
  has : ℕ → Thread
  -- in s_put(): `fp` was read
  putting : ℕ → ℕ → Thread
  -- the element is stored, and `fp`, which was this, is not raised yet
  stored : ℕ → Thread
  -- `fp`, which was this, is raised, and the element not stored yet
  raised : ℕ → ℕ → Thread
  -- about to call COND_SIGNAL()
  gave : Thread

pub record World : Type 0 where
  pub slab : FreeStack
  pub locked : Bool
  pub threads : List Thread

-- A step of one thread in slab_tab_get(), with the slab and the mutex before and behind.
pub data GetMove : FreeStack → Bool → Thread → FreeStack → Bool → Thread → Type 0 where
  lock : (sp : FreeStack) → GetMove sp false want sp true testing
  lock_again : (sp : FreeStack) → GetMove sp false woken sp true testing
  test_none : (sp : FreeStack) → stack_empty sp ≡ true → GetMove sp true testing sp true found_none
  test_some : (sp : FreeStack) → stack_empty sp ≡ false → GetMove sp true testing sp true found_some
  sleep : (sp : FreeStack) → GetMove sp true found_none sp false asleep
  wake : (sp : FreeStack) (b : Bool) → GetMove sp b asleep sp b woken
  read_top : (sp : FreeStack) → GetMove sp true found_some sp true (getting sp.fp)
  lower :
      (sp : FreeStack) (n : ℕ)
      → GetMove sp true (getting (suc n)) (record sp { fp = n }) true (lowered n)
  load_lowered :
      (sp : FreeStack) (n p : ℕ)
      → get_elem? sp.free n ≡ some p
      → GetMove sp true (lowered n) sp true (got p)
  load :
      (sp : FreeStack) (n p : ℕ)
      → get_elem? sp.free n ≡ some p
      → GetMove sp true (getting (suc n)) sp true (loaded n p)
  lower_loaded :
      (sp : FreeStack) (n p : ℕ) → GetMove sp true (loaded n p) (record sp { fp = n }) true (got p)
  unlock : (sp : FreeStack) (p : ℕ) → GetMove sp true (got p) sp false (has p)

-- A step of one thread in s_put() of slab_tab_put(), with the slab before and behind.
pub data PutMove : FreeStack → Thread → FreeStack → Thread → Type 0 where
  read_place : (sp : FreeStack) (p : ℕ) → PutMove sp (has p) sp (putting p sp.fp)
  put_first :
      (sp sp' : FreeStack) (p n : ℕ)
      → free_write sp n p ≡ ok sp'
      → PutMove sp (putting p n) sp' (stored n)
  raise_stored : (sp : FreeStack) (n : ℕ) → PutMove sp (stored n) (record sp { fp = n + 1 }) gave
  raise :
      (sp : FreeStack) (p n : ℕ) → PutMove sp (putting p n) (record sp { fp = n + 1 }) (raised p n)
  put_raised :
      (sp sp' : FreeStack) (p n : ℕ) → free_write sp n p ≡ ok sp' → PutMove sp (raised p n) sp' gave

-- A step of the thread `i`, or its COND_SIGNAL(), behind which it may call slab_tab_get() again.
pub data Step (w : World) : ℕ → World → Type 0 where
  get_move :
      (i : ℕ) {a a' : Thread} {sp : FreeStack} {b : Bool}
      → get_elem? w.threads i ≡ some a
      → GetMove w.slab w.locked a sp b a'
      → Step w i (record { slab = sp; locked = b; threads = set w.threads i a' })
  put_move :
      (i : ℕ) {a a' : Thread} {sp : FreeStack}
      → get_elem? w.threads i ≡ some a
      → PutMove w.slab a sp a'
      → Step w i (record { slab = sp; locked = w.locked; threads = set w.threads i a' })
  signal :
      (i j : ℕ)
      → get_elem? w.threads i ≡ some gave
      → get_elem? w.threads j ≡ some asleep
      → Step w i (record w { threads = set (set w.threads i want) j woken })
  signal_none :
      (i : ℕ)
      → get_elem? w.threads i ≡ some gave
      → ((j : ℕ) → get_elem? w.threads j ≢ some asleep)
      → Step w i (record w { threads = set w.threads i want })

pub data Reach (s : World) : World → Type 0 where
  here : Reach s s
  next : {t u : World} (i : ℕ) → Reach s t → Step t i u → Reach s u
