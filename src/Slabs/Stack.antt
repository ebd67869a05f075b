-- ===== src/Slabs/Stack.antt =====
-- SLAB_TYPE_DEF(T, NAME, SIZE) of ideas/slab/slab.h, with SIZE as the argument `size`. A `T *` is a
-- number, `pool` that of the first element, and `fp` an index into `free`.
pub mod Free
pub mod Held
use mepl.Prelude.{
  ℕ, zero, suc, ◌+◌, Bool, ◌&&◌, Option, none, List, ltb, leb, ◌==◌, if◌then◌else◌, length,
  get_elem?, set, Outcome, ok, fault, ◌>>=◌,
}
use mepl.Memory.{deref}

pub record FreeStack : Type 0 where
  pub pool : ℕ
  pub free : List ℕ
  pub fp : ℕ

-- sp->free[i] = p
unfoldable pub free_write : FreeStack → ℕ → ℕ → Outcome FreeStack
free_write sp i p =
    if ltb i (length sp.free) then ok (record sp { free = set sp.free i p }) else fault

-- The loop, with `rounds` to go.
unfoldable pub init_from : ℕ → FreeStack → ℕ → Outcome FreeStack
init_from zero sp i = ok sp
init_from (suc rounds) sp i = do sp' ← free_write sp i (sp.pool + i); init_from rounds sp' (i + 1)

unfoldable pub stack_init : ℕ → FreeStack → Outcome FreeStack
stack_init size sp = do sp' ← init_from size sp 0; ok (record sp' { fp = size })

-- `--sp->fp` leaves the array where nothing is free.
unfoldable pub stack_get : FreeStack → Outcome (ℕ × FreeStack)
stack_get sp = elim sp.fp [
  | zero ↦ fault
  | suc i ↦ do p ← deref (get_elem? sp.free i); ok (p, record sp { fp = i })
]

unfoldable pub stack_mine : ℕ → FreeStack → ℕ → Bool
stack_mine size sp p = leb sp.pool p && ltb p (sp.pool + size)

-- The caller's pointer, which is `p`, becomes NULL.
unfoldable pub stack_put : FreeStack → ℕ → Outcome (Option ℕ × FreeStack)
stack_put sp p = do sp' ← free_write sp sp.fp p; ok (none, record sp' { fp = sp.fp + 1 })

unfoldable pub stack_full : ℕ → FreeStack → Bool
stack_full size sp = sp.fp == size

unfoldable pub stack_empty : FreeStack → Bool
stack_empty sp = sp.fp == 0
