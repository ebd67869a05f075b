-- ===== src/Dstr.antt =====
-- lib/include/dstr.h and lib/src/dstr.c: a growing string with a short buffer of its own.
-- `debug` says whether the build has DBUG; `realloc` is the allocator's. The contents of freed
-- blocks are not modelled, and neither is the amount of memory in use.
pub mod Content
pub mod Check
pub mod Put
pub mod Grow
pub mod Push
use mepl.Prelude.{
  ℕ, ◌+◌, ◌*◌, ◌%◌, ◌^◌, Bool, true, false, not, Option, none, some, ltb, leb, ◌==◌, if◌then◌else◌,
  replicate, died, Outcome, ok, exit, fault, ◌>>=◌, ◌>>◌, dbug,
}
use mepl.Memory.{deref, is_null, Block, ℤ, to_char, load, store, strcpy}

-- DSTR_SHORT_SIZE
abbrev pub short_size : ℕ
short_size = 31

-- What `d_cur` points at: nothing (a zeroed string), `d_short`, or what `d_heap` points at.
pub data Cur : Type 0 where
  nowhere at_short at_heap : Cur

pub record Dstr : Type 0 where
  pub d_cap : ℕ
  pub d_len : ℕ
  pub d_cur : Cur
  pub d_heap : Option Block
  pub d_short : Block

-- `d_cur == NULL`
abbrev is_nowhere : Cur → Bool
is_nowhere nowhere = true
is_nowhere _ = false

abbrev pub is_short : Cur → Bool
is_short at_short = true
is_short _ = false

abbrev pub is_heap : Cur → Bool
is_heap at_heap = true
is_heap _ = false

abbrev cur_of : Cur → Dstr → Outcome Block
cur_of nowhere d = fault
cur_of at_short d = ok d.d_short
cur_of at_heap d = deref d.d_heap

-- The bytes that `d_cur` points at.
unfoldable pub cur : Dstr → Outcome Block
cur d = cur_of d.d_cur d

-- `d_cur[i] = x`
store_cur : Dstr → ℕ → ℕ → Outcome Dstr
store_cur d i x = do
  b ← cur d
  b' ← store b i x
  ok (if is_short d.d_cur then record d { d_short = b' } else record d { d_heap = some b' })

unfoldable pub dstr_ok : Bool → Dstr → Outcome (Unit {0})
dstr_ok true d = do
  dbug true (d.d_cap == 0)
  dbug true (ltb d.d_cap d.d_len)
  dbug true (is_nowhere d.d_cur)
  b ← cur d
  x ← load b d.d_len
  dbug true (not (x == 0))
  if leb d.d_len short_size
      then dbug true (not (is_short d.d_cur)) >> dbug true (not (is_null d.d_heap))
      else dbug true (is_null d.d_heap) >> dbug true (not (is_heap d.d_cur))
dstr_ok false d = ok tt

-- Every field is written.
unfoldable pub dstr_init : Dstr
dstr_init = record {
  d_cap = short_size;
  d_len = 0;
  d_cur = at_short;
  d_heap = none;
  d_short = replicate (short_size + 1) 0;
}

-- A string whose bytes are all zero.
unfoldable pub zeroed : Dstr
zeroed = record {
  d_cap = 0;
  d_len = 0;
  d_cur = nowhere;
  d_heap = none;
  d_short = replicate (short_size + 1) 0;
}

module _ (debug : Bool) where
  unfoldable pub dstr_free : Dstr → Outcome Dstr
  dstr_free d = do dstr_ok debug d; ok zeroed

  unfoldable pub dstr_clear : Dstr → Outcome Dstr
  dstr_clear d = do dstr_ok debug d; ok dstr_init

  -- The new string, and the pointer that is returned.
  unfoldable pub dstr_move : Dstr → Outcome (Dstr × Option Block)
  dstr_move d = do dstr_ok debug d; dbug debug (is_short d.d_cur); ok (dstr_init, d.d_heap)

module _ (realloc : Option Block → ℕ → Option Block) where
  copy_short : Dstr → Block → Outcome Block
  copy_short d heap = if is_short d.d_cur then strcpy heap d.d_short else ok heap

  unfoldable pub dstr_grow : Dstr → Outcome Dstr
  unfolding copy_short
  dstr_grow d =
      let size = d.d_cap * 2 % 2 ^ 64 in
      elim (realloc d.d_heap ((size + 1) % 2 ^ 64)) [
        | none ↦ exit died
        | some heap ↦ do
          heap' ← copy_short d heap
          ok (record d { d_heap = some heap'; d_cur = at_heap; d_cap = size })
      ]

-- The two writes of dstr_push().
unfoldable pub put : Dstr → ℕ → Outcome Dstr
unfolding store_cur
put d x = do
  d' ← store_cur d d.d_len x
  let len = (d.d_len + 1) % 2 ^ 64
  store_cur (record d' { d_len = len }) len 0

module _ (debug : Bool) (realloc : Option Block → ℕ → Option Block) where
  unfoldable pub dstr_push : Dstr → ℤ → Outcome Dstr
  dstr_push d c = do
    dstr_ok debug d
    d' ← if d.d_len == d.d_cap then dstr_grow realloc d else ok d
    put d' (to_char c)
