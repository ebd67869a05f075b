-- ===== src/Slabs/Table.antt =====
-- ideas/slab/slab_tab.c and tab.h: the table, as one thread uses it, to which a wait for another
-- thread does not end. `debug` says whether the build has DBUG. The mutex and condition functions do
-- not fail, and a NULL pointer to an element is the number 0.
pub mod Find
pub mod Use
pub mod Give
use mepl.Prelude.{
  ℕ, ◌%◌, ◌^◌, Bool, true, false, not, ◌&&◌, Option, List, [], ◌∷◌, ◌==◌, if◌then◌else◌, get_elem?,
  set, died, Outcome, ok, exit, spin, dbug, ◌>>=◌, ◌>>◌,
}
use mepl.Memory.{Block, deref, load, strhash, str_is, is_null}
use mepl.Slabs.{Slab, slab_of}
use mepl.Slabs.Stack.{FreeStack}

-- AST_STR_SLAB_SIZE, AST_VAR_DEF_SLAB_SIZE and AST_IF_SLAB_SIZE, of ast.h and slab_tab.c.
abbrev pub slab_size : ℕ
slab_size = 2 ^ 8

abbrev pub slab_tab_size : ℕ
slab_tab_size = 3

pub record Entry : Type 0 where
  pub ste_slab : FreeStack
  pub ste_name : List ℕ

pub record SlabTab : Type 0 where
  pub slab_tab : List Entry
  pub slab_init : Bool

-- The ste_name of each entry.
abbrev pub names : List (List ℕ)
names =
    (b'A' ∷ b'S' ∷ b'T' ∷ b'_' ∷ b'S' ∷ b'T' ∷ b'R' ∷ [])
    ∷ (b'A' ∷ b'S' ∷ b'T' ∷ b'_' ∷ b'V' ∷ b'A' ∷ b'R' ∷ b'_' ∷ b'D' ∷ b'E' ∷ b'F' ∷ [])
    ∷ (b'A' ∷ b'S' ∷ b'T' ∷ b'_' ∷ b'I' ∷ b'F' ∷ [])
    ∷ []

abbrev pub ops : Slab
ops = slab_of slab_size

-- A test of a DBUG build that ends the process by die().
abbrev pub check_or_die : Bool → Bool → Outcome (Unit {0})
check_or_die true false = exit died
check_or_die _ _ = ok tt

unfoldable pub ptr_mine : Bool → Entry → ℕ → Outcome (Unit {0})
ptr_mine debug ep p = check_or_die debug (ops.s_mine ep.ste_slab p)

unfoldable pub init_check : Bool → SlabTab → Outcome (Unit {0})
init_check debug t = check_or_die debug t.slab_init

-- Whether a warning is printed.
unfoldable pub full_check : Bool → Entry → Bool
full_check debug ep = debug && not (ops.s_full ep.ste_slab)

-- The names in the warnings.
unfoldable pub exit_check_from : Bool → List Entry → List (List ℕ)
exit_check_from debug [] = []
exit_check_from debug (ep ∷ eps) =
    let rest = exit_check_from debug eps in if full_check debug ep then ep.ste_name ∷ rest else rest

unfoldable pub slab_tab_exit_check : Bool → SlabTab → List (List ℕ)
slab_tab_exit_check debug t = exit_check_from debug t.slab_tab

unfoldable pub init_entries : List Entry → Outcome (List Entry)
init_entries [] = ok []
init_entries (ep ∷ eps) = do
  sp ← ops.s_init ep.ste_slab
  eps' ← init_entries eps
  ok (record ep { ste_slab = sp } ∷ eps')

unfoldable pub slab_tab_init : SlabTab → Outcome SlabTab
slab_tab_init t = do eps ← init_entries t.slab_tab; ok (record { slab_tab = eps; slab_init = true })

-- The index of the entry; ste_slab of no entry is NULL.
unfoldable pub slab_tab_find : Bool → SlabTab → Option Block → Outcome ℕ
slab_tab_find debug t type = do
  dbug debug (is_null type)
  s ← deref type
  c ← load s 0
  dbug debug (c == 0)
  hash ← strhash s
  ep ← deref (get_elem? t.slab_tab (hash % slab_tab_size))
  same ← str_is s ep.ste_name
  dbug debug (not same)
  ok (hash % slab_tab_size)

unfoldable pub slab_tab_get : Bool → SlabTab → Option Block → Outcome (ℕ × SlabTab)
slab_tab_get debug t type = do
  i ← slab_tab_find debug t type
  ep ← deref (get_elem? t.slab_tab i)
  init_check debug t
  if ops.s_empty ep.ste_slab then spin else (do
    (p, sp) ← ops.s_get ep.ste_slab
    ok (p, record t { slab_tab = set t.slab_tab i (record ep { ste_slab = sp }) }))

-- `*pp` is `p`, and becomes NULL.
unfoldable pub slab_tab_put : Bool → SlabTab → Option Block → ℕ → Outcome (Option ℕ × SlabTab)
slab_tab_put debug t type p = do
  i ← slab_tab_find debug t type
  ep ← deref (get_elem? t.slab_tab i)
  init_check debug t
  ptr_mine debug ep p
  (q, sp) ← ops.s_put ep.ste_slab p
  ok (q, record t { slab_tab = set t.slab_tab i (record ep { ste_slab = sp }) })
