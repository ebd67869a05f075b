-- ===== src/Slabs.antt =====
-- ideas/slab: a table of slabs, each a pool of elements with a stack of the free ones. In slab.h,
-- `struct slab` has the functions of one slab, which get the struct itself by STRUCT_OF().
pub mod Stack
pub mod Table
pub mod Waiting
use mepl.Prelude.{ℕ, Bool, Option, Outcome}
use Stack.{FreeStack, stack_init, stack_get, stack_mine, stack_put, stack_full, stack_empty}

pub record Slab : Type 0 where
  pub s_full : FreeStack → Bool
  pub s_mine : FreeStack → ℕ → Bool
  pub s_empty : FreeStack → Bool
  pub s_get : FreeStack → Outcome (ℕ × FreeStack)
  pub s_put : FreeStack → ℕ → Outcome (Option ℕ × FreeStack)
  pub s_init : FreeStack → Outcome FreeStack

-- SLAB_INIT(), with the functions of SLAB_DEF() for a slab of `size` elements.
abbrev pub slab_of : ℕ → Slab
slab_of size = record {
  s_full = stack_full size;
  s_mine = stack_mine size;
  s_empty = stack_empty;
  s_get = stack_get;
  s_put = stack_put;
  s_init = stack_init size;
}
