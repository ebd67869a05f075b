-- ===== src/Free/Node.antt =====
-- ideas/free/free_node.h: FREE_NODE_DEF(LINKAGE, T, NAME, POOL_SIZE), with POOL_SIZE as the argument
-- `size`: a pool of elements. A pointer into fn_pool is the index of its element; the elements are
-- not read or written here. `granted` says whether malloc() gives memory.
pub mod High
pub mod Pool
use mepl.Prelude.{
  ℕ, ◌+◌, ◌-◌, ◌%◌, ◌^◌, Bool, Option, none, some, if◌then◌else◌, Outcome, ok, ◌>>=◌,
}
use mepl.Free.Bitset.{Bitset, bitset_init, bitset_first_zero, bitset_set, bitset_clear}

pub record FreeNode : Type 0 where
  pub fn_free : Bitset
  pub fn_count : ℕ

unfoldable pub free_node_init : ℕ → FreeNode
free_node_init size = record { fn_free = bitset_init size; fn_count = size }

unfoldable pub free_node_new : ℕ → Bool → Option FreeNode
free_node_new size granted = if granted then some (free_node_init size) else none

unfoldable pub free_node_put : FreeNode → ℕ → Outcome FreeNode
free_node_put fn ptr = do free ← bitset_clear fn.fn_free ptr; ok (record fn { fn_free = free })

-- What p_ptr of the new struct is, and the pool with p_owner pointing to it.
unfoldable pub free_node_get : ℕ → Bool → FreeNode → Outcome (Option ℕ × FreeNode)
free_node_get size granted fn = do
  (idx, free) ← bitset_first_zero size fn.fn_free
  if granted
      then (do
        free' ← bitset_set free idx
        ok (some idx, record { fn_free = free'; fn_count = (fn.fn_count + (2 ^ 64 - 1)) % 2 ^ 64 }))
      else ok (none, record fn { fn_free = free })
