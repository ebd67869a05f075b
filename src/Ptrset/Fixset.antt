-- ===== src/Ptrset/Fixset.antt =====
-- ideas/ptrset/fixset.c: a trie whose nodes have an array with a kid for each chunk. `size` is
-- FIXSET_SIZE, which the build sets. NULL is `null`, an array is a function on its indices, with a
-- fault behind its end; memory does not run out, and freed memory is not modelled.
pub mod Member
use mepl.Prelude.{
  ℕ, ◌+◌, ◌*◌, ◌%◌, ◌^◌, Bool, true, false, List, [], ◌∷◌, ltb, ◌==◌, if◌then◌else◌, Outcome, ok,
  fault, ◌>>=◌,
}

-- `struct node *`
pub data Node : Type 0 where
  null : Node
  node : (ℕ → Node) → Node

pub record Fixset : Type 0 where
  pub ps_bytes : ℕ
  pub root : Node

-- The size of `struct fixset`, with 8 bytes for a pointer.
abbrev pub fixset_size : ℕ
fixset_size = 40

unfoldable pub fixset_new : Fixset
fixset_new = record { ps_bytes = fixset_size; root = null }

abbrev pub no_kids : ℕ → Node
no_kids i = null

abbrev pub set_kid : (ℕ → Node) → ℕ → Node → ℕ → Node
set_kid kids i np j = if i == j then np else kids j

module _ (size : ℕ) where
  unfoldable pub do_fixset_has : Node → List ℕ → Outcome Bool
  do_fixset_has np [] = ok true
  do_fixset_has null (p ∷ ptr) = ok false
  do_fixset_has (node kids) (p ∷ ptr) = elim (ltb p size) [
    | true ↦ do_fixset_has (kids p) ptr
    | false ↦ fault
  ]

  unfoldable pub fixset_has : Fixset → List ℕ → Outcome Bool
  fixset_has s ptr = do_fixset_has s.root ptr

  -- `if (!*npp) *npp = node_new(fp)`: the kids of the node and the count of the bytes.
  abbrev pub kids_or_new : ℕ → Node → (ℕ → Node) × ℕ
  kids_or_new bytes null = (no_kids, (bytes + size * 8) % 2 ^ 64)
  kids_or_new bytes (node kids) = (kids, bytes)

  -- The loop of do_fixset_add() from the place that `npp` points at: what is stored there, and the
  -- count of the bytes. A node that stands where the pointer ends is replaced.
  unfoldable pub add_from : List ℕ → ℕ → Node → Outcome (Node × ℕ)
  add_from [] bytes np = ok (node no_kids, (bytes + size * 8) % 2 ^ 64)
  add_from (p ∷ ptr) bytes np =
      let (kids, bytes1) = kids_or_new bytes np in
      elim (ltb p size) [
        | true ↦ do
          (kid, bytes2) ← add_from ptr bytes1 (kids p)
          ok (node (set_kid kids p kid), bytes2)
        | false ↦ fault
      ]

  unfoldable pub fixset_add : Fixset → List ℕ → Outcome Fixset
  fixset_add s ptr = do
    (root, bytes) ← add_from ptr s.ps_bytes s.root
    ok (record { ps_bytes = bytes; root = root })
