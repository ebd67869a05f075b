-- ===== src/Ptrset/ListSet.antt =====
-- ideas/ptrset/list_set.c: a trie whose nodes keep their kids in a list, sorted by the chunk. NULL
-- is `null`; memory does not run out, and freed memory is not modelled.
pub mod Sorted
pub mod Member
use mepl.Prelude.{
  ℕ, ◌+◌, ◌%◌, ◌^◌, Bool, true, false, Option, none, some, List, [], ◌∷◌, ltb, ◌==◌, if◌then◌else◌,
}

mutual
  -- `struct node *`
  pub data Node : Type 0 where
    null : Node
    node : Kids → Node

  -- `struct kid *`: the edge, the chunk and the next kid.
  pub data Kids : Type 0 where
    no_kids : Kids
    kid : Node → ℕ → Kids → Kids

pub record ListSet : Type 0 where
  pub ps_bytes : ℕ
  pub root : Node

-- The sizes of the structs, with 8 bytes for a pointer.
abbrev pub list_set_size : ℕ
list_set_size = 40

abbrev pub node_size : ℕ
node_size = 8

abbrev pub kid_size : ℕ
kid_size = 24

unfoldable pub list_set_new : ListSet
list_set_new = record { ps_bytes = list_set_size; root = null }

-- The edge of the kid that is found.
unfoldable pub kid_find : Kids → ℕ → Option Node
kid_find no_kids chunk = none
kid_find (kid edge v next) chunk =
    let rest = kid_find next chunk in if v == chunk then some edge else rest

unfoldable pub do_list_set_has : Node → List ℕ → Bool
do_list_set_has np [] = true
do_list_set_has null (p ∷ ptr) = false
do_list_set_has (node kids) (p ∷ ptr) = elim (kid_find kids p) [
  | none ↦ false
  | some edge ↦ do_list_set_has edge ptr
]

unfoldable pub list_set_has : ListSet → List ℕ → Bool
list_set_has s ptr = do_list_set_has s.root ptr

-- The list with the kid in it, and the count of the bytes.
unfoldable pub kid_get_or_set : ℕ → Kids → ℕ → Kids × ℕ
kid_get_or_set bytes no_kids chunk = (kid null chunk no_kids, (bytes + kid_size) % 2 ^ 64)
kid_get_or_set bytes (kid edge v next) chunk =
    let (next', bytes') = kid_get_or_set bytes next chunk in
    if v == chunk
    then (kid edge v next, bytes)
    else if ltb chunk v
    then (kid null chunk (kid edge v next), (bytes + kid_size) % 2 ^ 64)
    else (kid edge v next', bytes')

-- `*npp = np` where `npp` is the address of the edge of the first kid with the chunk.
unfoldable pub set_edge : Kids → ℕ → Node → Kids
set_edge no_kids chunk np = no_kids
set_edge (kid edge v next) chunk np =
    let rest = set_edge next chunk np in if v == chunk then kid np v next else kid edge v rest

abbrev pub edge_or_null : Option Node → Node
edge_or_null none = null
edge_or_null (some edge) = edge

-- `if (!*npp) *npp = node_new(lp)`: the kids of the node and the count of the bytes.
abbrev pub kids_or_new : ℕ → Node → Kids × ℕ
kids_or_new bytes null = (no_kids, (bytes + node_size) % 2 ^ 64)
kids_or_new bytes (node kids) = (kids, bytes)

-- The loop of do_list_set_add() from the edge that `npp` points at: what is stored there, and the
-- count of the bytes. A node that stands where the pointer ends is replaced.
unfoldable pub add_from : ℕ → Node → List ℕ → Node × ℕ
add_from bytes np [] = (node no_kids, (bytes + node_size) % 2 ^ 64)
add_from bytes np (p ∷ ptr) =
    let (kids, bytes1) = kids_or_new bytes np in
    let (kids', bytes2) = kid_get_or_set bytes1 kids p in
    let (edge, bytes3) = add_from bytes2 (edge_or_null (kid_find kids' p)) ptr in
    (node (set_edge kids' p edge), bytes3)

unfoldable pub list_set_add : ListSet → List ℕ → ListSet
list_set_add s ptr =
    let (root, bytes) = add_from s.ps_bytes s.root ptr in record { ps_bytes = bytes; root = root }
