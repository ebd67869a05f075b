-- ===== src/Ptrset/DynarrSet.antt =====
-- ideas/ptrset/dynarr_set.c: a trie whose nodes keep their kids in a growing array. NULL is `null`,
-- and `no_slots` for an array; an access behind the end of an array is a fault. realloc() does not
-- fail, and freed memory is not modelled.
pub mod First
use mepl.Prelude.{
  ℕ, zero, suc, ◌+◌, ◌-◌, ◌*◌, ◌%◌, ◌^◌, Bool, true, false, Option, none, some, List, [], ◌∷◌, ◌==◌,
  if◌then◌else◌, Outcome, ok, fault, ◌>>=◌,
}

mutual
  -- `struct node *`: the array of the kids, `len` and `cap`.
  pub data Node : Type 0 where
    null : Node
    node : Slots → ℕ → ℕ → Node

  -- The elements of an array: the edge and the chunk of each.
  pub data Slots : Type 0 where
    no_slots : Slots
    slot : Node → ℕ → Slots → Slots

pub record DynarrSet : Type 0 where
  pub ps_bytes : ℕ
  pub root : Node

-- The sizes of the structs, with 8 bytes for a pointer.
abbrev pub dynarr_set_size : ℕ
dynarr_set_size = 40

abbrev pub node_size : ℕ
node_size = 24

abbrev pub kid_size : ℕ
kid_size = 16

unfoldable pub dynarr_set_new : DynarrSet
dynarr_set_new = record { ps_bytes = dynarr_set_size; root = null }

-- The index where the loop over `len` elements stops.
unfoldable pub find_from : Slots → ℕ → ℕ → Outcome ℕ
find_from slots zero chunk = ok 0
find_from no_slots (suc len) chunk = fault
find_from (slot edge v rest) (suc len) chunk = elim (v == chunk) [
  | true ↦ ok 0
  | false ↦ do i ← find_from rest len chunk; ok (suc i)
]

-- A pointer to the element; that of the loop's end is KID_END, and NULL for no array.
unfoldable pub kid_find : Slots → ℕ → ℕ → Outcome (Option ℕ)
kid_find no_slots len chunk = do i ← find_from no_slots len chunk; ok none
kid_find (slot edge v rest) len chunk = do i ← find_from (slot edge v rest) len chunk; ok (some i)

unfoldable pub edge_at : Slots → ℕ → Outcome Node
edge_at no_slots i = fault
edge_at (slot edge v rest) zero = ok edge
edge_at (slot edge v rest) (suc i) = edge_at rest i

unfoldable pub set_edge : Slots → ℕ → Node → Slots
set_edge no_slots i np = no_slots
set_edge (slot edge v rest) zero np = slot np v rest
set_edge (slot edge v rest) (suc i) np = slot edge v (set_edge rest i np)

unfoldable pub set_chunk : Slots → ℕ → ℕ → Outcome Slots
set_chunk no_slots i chunk = fault
set_chunk (slot edge v rest) zero chunk = ok (slot edge chunk rest)
set_chunk (slot edge v rest) (suc i) chunk = do
  rest' ← set_chunk rest i chunk
  ok (slot edge v rest')

unfoldable pub do_dynarr_set_has : Node → List ℕ → Outcome Bool
do_dynarr_set_has np [] = ok true
do_dynarr_set_has null (p ∷ ptr) = ok false
do_dynarr_set_has (node kids len cap) (p ∷ ptr) = do
  kp ← kid_find kids len p
  elim kp [ none ↦ ok false | some i ↦ do edge ← edge_at kids i; do_dynarr_set_has edge ptr ]

unfoldable pub dynarr_set_has : DynarrSet → List ℕ → Outcome Bool
dynarr_set_has s ptr = do_dynarr_set_has s.root ptr

-- `n` zeroed elements behind the array
abbrev pub zeros : ℕ → Slots
zeros zero = no_slots
zeros (suc n) = slot null 0 (zeros n)

abbrev pub extend : Slots → ℕ → Slots
extend no_slots n = zeros n
extend (slot edge v rest) n = slot edge v (extend rest n)

-- The array, its capacity and the count of the bytes.
unfoldable pub node_grow : Slots → ℕ → ℕ → Slots × ℕ × ℕ
node_grow kids cap bytes =
    let new_cap = if cap * 2 == 0 then 1 else cap * 2 in
    (extend kids (new_cap - cap), new_cap, (bytes + kid_size * (new_cap - cap)) % 2 ^ 64)

-- The array, `len`, `cap` and the count of the bytes.
unfoldable pub node_push : Slots → ℕ → ℕ → ℕ → ℕ → Outcome (Slots × ℕ × ℕ × ℕ)
node_push kids len cap bytes chunk = do
  let (grown, cap', bytes') = if len == cap then node_grow kids cap bytes else (kids, cap, bytes)
  kids' ← set_chunk grown len chunk
  ok (kids', len + 1, cap', bytes')

-- `if (!*npp) *npp = dynarr_set_node_new(dp)`: the fields of the node and the count of the bytes.
abbrev pub fields_or_new : Node → ℕ → Slots × ℕ × ℕ × ℕ
fields_or_new null bytes = (no_slots, 0, 0, (bytes + node_size) % 2 ^ 64)
fields_or_new (node kids len cap) bytes = (kids, len, cap, bytes)

-- The loop of do_dynarr_set_add() from the edge that `npp` points at: what is stored there, and the
-- count of the bytes.
unfoldable pub add_from : List ℕ → Node → ℕ → Outcome (Node × ℕ)
add_from [] np bytes = ok (node no_slots 0 0, (bytes + node_size) % 2 ^ 64)
add_from (p ∷ ptr) np bytes = do
  let (kids, len, cap, bytes1) = fields_or_new np bytes
  kp ← kid_find kids len p
  elim kp [
    | some i ↦ do
      edge ← edge_at kids i
      (edge', bytes2) ← add_from ptr edge bytes1
      ok (node (set_edge kids i edge') len cap, bytes2)
    | none ↦ do
      (kids', len', cap', bytes2) ← node_push kids len cap bytes1 p
      edge ← edge_at kids' (len' - 1)
      (edge', bytes3) ← add_from ptr edge bytes2
      ok (node (set_edge kids' (len' - 1) edge') len' cap', bytes3)
  ]

unfoldable pub dynarr_set_add : DynarrSet → List ℕ → Outcome DynarrSet
dynarr_set_add s ptr = do
  (root, bytes) ← add_from ptr s.root s.ps_bytes
  ok (record { ps_bytes = bytes; root = root })
