-- ===== src/Ptrset/DynarrSet/First.antt =====
-- The first pointer that dynarr_set_add() adds, and the next.
use mepl.Prelude.{
  ℕ, ◌+◌, ◌%◌, ◌^◌, ◌≡◌, ◌≢◌, refl, true, false, some, List, [], ◌∷◌, arith, ◌==◌, ok, fault,
}
use mepl.Ptrset.DynarrSet.{
  Node, null, node, no_slots, slot, DynarrSet, dynarr_set_new, dynarr_set_has, dynarr_set_add,
  do_dynarr_set_has, add_from, kid_find, find_from, edge_at, set_edge, set_chunk, node_push,
  node_grow, node_size, kid_size,
}

-- The nodes of one pointer.
abbrev chain : List ℕ → Node
chain [] = node no_slots 0 0
chain (p ∷ ptr) = node (slot (chain ptr) p no_slots) 1 1

add_from-one :
    (p : ℕ) (ptr : List ℕ) (bytes : ℕ) {np : Node} {bytes' : ℕ}
    → add_from ptr null (((bytes + node_size) % 2 ^ 64 + kid_size) % 2 ^ 64) ≡ ok (np, bytes')
    → add_from (p ∷ ptr) null bytes ≡ ok (node (slot np p no_slots) 1 1, bytes')
unfolding add_from kid_find find_from node_push node_grow set_chunk edge_at set_edge
add_from-one p ptr bytes e = rw e

add_from-null :
    (ptr : List ℕ) (bytes : ℕ) → (bytes' : ℕ) × (add_from ptr null bytes ≡ ok (chain ptr, bytes'))
unfolding add_from
add_from-null [] bytes = (_, refl)
add_from-null (p ∷ ptr) bytes =
    let (bytes', e) = add_from-null ptr (((bytes + node_size) % 2 ^ 64 + kid_size) % 2 ^ 64) in
    (bytes', add_from-one p ptr bytes e)

find-here : (np : Node) (p : ℕ) → kid_find (slot np p no_slots) 1 p ≡ ok (some 0)
unfolding kid_find find_from
find-here np p = let same : (p == p) ≡ true = ground arith in rw (find_from, same)

find-there : (np : Node) (p q : ℕ) → p ≢ q → kid_find (slot np p no_slots) 1 q ≡ ok (some 1)
unfolding kid_find find_from
find-there np p q ne = let other : (p == q) ≡ false = ground arith in rw (find_from, other)

has-chain : (ptr : List ℕ) → do_dynarr_set_has (chain ptr) ptr ≡ ok true
unfolding do_dynarr_set_has edge_at
has-chain [] = refl
has-chain (p ∷ ptr) = rw (do_dynarr_set_has, find-here (chain ptr) p) (has-chain ptr)

module _ (p q : ℕ) (ptr qs : List ℕ) (ne : p ≢ q) where
  has-other : do_dynarr_set_has (chain (p ∷ ptr)) (q ∷ qs) ≡ fault
  unfolding do_dynarr_set_has edge_at
  has-other = rw (do_dynarr_set_has, find-there (chain ptr) p q ne)

  add_from-other : (bytes : ℕ) → add_from (q ∷ qs) (chain (p ∷ ptr)) bytes ≡ fault
  unfolding add_from edge_at
  add_from-other bytes = rw (add_from, find-there (chain ptr) p q ne)

-- For two pointers with different first chunks: dynarr_set_add() of the first to a new set succeeds,
-- and dynarr_set_has() finds it; but looking up, or adding, the second then reads behind the end of
-- the root's array.
pub dynarr_set_first :
    (p : ℕ) (ptr : List ℕ) (q : ℕ) (qs : List ℕ)
    → p ≢ q
    → (s : DynarrSet) × (dynarr_set_add dynarr_set_new (p ∷ ptr) ≡ ok s)
      × (dynarr_set_has s (p ∷ ptr) ≡ ok true)
      × (dynarr_set_has s (q ∷ qs) ≡ fault)
      × (dynarr_set_add s (q ∷ qs) ≡ fault)
unfolding dynarr_set_new dynarr_set_has dynarr_set_add
dynarr_set_first p ptr q qs ne =
    let (bytes, added) = add_from-null (p ∷ ptr) 40 in
    (
      record { ps_bytes = bytes; root = chain (p ∷ ptr) },
      rw added,
      has-chain (p ∷ ptr),
      has-other p q ptr qs ne,
      rw (add_from-other p q ptr qs ne bytes),
    )
