-- ===== src/Ptrset/BstSet.antt =====
-- ideas/ptrset/bst_set.c: a trie whose nodes keep their kids in trees. Nodes and kids are in a store
-- each, and a pointer to one is its index, or `none` for NULL; memory does not run out, and freed
-- memory is not modelled.
pub mod Fix
use mepl.Prelude.{
  ℕ, zero, suc, ◌+◌, ◌%◌, ◌^◌, Bool, true, false, Option, none, some, List, [], ◌∷◌, ◌++◌, ltb,
  if◌then◌else◌, length, get_elem?, set, ◌⊎◌, inl, inr, Outcome, ok, spin, ◌>>=◌,
}
use mepl.Memory.{deref}
use mepl.Ptrset.KidTree.{red, Kid, set_left, set_right, kid_find, kid_fix}

-- `kids` of each node, and the kids.
pub record BstSet : Type 0 where
  pub ps_bytes : ℕ
  pub root : Option ℕ
  pub nodes : List (Option ℕ)
  pub kids : List Kid

-- The sizes of the structs, with 8 bytes for a pointer.
abbrev pub bst_set_size : ℕ
bst_set_size = 40

abbrev pub node_size : ℕ
node_size = 8

unfoldable pub bst_set_new : BstSet
bst_set_new = record { ps_bytes = bst_set_size; root = none; nodes = []; kids = [] }

-- `kpp`: the pointer to the tree of the node, or that in a kid.
pub data KidSlot : Type 0 where
  kids_of : KidSlot
  left_of right_of : ℕ → KidSlot

-- The loop of kid_get_or_set(), where `*kpp` is `p` and `kp` is `last`: the kid that is found, or
-- `kpp` and `kp` at the end.
unfoldable pub find_slot :
    ℕ → List Kid → KidSlot → Option ℕ → Option ℕ → ℕ → Outcome (ℕ ⊎ (KidSlot × Option ℕ))
find_slot zero st kpp p last chunk = spin
find_slot (suc fuel) st kpp none last chunk = ok (inr (kpp, last))
find_slot (suc fuel) st kpp (some p) last chunk = do
  k ← deref (get_elem? st p)
  if ltb chunk k.v
      then find_slot fuel st (left_of p) k.left (some p) chunk
      else (if ltb k.v chunk
          then find_slot fuel st (right_of p) k.right (some p) chunk
          else ok (inl p))

-- `*kpp = newk`, with the tree of the node
unfoldable pub set_slot : List Kid → Option ℕ → KidSlot → ℕ → Outcome (Option ℕ × List Kid)
set_slot st root kids_of newk = ok (some newk, st)
set_slot st root (left_of p) newk = do st' ← set_left st p (some newk); ok (root, st')
set_slot st root (right_of p) newk = do st' ← set_right st p (some newk); ok (root, st')

abbrev pub new_kid : Option ℕ → ℕ → Kid
new_kid parent chunk = record {
  edge = none;
  parent = parent;
  left = none;
  right = none;
  v = chunk;
  color = red;
}

unfoldable pub kid_get_or_set : ℕ → BstSet → ℕ → ℕ → Outcome (ℕ × BstSet)
kid_get_or_set fuel s n chunk = do
  root ← deref (get_elem? s.nodes n)
  found ← find_slot fuel s.kids kids_of root none chunk
  elim found [
    | inl p ↦ ok (p, s)
    | inr (kpp, kp) ↦ do
      let newk = length s.kids
      (root1, st1) ← set_slot (s.kids ++ (new_kid kp chunk ∷ [])) root kpp newk
      (root2, st2) ← kid_fix fuel st1 root1 newk
      ok (newk, record s { nodes = set s.nodes n root2; kids = st2 })
  ]

unfoldable pub node_new : BstSet → ℕ × BstSet
node_new s = (
  length s.nodes,
  record s { ps_bytes = (s.ps_bytes + node_size) % 2 ^ 64; nodes = s.nodes ++ (none ∷ []) },
)

-- `npp`: the root, or the edge of a kid.
pub data Slot : Type 0 where
  root_of : Slot
  edge_of : ℕ → Slot

unfoldable pub get_slot : BstSet → Slot → Outcome (Option ℕ)
get_slot s root_of = ok s.root
get_slot s (edge_of p) = do k ← deref (get_elem? s.kids p); ok k.edge

unfoldable pub put_slot : BstSet → Slot → ℕ → Outcome BstSet
put_slot s root_of n = ok (record s { root = some n })
put_slot s (edge_of p) n = do
  k ← deref (get_elem? s.kids p)
  ok (record s { kids = set s.kids p (record k { edge = some n }) })

-- `*npp = node_new(bp)`
unfoldable pub new_at : BstSet → Slot → Outcome (ℕ × BstSet)
new_at s npp = do let (n, s1) = node_new s; s2 ← put_slot s1 npp n; ok (n, s2)

-- The loop, at the rest of the chunks.
unfoldable pub add_from : ℕ → BstSet → Slot → List ℕ → Outcome BstSet
add_from fuel s npp [] = do (n, s') ← new_at s npp; ok s'
add_from fuel s npp (p ∷ ptr) = do
  np ← get_slot s npp
  (n, s1) ← elim np [ none ↦ new_at s npp | some n ↦ ok (n, s) ]
  (kp, s2) ← kid_get_or_set fuel s1 n p
  add_from fuel s2 (edge_of kp) ptr

unfoldable pub bst_set_add : ℕ → BstSet → List ℕ → Outcome BstSet
bst_set_add fuel s ptr = add_from fuel s root_of ptr

unfoldable pub do_bst_set_has : ℕ → BstSet → Option ℕ → List ℕ → Outcome Bool
do_bst_set_has fuel s np [] = ok true
do_bst_set_has fuel s none (p ∷ ptr) = ok false
do_bst_set_has fuel s (some n) (p ∷ ptr) = do
  root ← deref (get_elem? s.nodes n)
  found ← kid_find fuel s.kids root p
  elim found [
    | none ↦ ok false
    | some kp ↦ do k ← deref (get_elem? s.kids kp); do_bst_set_has fuel s k.edge ptr
  ]

unfoldable pub bst_set_has : ℕ → BstSet → List ℕ → Outcome Bool
bst_set_has fuel s ptr = do_bst_set_has fuel s s.root ptr
