-- ===== src/Ptrset/ListSet/Sorted.antt =====
-- The kids of every node stay sorted.
use mepl.Prelude.{ℕ, suc, ◌≤◌, List, [], ◌∷◌, arith, ltb, ◌==◌, Bool-cases, inl, inr}
use mepl.Ptrset.ListSet.{
  Node, Kids, null, node, no_kids, kid, ListSet, list_set_new, list_set_add, kid_find,
  kid_get_or_set, set_edge, add_from, edge_or_null, kids_or_new,
}

abbrev mutual
  -- In every node below, the chunks of the kids ascend.
  pub Sorted : Node → Type 0
  Sorted null = Unit
  Sorted (node kids) = SortedFrom 0 kids

  pub SortedFrom : ℕ → Kids → Type 0
  SortedFrom low no_kids = Unit
  SortedFrom low (kid edge v next) = (low ≤ v) × Sorted edge × SortedFrom (suc v) next

pub found-Sorted :
    (low : ℕ) (kids : Kids) (c : ℕ) → SortedFrom low kids → Sorted (edge_or_null (kid_find kids c))
unfolding kid_find
found-Sorted low no_kids c h = tt
found-Sorted low (kid edge v next) c h = elim (Bool-cases (v == c)) [
  | inl here ↦ rw here h.1
  | inr other ↦ rw other (found-Sorted (suc v) next c h.2)
]

pub get_or_set-SortedFrom :
    (bytes low : ℕ) (kids : Kids) (c : ℕ)
    → low ≤ c
    → SortedFrom low kids
    → SortedFrom low (kid_get_or_set bytes kids c).0
unfolding kid_get_or_set
get_or_set-SortedFrom bytes low no_kids c l h = (l, tt, tt)
get_or_set-SortedFrom bytes low (kid edge v next) c l h = elim (Bool-cases (v == c)) [
  | inl here ↦ rw here h
  | inr other ↦ elim (Bool-cases (ltb c v)) [
    | inl less ↦ rw (other, less) (l, tt, (ground arith, h.1, h.2))
    | inr more ↦
        rw (other, more) (h.0, h.1, get_or_set-SortedFrom bytes (suc v) next c (ground arith) h.2)
  ]
]

set_edge-SortedFrom :
    (low : ℕ) (kids : Kids) (c : ℕ) (np : Node)
    → Sorted np
    → SortedFrom low kids
    → SortedFrom low (set_edge kids c np)
unfolding set_edge
set_edge-SortedFrom low no_kids c np s h = tt
set_edge-SortedFrom low (kid edge v next) c np s h = elim (Bool-cases (v == c)) [
  | inl here ↦ rw here (h.0, s, h.2)
  | inr other ↦ rw other (h.0, h.1, set_edge-SortedFrom (suc v) next c np s h.2)
]

pub kids_or_new-Sorted : (bytes : ℕ) (np : Node) → Sorted np → SortedFrom 0 (kids_or_new bytes np).0
kids_or_new-Sorted bytes null s = tt
kids_or_new-Sorted bytes (node kids) s = s

pub add_from-Sorted :
    (ptr : List ℕ) (bytes : ℕ) (np : Node) → Sorted np → Sorted (add_from bytes np ptr).0
unfolding add_from
add_from-Sorted [] bytes np s = tt
add_from-Sorted (p ∷ ptr) bytes np s =
    let old = kids_or_new-Sorted bytes np s in
    let new = get_or_set-SortedFrom (kids_or_new bytes np).1 0 _ p (omega arith) old in
    set_edge-SortedFrom 0 _ p _ (add_from-Sorted ptr _ _ (found-Sorted 0 _ p new)) new

pub list_set_new-Sorted : Sorted list_set_new.root
unfolding list_set_new
list_set_new-Sorted = tt

-- If every node of a set has its kids sorted, every node has after list_set_add() of any pointer.
pub list_set_add-Sorted :
    (s : ListSet) (ptr : List ℕ) → Sorted s.root → Sorted (list_set_add s ptr).root
unfolding list_set_add
list_set_add-Sorted s ptr h = add_from-Sorted ptr s.ps_bytes s.root h
