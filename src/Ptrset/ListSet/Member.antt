-- ===== src/Ptrset/ListSet/Member.antt =====
-- list_set_add() adds the pointer, and nothing else.
use mepl.Prelude.{
  ℕ, suc, ◌<◌, ◌≡◌, refl, sym, ap, ◌∙◌, Bool, true, false, ◌||◌, Option, none, some, List, [], ◌∷◌,
  arith, ltb, ◌==◌, Bool-cases, inl, inr, length, ==_iff,
}
use mepl.Ptrset.{same_ptr}
use mepl.Ptrset.ListSet.{
  Node, Kids, null, node, no_kids, kid, ListSet, list_set_add, list_set_has, do_list_set_has,
  kid_find, kid_get_or_set, set_edge, add_from, edge_or_null, kids_or_new,
}
use mepl.Ptrset.ListSet.Sorted.{
  Sorted, SortedFrom, found-Sorted, get_or_set-SortedFrom, kids_or_new-Sorted,
}

-- Nothing is found below a kid that begins too high.
kid_find-low :
    (low : ℕ) (kids : Kids) (c : ℕ) → SortedFrom low kids → c < low → kid_find kids c ≡ none
unfolding kid_find
kid_find-low low no_kids c h l = refl
kid_find-low low (kid edge v next) c h l =
    let other : (v == c) ≡ false = ground arith in
    rw other (kid_find-low (suc v) next c h.2 (omega (arith, h.0)))

-- The kid for the chunk is there, with the edge that it had.
get_or_set-find :
    (bytes low : ℕ) (kids : Kids) (c : ℕ)
    → SortedFrom low kids
    → kid_find (kid_get_or_set bytes kids c).0 c ≡ some (edge_or_null (kid_find kids c))
unfolding kid_get_or_set kid_find
get_or_set-find bytes low no_kids c h = ground arith
get_or_set-find bytes low (kid edge v next) c h = elim (Bool-cases (v == c)) [
  | inl here ↦ rw (here, here)
  | inr other ↦ elim (Bool-cases (ltb c v)) [
    | inl less ↦
        let nothing = kid_find-low (suc v) next c h.2 (ground arith) in
        let same : (c == c) ≡ true = ground arith in rw (other, less, same, nothing)
    | inr more ↦ rw (other, more, other) (get_or_set-find bytes (suc v) next c h.2)
  ]
]

get_or_set-other :
    (bytes : ℕ) (kids : Kids) (c d : ℕ)
    → (c == d) ≡ false
    → kid_find (kid_get_or_set bytes kids c).0 d ≡ kid_find kids d
unfolding kid_get_or_set kid_find
get_or_set-other bytes no_kids c d ne = rw ne
get_or_set-other bytes (kid edge v next) c d ne = elim (Bool-cases (v == c)) [
  | inl here ↦ rw here
  | inr other ↦ elim (Bool-cases (ltb c v)) [
    | inl less ↦ rw (other, less, ne)
    | inr more ↦ rw (other, more, get_or_set-other bytes next c d ne)
  ]
]

set_edge-find :
    (kids : Kids) (c : ℕ) (np old : Node)
    → kid_find kids c ≡ some old
    → kid_find (set_edge kids c np) c ≡ some np
unfolding set_edge kid_find
set_edge-find no_kids c np old h = cc
set_edge-find (kid edge v next) c np old h = elim (Bool-cases (v == c)) [
  | inl here ↦ rw (here, here)
  | inr other ↦ rw (other, other) (set_edge-find next c np old (ground arith))
]

set_edge-other :
    (kids : Kids) (c d : ℕ) (np : Node)
    → (c == d) ≡ false
    → kid_find (set_edge kids c np) d ≡ kid_find kids d
unfolding set_edge kid_find
set_edge-other no_kids c d np ne = refl
set_edge-other (kid edge v next) c d np ne = elim (Bool-cases (v == c)) [
  | inl here ↦ let apart : (v == d) ≡ false = ground arith in rw (here, apart)
  | inr other ↦ rw (other, set_edge-other next c d np ne)
]

-- Membership of a pointer in front of the edge that a search ends at.
abbrev has_below : Option Node → List ℕ → Bool
has_below none ptr = false
has_below (some edge) ptr = do_list_set_has edge ptr

has-node :
    (kids : Kids) (q : ℕ) (qs : List ℕ)
    → do_list_set_has (node kids) (q ∷ qs) ≡ has_below (kid_find kids q) qs
unfolding do_list_set_has
has-node kids q qs = go (kid_find kids q)
  where
    go :
        (o : Option Node)
        → (elim o [ none ↦ false | some edge ↦ do_list_set_has edge qs ]) ≡ has_below o qs
    go none = refl
    go (some edge) = refl

has-old :
    (bytes : ℕ) (np : Node) (q : ℕ) (qs : List ℕ)
    → do_list_set_has np (q ∷ qs) ≡ has_below (kid_find (kids_or_new bytes np).0 q) qs
unfolding do_list_set_has kid_find
has-old bytes null q qs = refl
has-old bytes (node kids) q qs = has-node kids q qs

-- Where there is no kid, only the empty pointer is found below it.
has-edge_or_null :
    (o : Option Node) (ptr q : List ℕ)
    → length ptr ≡ length q
    → (same_ptr ptr q || do_list_set_has (edge_or_null o) q) ≡ (same_ptr ptr q || has_below o q)
unfolding do_list_set_has
has-edge_or_null (some edge) ptr q e = refl
has-edge_or_null none [] [] e = refl
has-edge_or_null none [] (y ∷ q) e = refl
has-edge_or_null none (x ∷ ptr) [] e = absurd (omega arith)
has-edge_or_null none (x ∷ ptr) (y ∷ q) e = refl

add_from-step :
    (bytes : ℕ) (np : Node) (p : ℕ) (ptr : List ℕ) (q : ℕ) (qs : List ℕ)
    → do_list_set_has (add_from bytes np (p ∷ ptr)).0 (q ∷ qs)
      ≡ has_below
          (kid_find
            (set_edge
              (kid_get_or_set (kids_or_new bytes np).1 (kids_or_new bytes np).0 p).0
              p
              (add_from
                (kid_get_or_set (kids_or_new bytes np).1 (kids_or_new bytes np).0 p).1
                (edge_or_null (
                  kid_find
                    (kid_get_or_set (kids_or_new bytes np).1 (kids_or_new bytes np).0 p).0
                    p))
                ptr).0)
            q)
          qs
unfolding add_from
add_from-step bytes np p ptr q qs = has-node _ q qs

add_from-has :
    (ptr : List ℕ) (bytes : ℕ) (np : Node) (q : List ℕ)
    → Sorted np
    → length ptr ≡ length q
    → do_list_set_has (add_from bytes np ptr).0 q ≡ (same_ptr ptr q || do_list_set_has np q)
unfolding do_list_set_has
add_from-has [] bytes np [] s e = refl
add_from-has [] bytes np (q ∷ qs) s e = absurd (omega arith)
add_from-has (p ∷ ptr) bytes np [] s e = absurd (omega arith)
add_from-has (p ∷ ptr) bytes np (q ∷ qs) s e =
    let kids : Kids = (kids_or_new bytes np).0 in
    let bytes1 : ℕ = (kids_or_new bytes np).1 in
    let kids' : Kids = (kid_get_or_set bytes1 kids p).0 in
    let bytes2 : ℕ = (kid_get_or_set bytes1 kids p).1 in
    let start : Node = edge_or_null (kid_find kids' p) in
    let edge : Node = (add_from bytes2 start ptr).0 in
    let old = kids_or_new-Sorted bytes np s in
    let found = get_or_set-find bytes1 0 kids p old in
    let before = has-old bytes np q qs in
    add_from-step bytes np p ptr q qs ∙ (elim (Bool-cases (p == q)) [
      | inl here ↦
          let same : p ≡ q = (==_iff p q).0 here in
          let start-Sorted =
            found-Sorted 0 kids' p (get_or_set-SortedFrom bytes1 0 kids p (omega arith) old) in
          rw here (
            ap (λ k. has_below (kid_find (set_edge kids' p edge) k) qs) (sym same)
            ∙ ap (λ o. has_below o qs) (set_edge-find kids' p edge _ found)
            ∙ add_from-has ptr bytes2 start qs start-Sorted (omega (arith, e))
            ∙ ap (λ o. same_ptr ptr qs || do_list_set_has (edge_or_null o) qs) found
            ∙ has-edge_or_null (kid_find kids p) ptr qs (omega (arith, e))
            ∙ ap (λ k. same_ptr ptr qs || has_below (kid_find kids k) qs) same
            ∙ ap (λ h. same_ptr ptr qs || h) (sym before))
      | inr other ↦ rw other (
          ap (λ o. has_below o qs)
            (set_edge-other kids' p q edge other ∙ get_or_set-other bytes1 kids p q other)
          ∙ sym before)
    ])

-- In a set whose nodes have their kids sorted, after list_set_add() of a pointer the pointers of
-- its length that list_set_has() finds are it and those that it found before.
pub list_set_has-list_set_add :
    (s : ListSet) (ptr q : List ℕ)
    → Sorted s.root
    → length ptr ≡ length q
    → list_set_has (list_set_add s ptr) q ≡ (same_ptr ptr q || list_set_has s q)
unfolding list_set_has list_set_add
list_set_has-list_set_add s ptr q h e = add_from-has ptr s.ps_bytes s.root q h e
