-- ===== src/Tests/Trees.antt =====
-- Trees of kids.
use mepl.Prelude.{
  true, ℕ, ◌≡◌, ◌≢◌, refl, subst, count, get_elem?, Option, none, some, List, [], ◌∷◌, arith, ok,
  fault,
}
use mepl.Ptrset.KidTree.{Kid, red, black, kid_find, kid_rotate_left, kid_rotate_right}
use mepl.Ptrset.KidTree.Find.{Tree, leaf, fork, in_order, first_kid, kid_find-first_kid}
use mepl.Ptrset.KidTree.Linked.{IsLinked, Once, places}
use mepl.Ptrset.KidTree.Writes.{IsKept, with_child}
use mepl.Ptrset.KidTree.Rotate.Left.{kid_rotate_left-IsLinked}
use mepl.Ptrset.KidTree.Rotate.Right.{kid_rotate_right-IsLinked}
use mepl.Ptrset.KidTree.Search.{kid_find-kid_rotate_left}
use mepl.Ptrset.BstSet.Fix.{one_node, three_kids, three_kids-fault}

three_kids-fault_example : three_kids 3 (one_node 48 none []) 10 5 7 ≡ fault
three_kids-fault_example = three_kids-fault 3 48 10 5 7 (omega arith) (omega arith) (omega arith)

-- 20 with the kids 10 and 30.
abbrev kids : List Kid
kids =
    record { edge = none; parent = none; left = some 1; right = some 2; v = 20; color = black }
    ∷ record { edge = none; parent = some 0; left = none; right = none; v = 10; color = red }
    ∷ record { edge = none; parent = some 0; left = none; right = none; v = 30; color = red }
    ∷ []

abbrev tree : Tree
tree = fork (fork leaf 1 10 leaf) 0 20 (fork leaf 2 30 leaf)

kid_find-first_kid_example : kid_find 5 kids (some 0) 30 ≡ ok (first_kid (in_order tree) 30)
kid_find-first_kid_example =
    kid_find-first_kid 5 kids (some 0) tree 30
      (
        refl,
        (
          kids_0,
          refl,
          refl,
          (refl, (kids_1, refl, refl, tt, tt)),
          (refl, (kids_2, refl, refl, tt, tt)),
        ),
      )
      ((omega arith, (omega arith, tt)), ((omega arith, tt), (tt, tt))) (omega arith)
  where
    kids_0 : Kid
    kids_0 = record {
      edge = none;
      parent = none;
      left = some 1;
      right = some 2;
      v = 20;
      color = black;
    }

    kids_1 : Kid
    kids_1 = record { edge = none; parent = some 0; left = none; right = none; v = 10; color = red }

    kids_2 : Kid
    kids_2 = record { edge = none; parent = some 0; left = none; right = none; v = 30; color = red }

abbrev red_kid : Option ℕ → Option ℕ → Option ℕ → ℕ → Kid
red_kid parent left right v = record {
  edge = none;
  parent = parent;
  left = left;
  right = right;
  v = v;
  color = red;
}

-- 10 above 20, which has the kids 15 and 30.
abbrev leaning_right : List Kid
leaning_right =
    red_kid none none (some 1) 10
    ∷ red_kid (some 0) (some 3) (some 2) 20
    ∷ red_kid (some 1) none none 30
    ∷ red_kid (some 1) none none 15
    ∷ []

leaning_right-IsLinked :
    IsLinked leaning_right none
      (some 0)
      (fork leaf 0 10 (fork (fork leaf 3 15 leaf) 1 20 (fork leaf 2 30 leaf)))
leaning_right-IsLinked = (
  refl,
  (
    red_kid none none (some 1) 10,
    refl,
    refl,
    refl,
    tt,
    (
      refl,
      (
        red_kid (some 0) (some 3) (some 2) 20,
        refl,
        refl,
        refl,
        (refl, (red_kid (some 1) none none 15, refl, refl, refl, tt, tt)),
        (refl, (red_kid (some 1) none none 30, refl, refl, refl, tt, tt)),
      ),
    ),
  ),
)

leaning_right-Once : Once (fork leaf 0 10 (fork (fork leaf 3 15 leaf) 1 20 (fork leaf 2 30 leaf)))
leaning_right-Once u = ground arith

kid_rotate_left-IsLinked_example :
    (st' : List Kid) × (kid_rotate_left leaning_right (some 0) 0 ≡ ok (some 1, st'))
    × IsLinked st' none
        (some 1)
        (fork (fork leaf 0 10 (fork leaf 3 15 leaf)) 1 20 (fork leaf 2 30 leaf))
    × (in_order (fork (fork leaf 0 10 (fork leaf 3 15 leaf)) 1 20 (fork leaf 2 30 leaf))
        ≡ in_order (fork leaf 0 10 (fork (fork leaf 3 15 leaf) 1 20 (fork leaf 2 30 leaf))))
    × ((g : ℕ) (k : Kid)
        → none ≡ some g
        → get_elem? leaning_right g ≡ some k
        → get_elem? st' g ≡ some (with_child true k (some 1)))
    × ((u : ℕ)
        → count u (0 ∷ 3 ∷ 1 ∷ 2 ∷ []) ≡ 0
        → none ≢ some u
        → get_elem? st' u ≡ get_elem? leaning_right u)
    × IsKept leaning_right st'
kid_rotate_left-IsLinked_example =
    kid_rotate_left-IsLinked leaning_right (some 0) none true 0 1 10 20 leaf (fork leaf 3 15 leaf)
      (fork leaf 2 30 leaf) leaning_right-IsLinked leaning_right-Once (λ g e. cc) tt

kid_find-kid_rotate_left_example :
    (st' : List Kid) × (kid_rotate_left leaning_right (some 0) 0 ≡ ok (some 1, st'))
    × ((c : ℕ) → kid_find 5 st' (some 1) c ≡ kid_find 5 leaning_right (some 0) c)
kid_find-kid_rotate_left_example =
    kid_find-kid_rotate_left leaning_right (some 0) none true 0 1 10 20 leaf (fork leaf 3 15 leaf)
      (fork leaf 2 30 leaf) leaning_right-IsLinked leaning_right-Once (λ g e. cc) 5 tt
      (
        (omega arith, (omega arith, (omega arith, tt))),
        ((omega arith, (omega arith, tt)), ((omega arith, tt), (tt, tt))),
      )
      (omega arith)

-- 10 on the left of 20, which is below 50.
abbrev leaning_left : List Kid
leaning_left =
    red_kid (some 1) none (some 2) 10
    ∷ red_kid (some 3) (some 0) none 20
    ∷ red_kid (some 0) none none 15
    ∷ red_kid none (some 1) none 50
    ∷ []

leaning_left-IsLinked :
    IsLinked leaning_left (some 3) (some 1) (fork (fork leaf 0 10 (fork leaf 2 15 leaf)) 1 20 leaf)
leaning_left-IsLinked = (
  refl,
  (
    red_kid (some 3) (some 0) none 20,
    refl,
    refl,
    refl,
    (
      refl,
      (
        red_kid (some 1) none (some 2) 10,
        refl,
        refl,
        refl,
        tt,
        (refl, (red_kid (some 0) none none 15, refl, refl, refl, tt, tt)),
      ),
    ),
    tt,
  ),
)

leaning_left-Once : Once (fork (fork leaf 0 10 (fork leaf 2 15 leaf)) 1 20 leaf)
leaning_left-Once u = ground arith

outside_left :
    (g : ℕ)
    → some 3 ≡ some g
    → count g (places (fork (fork leaf 0 10 (fork leaf 2 15 leaf)) 1 20 leaf)) ≡ 0
outside_left g e = let at : 3 ≡ g = cc in subst (λ n. count n (0 ∷ 2 ∷ 1 ∷ []) ≡ 0) at refl

kid_rotate_right-IsLinked_example :
    (st' : List Kid) × (kid_rotate_right leaning_left (some 3) 1 ≡ ok (some 3, st'))
    × IsLinked st' (some 3) (some 0) (fork leaf 0 10 (fork (fork leaf 2 15 leaf) 1 20 leaf))
    × (in_order (fork leaf 0 10 (fork (fork leaf 2 15 leaf) 1 20 leaf))
        ≡ in_order (fork (fork leaf 0 10 (fork leaf 2 15 leaf)) 1 20 leaf))
    × ((g : ℕ) (k : Kid)
        → some 3 ≡ some g
        → get_elem? leaning_left g ≡ some k
        → get_elem? st' g ≡ some (with_child true k (some 0)))
    × ((u : ℕ)
        → count u (0 ∷ 2 ∷ 1 ∷ []) ≡ 0
        → some 3 ≢ some u
        → get_elem? st' u ≡ get_elem? leaning_left u)
    × IsKept leaning_left st'
kid_rotate_right-IsLinked_example =
    kid_rotate_right-IsLinked leaning_left (some 3) (some 3) true 1 0 20 10 leaf
      (fork leaf 2 15 leaf) leaf leaning_left-IsLinked leaning_left-Once outside_left
      (red_kid none (some 1) none 50, refl, refl, λ e. cc)
