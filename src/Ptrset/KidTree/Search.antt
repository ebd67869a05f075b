-- ===== src/Ptrset/KidTree/Search.antt =====
-- A search finds the same behind a rotation.
use mepl.Prelude.{ℕ, ◌<◌, ◌≡◌, sym, ap, ◌∙◌, subst, Bool, Option, some, List, arith, count, ok}
use mepl.Ptrset.KidTree.{Kid, kid_find, kid_rotate_left, kid_rotate_right}
use mepl.Ptrset.KidTree.Find.{
  Tree, fork, in_order, first_kid, IsSorted, Ordered, size, kid_find-first_kid,
}
use mepl.Ptrset.KidTree.Writes.{IsBelow, root_after}
use mepl.Ptrset.KidTree.Linked.{IsLinked, IsLinked-Holds, places, Once}
use mepl.Ptrset.KidTree.Rotate.Left.{kid_rotate_left-IsLinked}
use mepl.Ptrset.KidTree.Rotate.Right.{kid_rotate_right-IsLinked}

-- Two trees with the same kids in the same order.
kid_find-in_order :
    (fuel : ℕ) (st st' : List Kid) (root root' : Option ℕ) (par par' : Option ℕ) (t t' : Tree)
    (c : ℕ)
    → IsLinked st par root t
    → IsLinked st' par' root' t'
    → Ordered t
    → in_order t' ≡ in_order t
    → size t < fuel
    → size t' ≡ size t
    → kid_find fuel st' root' c ≡ kid_find fuel st root c
kid_find-in_order fuel st st' root root' par par' t t' c h h' o e f s =
    let o' : Ordered t' = subst IsSorted (sym e) o in
    let new =
      kid_find-first_kid fuel st' root' t' c (IsLinked-Holds st' par' root' t' h') o'
        (omega (arith, s, f)) in
    let old = kid_find-first_kid fuel st root t c (IsLinked-Holds st par root t h) o f in
    new ∙ ap (λ fs. ok (first_kid fs c)) e ∙ sym old

module _ (st : List Kid) (root par : Option ℕ) (side : Bool) (x y vx vy : ℕ) (l m r : Tree)
    (linked : IsLinked st par (some x) (fork l x vx (fork m y vy r)))
    (once : Once (fork l x vx (fork m y vy r)))
    (outside : (g : ℕ) → par ≡ some g → count g (places (fork l x vx (fork m y vy r))) ≡ 0) where
  -- From a tree with right parent pointers whose chunks grow from left to right, in which no kid is
  -- twice, and which is at the top or below a kid outside of it, on one side: behind
  -- kid_rotate_left(), with more fuel than the tree has kids, a search from the kid that is above
  -- finds for every chunk what a search found from `x` before.
  pub kid_find-kid_rotate_left :
      (fuel : ℕ)
      → IsBelow st par side x
      → Ordered (fork l x vx (fork m y vy r))
      → size (fork l x vx (fork m y vy r)) < fuel
      → (st' : List Kid) × (kid_rotate_left st root x ≡ ok (root_after par root y, st'))
        × ((c : ℕ) → kid_find fuel st' (some y) c ≡ kid_find fuel st (some x) c)
  kid_find-kid_rotate_left fuel below o f =
      let (st', ran, linked', order, hung, others, kept) =
        kid_rotate_left-IsLinked st root par side x y vx vy l m r linked once outside below in
      (
        st',
        ran,
        λ c.
            kid_find-in_order fuel st st' (some x) (some y) par par (fork l x vx (fork m y vy r))
              (fork (fork l x vx m) y vy r) c linked linked' o order f (omega arith),
      )

module _ (st : List Kid) (root par : Option ℕ) (side : Bool) (x y vx vy : ℕ) (l m r : Tree)
    (linked : IsLinked st par (some x) (fork (fork r y vy m) x vx l))
    (once : Once (fork (fork r y vy m) x vx l))
    (outside : (g : ℕ) → par ≡ some g → count g (places (fork (fork r y vy m) x vx l)) ≡ 0) where
  -- From a tree with right parent pointers whose chunks grow from left to right, in which no kid is
  -- twice, and which is at the top or below a kid outside of it, on one side: behind
  -- kid_rotate_right(), with more fuel than the tree has kids, a search from the kid that is above
  -- finds for every chunk what a search found from `x` before.
  pub kid_find-kid_rotate_right :
      (fuel : ℕ)
      → IsBelow st par side x
      → Ordered (fork (fork r y vy m) x vx l)
      → size (fork (fork r y vy m) x vx l) < fuel
      → (st' : List Kid) × (kid_rotate_right st root x ≡ ok (root_after par root y, st'))
        × ((c : ℕ) → kid_find fuel st' (some y) c ≡ kid_find fuel st (some x) c)
  kid_find-kid_rotate_right fuel below o f =
      let (st', ran, linked', order, hung, others, kept) =
        kid_rotate_right-IsLinked st root par side x y vx vy l m r linked once outside below in
      (
        st',
        ran,
        λ c.
            kid_find-in_order fuel st st' (some x) (some y) par par (fork (fork r y vy m) x vx l)
              (fork r y vy (fork m x vx l)) c linked linked' o order f (omega arith),
      )
