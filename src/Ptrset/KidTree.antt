-- ===== src/Ptrset/KidTree.antt =====
-- The trees of kids of ideas/ptrset/bst_set.c: red-black trees with parent pointers. The kids are in
-- a store, and a pointer to one is its index, or `none` for NULL.
pub mod Find
pub mod Writes
pub mod Linked
pub mod Rotate
pub mod Search
use mepl.Prelude.{
  ℕ, zero, suc, Bool, true, false, Option, none, some, List, ltb, ◌==◌, if◌then◌else◌, get_elem?,
  set, Outcome, ok, spin, ◌>>=◌,
}
use mepl.Memory.{deref}

pub data Color : Type 0 where
  red black : Color

pub record Kid : Type 0 where
  pub edge : Option ℕ
  pub parent : Option ℕ
  pub left : Option ℕ
  pub right : Option ℕ
  pub v : ℕ
  pub color : Color

abbrev pub same_kid : Option ℕ → Option ℕ → Bool
same_kid none none = true
same_kid (some p) (some q) = p == q
same_kid _ _ = false

abbrev pub is_red : Color → Bool
is_red red = true
is_red black = false

-- `p->left = q`, and the like
unfoldable pub set_left : List Kid → ℕ → Option ℕ → Outcome (List Kid)
set_left st p q = do k ← deref (get_elem? st p); ok (set st p (record k { left = q }))

unfoldable pub set_right : List Kid → ℕ → Option ℕ → Outcome (List Kid)
set_right st p q = do k ← deref (get_elem? st p); ok (set st p (record k { right = q }))

unfoldable pub set_parent : List Kid → ℕ → Option ℕ → Outcome (List Kid)
set_parent st p q = do k ← deref (get_elem? st p); ok (set st p (record k { parent = q }))

unfoldable pub set_color : List Kid → ℕ → Color → Outcome (List Kid)
set_color st p c = do k ← deref (get_elem? st p); ok (set st p (record k { color = c }))

unfoldable pub kid_find : ℕ → List Kid → Option ℕ → ℕ → Outcome (Option ℕ)
kid_find zero st kp chunk = spin
kid_find (suc fuel) st none chunk = ok none
kid_find (suc fuel) st (some p) chunk = do
  k ← deref (get_elem? st p)
  if ltb chunk k.v
      then kid_find fuel st k.left chunk
      else (if ltb k.v chunk then kid_find fuel st k.right chunk else ok (some p))

-- `if (q) q->parent = p`
unfoldable pub set_parent_of : List Kid → Option ℕ → ℕ → Outcome (List Kid)
set_parent_of st none p = ok st
set_parent_of st (some q) p = set_parent st q (some p)

-- What points to `x`, which is below the kid that is the third argument or else the root, points to
-- `y`: the tests of kid_rotate_left() and of kid_rotate_right().
unfoldable pub hang_left : List Kid → Option ℕ → Option ℕ → ℕ → ℕ → Outcome (Option ℕ × List Kid)
hang_left st root none x y = ok (some y, st)
hang_left st root (some g) x y = do
  kg ← deref (get_elem? st g)
  st' ← if same_kid (some x) kg.left then set_left st g (some y) else set_right st g (some y)
  ok (root, st')

unfoldable pub hang_right : List Kid → Option ℕ → Option ℕ → ℕ → ℕ → Outcome (Option ℕ × List Kid)
hang_right st root none x y = ok (some y, st)
hang_right st root (some g) x y = do
  kg ← deref (get_elem? st g)
  st' ← if same_kid (some x) kg.right then set_right st g (some y) else set_left st g (some y)
  ok (root, st')

unfoldable pub kid_rotate_left : List Kid → Option ℕ → ℕ → Outcome (Option ℕ × List Kid)
kid_rotate_left st root x = do
  kx ← deref (get_elem? st x)
  y ← deref kx.right
  ky ← deref (get_elem? st y)
  st1 ← set_right st x ky.left
  st2 ← set_parent_of st1 ky.left x
  kx2 ← deref (get_elem? st2 x)
  st3 ← set_parent st2 y kx2.parent
  kx3 ← deref (get_elem? st3 x)
  (root', st4) ← hang_left st3 root kx3.parent x y
  st5 ← set_left st4 y (some x)
  st6 ← set_parent st5 x (some y)
  ok (root', st6)

unfoldable pub kid_rotate_right : List Kid → Option ℕ → ℕ → Outcome (Option ℕ × List Kid)
kid_rotate_right st root x = do
  kx ← deref (get_elem? st x)
  y ← deref kx.left
  ky ← deref (get_elem? st y)
  st1 ← set_left st x ky.right
  st2 ← set_parent_of st1 ky.right x
  kx2 ← deref (get_elem? st2 x)
  st3 ← set_parent st2 y kx2.parent
  kx3 ← deref (get_elem? st3 x)
  (root', st4) ← hang_right st3 root kx3.parent x y
  st5 ← set_right st4 y (some x)
  st6 ← set_parent st5 x (some y)
  ok (root', st6)

unfoldable pub is_red_kid : List Kid → Option ℕ → Outcome Bool
is_red_kid st none = ok false
is_red_kid st (some p) = do k ← deref (get_elem? st p); ok (is_red k.color)

-- Parent and uncle become black, the grandparent red, and the loop goes on there.
unfoldable pub recolor : List Kid → Option ℕ → ℕ → Option ℕ → ℕ → Outcome (Option ℕ × List Kid × ℕ)
recolor st root parent uncle gp = do
  u ← deref uncle
  st1 ← set_color st parent black
  st2 ← set_color st1 u black
  st3 ← set_color st2 gp red
  ok (root, st3, gp)

-- A round of the loop at `p`, where `parent` is the left kid of `gp`: the root and `p` behind it.
unfoldable pub fix_left : List Kid → Option ℕ → ℕ → ℕ → ℕ → Outcome (Option ℕ × List Kid × ℕ)
fix_left st root p parent gp = do
  kg ← deref (get_elem? st gp)
  uncle_red ← is_red_kid st kg.right
  if uncle_red then recolor st root parent kg.right gp else (do
    kp ← deref (get_elem? st parent)
    (root', st1, p') ←
        if same_kid (some p) kp.right
        then (do (r, st') ← kid_rotate_left st root parent; ok (r, st', parent))
        else ok (root, st, p)
    st2 ← set_color st1 parent black
    st3 ← set_color st2 gp red
    (root'', st4) ← kid_rotate_right st3 root' gp
    ok (root'', st4, p'))

unfoldable pub fix_right : List Kid → Option ℕ → ℕ → ℕ → ℕ → Outcome (Option ℕ × List Kid × ℕ)
fix_right st root p parent gp = do
  kg ← deref (get_elem? st gp)
  uncle_red ← is_red_kid st kg.left
  if uncle_red then recolor st root parent kg.left gp else (do
    kp ← deref (get_elem? st parent)
    (root', st1, p') ←
        if same_kid (some p) kp.left
        then (do (r, st') ← kid_rotate_right st root parent; ok (r, st', parent))
        else ok (root, st, p)
    st2 ← set_color st1 parent black
    st3 ← set_color st2 gp red
    (root'', st4) ← kid_rotate_left st3 root' gp
    ok (root'', st4, p'))

-- The condition of the loop, with what `p->parent` is where it holds.
unfoldable pub red_parent : List Kid → Option ℕ → ℕ → Outcome (Option ℕ)
red_parent st root p = if same_kid (some p) root then ok none else (do
  k ← deref (get_elem? st p)
  parent ← deref k.parent
  kp ← deref (get_elem? st parent)
  if is_red kp.color then ok (some parent) else ok none)

unfoldable pub fix_round : List Kid → Option ℕ → ℕ → ℕ → Outcome (Option ℕ × List Kid × ℕ)
fix_round st root p parent = do
  kp ← deref (get_elem? st parent)
  gp ← deref kp.parent
  kg ← deref (get_elem? st gp)
  if same_kid (some parent) kg.left
      then fix_left st root p parent gp
      else fix_right st root p parent gp

unfoldable pub kid_fix : ℕ → List Kid → Option ℕ → ℕ → Outcome (Option ℕ × List Kid)
kid_fix zero st root p = spin
kid_fix (suc fuel) st root p = do
  goes ← red_parent st root p
  elim goes [
    | none ↦ do r ← deref root; st' ← set_color st r black; ok (root, st')
    | some parent ↦ do (root', st', p') ← fix_round st root p parent; kid_fix fuel st' root' p'
  ]
