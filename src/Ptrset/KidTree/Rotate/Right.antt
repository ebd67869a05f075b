-- ===== src/Ptrset/KidTree/Rotate/Right.antt =====
-- The writes of kid_rotate_right().
use mepl.Prelude.{
  ◌+◌, ◌<◌, ◌==◌, ◌∷◌, subst, arith, one_if, count, ℕ, ◌≡◌, ◌≢◌, refl, sym, ap, ◌∙◌, Bool, Option,
  some, List, get_elem?, ok, ◌>>=◌,
}
use mathlib.Core.List.{append_assoc}
use mepl.Ptrset.KidTree.Find.{Tree, fork, in_order}
use mepl.Ptrset.KidTree.Rotate.{
  IsTurn, x_apart, y_apart, par_apart, x_not_y, middle_in, x_in, y_in, within, middle_within,
  x_not_middle, y_not_middle, not_middle, middle-Once, x_elsewhere, y_elsewhere, m_elsewhere,
}
use mepl.Ptrset.KidTree.Linked.{
  IsLinked, places, count-places, Once, root-of, IsLinked-IsKid, IsLinked-frame, IsLinked-moved,
}
use mepl.Ptrset.KidTree.{
  Kid, set_left, set_right, set_parent, set_parent_of, hang_right, kid_rotate_right,
}
use mepl.Ptrset.KidTree.Writes.{
  IsKid, IsKid-frame, IsBelow, IsBelow-frame, with_child, root_after, set_left-IsWritten, Keeps,
  Keeps-of, with_child-Keeps, IsKept, IsKept-cases, set_right-IsWritten, set_parent-IsWritten,
  set_parent_of-writes, hang_right-IsHung,
}

rotate_steps :
    (st st1 st2 st3 st4 st5 st6 : List Kid) (root root' : Option ℕ) (x y : ℕ) (kx ky : Kid)
    → get_elem? st x ≡ some kx
    → kx.left ≡ some y
    → get_elem? st y ≡ some ky
    → set_left st x ky.right ≡ ok st1
    → set_parent_of st1 ky.right x ≡ ok st2
    → get_elem? st2 x ≡ some (record kx { left = ky.right })
    → set_parent st2 y kx.parent ≡ ok st3
    → get_elem? st3 x ≡ some (record kx { left = ky.right })
    → hang_right st3 root kx.parent x y ≡ ok (root', st4)
    → set_right st4 y (some x) ≡ ok st5
    → set_parent st5 x (some y) ≡ ok st6
    → kid_rotate_right st root x ≡ ok (root', st6)
unfolding kid_rotate_right
rotate_steps st st1 st2 st3 st4 st5 st6 root root' x y kx ky hx e hy r1 r2 x2 r3 x3 r4 r5 r6 = rw (
  hx, ◌>>=◌, e, hy, ◌>>=◌, r1, ◌>>=◌, r2, ◌>>=◌, x2, ◌>>=◌, r3, ◌>>=◌, x3, ◌>>=◌, r4, ◌>>=◌, r5,
  ◌>>=◌, r6,
)

-- What the store has behind the rotation at `x`, whose left kid is `y`.
module _ (st : List Kid) (root : Option ℕ) (side : Bool) (x y : ℕ) (kx ky : Kid) where
  abbrev pub IsRotated : List Kid → Type 0
  IsRotated st' =
      (get_elem? st' x ≡ some (record kx { left = ky.right; parent = some y }))
      × (get_elem? st' y ≡ some (record ky { right = some x; parent = kx.parent }))
      × ((m : ℕ) (k : Kid)
          → ky.right ≡ some m
          → get_elem? st m ≡ some k
          → get_elem? st' m ≡ some (record k { parent = some x }))
      × ((g : ℕ) (k : Kid)
          → kx.parent ≡ some g
          → get_elem? st g ≡ some k
          → get_elem? st' g ≡ some (with_child side k (some y)))
      × ((u : ℕ)
          → u ≢ x
          → u ≢ y
          → ky.right ≢ some u
          → kx.parent ≢ some u
          → get_elem? st' u ≡ get_elem? st u)

  pub kid_rotate_right-IsRotated :
      get_elem? st x ≡ some kx
      → kx.left ≡ some y
      → get_elem? st y ≡ some ky
      → IsKid st ky.right
      → IsBelow st kx.parent side x
      → x ≢ y
      → ky.right ≢ some x
      → ky.right ≢ some y
      → kx.parent ≢ some x
      → kx.parent ≢ some y
      → ((g : ℕ) → kx.parent ≡ some g → ky.right ≢ some g)
      → (st' : List Kid) × (kid_rotate_right st root x ≡ ok (root_after kx.parent root y, st'))
        × IsRotated st'
  kid_rotate_right-IsRotated hx e hy middle below xy mx my px py pm =
      let yx : y ≢ x = λ s. xy (sym s) in
      let (st1, r1, (a1, o1)) = set_left-IsWritten st x kx hx ky.right in
      let middle1 = IsKid-frame st st1 ky.right (λ m s. o1 m (λ n. mx (s ∙ ap some n))) middle in
      let (st2, r2, s2, m2) = set_parent_of-writes st1 ky.right x middle1 in
      let (st3, r3, (a3, o3)) = set_parent-IsWritten st2 y ky (s2 y my ∙ o1 y yx ∙ hy) kx.parent in
      let x2 = s2 x mx ∙ a1 in
      let x3 = o3 x xy ∙ x2 in
      let below3 =
        IsBelow-frame st st3 kx.parent side x
          (λ g s. o3 g (λ n. py (s ∙ ap some n)) ∙ s2 g (pm g s) ∙ o1 g (λ n. px (s ∙ ap some n)))
          below in
      let (st4, r4, (s4, g4)) = hang_right-IsHung st3 root kx.parent side x y below3 in
      let (st5, r5, (a5, o5)) =
        set_right-IsWritten st4 y (record ky { parent = kx.parent }) (s4 y py ∙ a3) (some x) in
      let x5 = o5 x xy ∙ s4 x px ∙ x3 in
      let (st6, r6, (a6, o6)) =
        set_parent-IsWritten st5 x (record kx { left = ky.right }) x5 (some y) in
      (
        st6,
        rotate_steps st st1 st2 st3 st4 st5 st6 root (root_after kx.parent root y) x y kx ky hx e hy
            r1 r2 x2 r3 x3 r4 r5 r6,
        (
          a6,
          o6 y yx ∙ a5,
          (λ m k s h.
              let not_x : m ≢ x = λ n. mx (s ∙ ap some n) in
              let not_y : m ≢ y = λ n. my (s ∙ ap some n) in
              o6 m not_x
              ∙ o5 m not_y
              ∙ s4 m (λ p. pm m p s)
              ∙ o3 m not_y
              ∙ m2 m k s (o1 m not_x ∙ h)),
          (λ g k s h.
              let not_x : g ≢ x = λ n. px (s ∙ ap some n) in
              let not_y : g ≢ y = λ n. py (s ∙ ap some n) in
              o6 g not_x ∙ o5 g not_y ∙ g4 g k s (o3 g not_y ∙ s2 g (pm g s) ∙ o1 g not_x ∙ h)),
          (λ u not_x not_y not_m not_p.
              o6 u not_x ∙ o5 u not_y ∙ s4 u not_p ∙ o3 u not_y ∙ s2 u not_m ∙ o1 u not_x),
        ),
      )

  IsRotated-IsKept :
      (st' : List Kid)
      → get_elem? st x ≡ some kx
      → get_elem? st y ≡ some ky
      → IsRotated st'
      → IsKept st st'
  IsRotated-IsKept st' hx hy (at_x, at_y, at_m, at_g, others) =
      IsKept-cases st st' (some x) (some y) ky.right kx.parent
        (λ u k e at. Keeps-at x kx hx (_, at_x, refl, refl, refl) u k e at)
        (λ u k e at. Keeps-at y ky hy (_, at_y, refl, refl, refl) u k e at)
        (λ u k e at. (record k { parent = some x }, at_m u k e at, refl, refl, refl))
        (λ u k e at. with_child-Keeps st' side u k (some y) (at_g u k e at))
        (λ u nx ny nm np. others u (λ e. nx (ap some (sym e))) (λ e. ny (ap some (sym e))) nm np)
    where
      Keeps-at :
          (p : ℕ) (j : Kid)
          → get_elem? st p ≡ some j
          → Keeps st' p j
          → (u : ℕ) (k : Kid) → some p ≡ some u
          → get_elem? st u ≡ some k
          → Keeps st' u k
      Keeps-at p j here kept u k e at =
          let same : p ≡ u = cc in
          let moved = ap (λ n. get_elem? st n) same in
          subst (λ n. Keeps st' n k) same (Keeps-of st st' p j k here kept (moved ∙ at))

-- The rotation of a tree, in which `x` has the left kid `y`.
module _ (st : List Kid) (root par : Option ℕ) (side : Bool) (x y vx vy : ℕ) (l m r : Tree)
    (linked : IsLinked st par (some x) (fork (fork r y vy m) x vx l))
    (once : Once (fork (fork r y vy m) x vx l))
    (outside : (g : ℕ) → par ≡ some g → count g (places (fork (fork r y vy m) x vx l)) ≡ 0) where
  parts :
      (u : ℕ)
      → count u (places (fork (fork r y vy m) x vx l))
        ≡ count u (places l)
          + count u (places m)
          + count u (places r)
          + one_if (x == u)
          + one_if (y == u)
  parts u =
      let outer = count-places u (fork r y vy m) l x vx in
      let within = count-places u r m y vy in omega (arith, outer, within)

  turn : IsTurn par x y (fork (fork r y vy m) x vx l) l m r
  turn = record { parts = parts; once = once; outside = outside }

  -- From a tree with right parent pointers, in which no kid is twice, and which is at the top or below a
  -- kid outside of it, on one side: kid_rotate_right() makes the tree in which `y` is above `x`, with right
  -- parent pointers; it has the same kids in the same order. The kid above it gets `y` in the place of
  -- `x` and keeps all else, or `y` is the root; the other kids outside of the tree do not change. Every
  -- kid keeps its chunk, its edge and its color.
  pub kid_rotate_right-IsLinked :
      IsBelow st par side x
      → (st' : List Kid) × (kid_rotate_right st root x ≡ ok (root_after par root y, st'))
        × IsLinked st' par (some y) (fork r y vy (fork m x vx l))
        × (in_order (fork r y vy (fork m x vx l)) ≡ in_order (fork (fork r y vy m) x vx l))
        × ((g : ℕ) (k : Kid)
            → par ≡ some g
            → get_elem? st g ≡ some k
            → get_elem? st' g ≡ some (with_child side k (some y)))
        × ((u : ℕ)
            → count u (places (fork (fork r y vy m) x vx l)) ≡ 0
            → par ≢ some u
            → get_elem? st' u ≡ get_elem? st u)
        × IsKept st st'
  kid_rotate_right-IsLinked below =
      let (kx, hx, kvx, kpx, hleft, hl) = linked.1 in
      let e : kx.left ≡ some y = root-of st (some x) kx.left r m y vy hleft in
      let (ky, hy, kvy, kpy, hr, hm) =
        (subst (λ q. IsLinked st (some x) q (fork r y vy m)) e hleft).1 in
      let above : (u : ℕ)
          → 0 < count u (places (fork (fork r y vy m) x vx l))
          → kx.parent ≢ some u =
        λ u h s. par_apart turn u h (sym kpx ∙ s) in
      let (st', ran, (at_x, at_y, at_m, at_g, others)) =
        kid_rotate_right-IsRotated st root side x y kx ky hx e hy
          (IsLinked-IsKid st (some y) ky.right m hm)
          (subst (λ q. IsBelow st q side x) (sym kpx) below) (x_not_y turn)
          (x_not_middle turn st ky.right hm) (y_not_middle turn st ky.right hm)
          (above x (x_in turn)) (above y (y_in turn))
          (λ g p s.
            par_apart turn g (middle_within turn g (middle_in turn st ky.right g hm s))
              (sym kpx ∙ p)) in
      let same : (u : ℕ)
          → 0 < count u (places l) + count u (places m) + count u (places r)
          → ky.right ≢ some u
          → get_elem? st' u ≡ get_elem? st u =
        λ u h ne. others u (x_apart turn u h) (y_apart turn u h) ne (above u (within turn u h)) in
      let l_same =
        IsLinked-frame st st' (some x) kx.right l
          (λ u h. same u (omega (arith, h)) (not_middle turn st ky.right u hm (omega (arith, h))))
          hl in
      let r_same =
        IsLinked-frame st st' (some y) ky.left r
          (λ u h. same u (omega (arith, h)) (not_middle turn st ky.right u hm (omega (arith, h))))
          hr in
      let m_moved =
        IsLinked-moved st st' (some y) ky.right x m (middle-Once turn)
          (λ u h ne. same u (omega (arith, h)) ne) at_m hm in
      (
        st',
        subst (λ q. kid_rotate_right st root x ≡ ok (root_after q root y, st')) kpx ran,
        (
          refl,
          (
            record ky { right = some x; parent = kx.parent },
            at_y,
            kvy,
            kpx,
            r_same,
            (
              refl,
              (record kx { left = ky.right; parent = some y }, at_x, kvx, refl, m_moved, l_same),
            ),
          ),
        ),
        sym (
            append_assoc (in_order r) (record { chunk = vy; kid = y } ∷ in_order m)
              (record { chunk = vx; kid = x } ∷ in_order l)),
        (λ g k p. at_g g k (kpx ∙ p)),
        (λ u h p.
            others u (λ s. x_elsewhere turn u h s) (λ s. y_elsewhere turn u h s)
              (λ s. m_elsewhere turn st ky.right u hm h s) (λ s. p (sym kpx ∙ s))),
        IsRotated-IsKept st root side x y kx ky st' hx hy (at_x, at_y, at_m, at_g, others),
      )
