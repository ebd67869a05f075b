-- ===== src/Ptrset/KidTree/Rotate.antt =====
-- Rotations keep the kids of a tree in their order.
pub mod Left
pub mod Right
use mepl.Prelude.{
  ℕ, ◌+◌, ◌<◌, ◌≡◌, ◌≢◌, refl, sym, ap, ◌∙◌, subst, Option, some, List, arith, ◌==◌, one_if, count,
}
use mepl.Ptrset.KidTree.{Kid}
use mepl.Ptrset.KidTree.Find.{Tree}
use mepl.Ptrset.KidTree.Linked.{IsLinked, places, Once, root_in, self_count}

-- The tree `t` has the kids `x` and `y` and those of three trees, each once, and is below a kid that is
-- not in it, or at the top.
pub record IsTurn (par : Option ℕ) (x y : ℕ) (t l m r : Tree) : Type 0 where
  pub parts :
      (u : ℕ)
      → count u (places t)
        ≡ count u (places l)
          + count u (places m)
          + count u (places r)
          + one_if (x == u)
          + one_if (y == u)
  pub once : Once t
  pub outside : (g : ℕ) → par ≡ some g → count g (places t) ≡ 0

module _ {par : Option ℕ} {x y : ℕ} {t l m r : Tree} (turn : IsTurn par x y t l m r) where
  pub x_apart : (u : ℕ) → 0 < count u (places l) + count u (places m) + count u (places r) → u ≢ x
  x_apart u h s =
      let n = turn.parts u in
      let one = turn.once u in
      let own = ap (λ k. one_if (x == k)) s ∙ self_count x in omega (arith, n, one, own, h)

  pub y_apart : (u : ℕ) → 0 < count u (places l) + count u (places m) + count u (places r) → u ≢ y
  y_apart u h s =
      let n = turn.parts u in
      let one = turn.once u in
      let own = ap (λ k. one_if (y == k)) s ∙ self_count y in omega (arith, n, one, own, h)

  pub par_apart : (u : ℕ) → 0 < count u (places t) → par ≢ some u
  par_apart u h s = let none_here = turn.outside u s in omega (arith, h, none_here)

  pub x_not_y : x ≢ y
  x_not_y s =
      let n = turn.parts x in
      let one = turn.once x in
      let own = self_count x in
      let other = ap (λ k. one_if (k == x)) (sym s) ∙ self_count x in
      omega (arith, n, one, own, other)

  pub middle_in :
      (st : List Kid) (q : Option ℕ) (u : ℕ)
      → IsLinked st (some y) q m
      → q ≡ some u
      → 0 < count u (places m)
  middle_in st q u h s = root_in st (some y) u m (subst (λ k. IsLinked st (some y) k m) s h)

  pub x_in : 0 < count x (places t)
  x_in = let n = turn.parts x in let own = self_count x in omega (arith, n, own)

  pub y_in : 0 < count y (places t)
  y_in = let n = turn.parts y in let own = self_count y in omega (arith, n, own)

  pub within :
      (u : ℕ)
      → 0 < count u (places l) + count u (places m) + count u (places r)
      → 0 < count u (places t)
  within u h = let n = turn.parts u in omega (arith, n, h)

  pub middle_within : (u : ℕ) → 0 < count u (places m) → 0 < count u (places t)
  middle_within u h = within u (omega (arith, h))

  pub x_not_middle : (st : List Kid) (q : Option ℕ) → IsLinked st (some y) q m → q ≢ some x
  x_not_middle st q h s = let h_in = middle_in st q x h s in x_apart x (omega (arith, h_in)) refl

  pub y_not_middle : (st : List Kid) (q : Option ℕ) → IsLinked st (some y) q m → q ≢ some y
  y_not_middle st q h s = let h_in = middle_in st q y h s in y_apart y (omega (arith, h_in)) refl

  pub not_middle :
      (st : List Kid) (q : Option ℕ) (u : ℕ)
      → IsLinked st (some y) q m
      → 0 < count u (places l) + count u (places r)
      → q ≢ some u
  not_middle st q u h out s =
      let h_in = middle_in st q u h s in
      let n = turn.parts u in let one = turn.once u in omega (arith, h_in, n, one, out)

  pub middle-Once : Once m
  middle-Once u = let n = turn.parts u in let one = turn.once u in omega (arith, n, one)

  pub x_elsewhere : (u : ℕ) → count u (places t) ≡ 0 → u ≢ x
  x_elsewhere u h s =
      let own = x_in in let here = ap (λ k. count k (places t)) s in omega (arith, own, here, h)

  pub y_elsewhere : (u : ℕ) → count u (places t) ≡ 0 → u ≢ y
  y_elsewhere u h s =
      let own = y_in in let here = ap (λ k. count k (places t)) s in omega (arith, own, here, h)

  pub m_elsewhere :
      (st : List Kid) (q : Option ℕ) (u : ℕ)
      → IsLinked st (some y) q m
      → count u (places t) ≡ 0
      → q ≢ some u
  m_elsewhere st q u h none_here s =
      let h_in = middle_within u (middle_in st q u h s) in omega (arith, h_in, none_here)
