-- ===== src/Tests/Circles.antt =====
-- The circular lists of ideas/free, with two links behind the head 0.
use mepl.Prelude.{ℕ, refl, List, [], ◌∷◌, arith}
use mepl.Free.Links.{Link}
use mepl.Free.Links.Circle.{IsCircle}

abbrev link_to : ℕ → ℕ → Link
link_to n p = record { next = n; prev = p }

abbrev store : List Link
store = link_to 2 1 ∷ link_to 0 2 ∷ link_to 1 0 ∷ link_to 3 3 ∷ []

store-IsCircle : IsCircle store 0 (2 ∷ 1 ∷ [])
store-IsCircle = (
  ((refl, refl), ((refl, refl), (refl, refl))),
  refl,
  (omega arith, (omega arith, (omega arith, tt))),
)
