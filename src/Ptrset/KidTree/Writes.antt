-- ===== src/Ptrset/KidTree/Writes.antt =====
-- What a write to a kid leaves in the store.
use mepl.Prelude.{
  ◌⊎◌, subst, ℕ, ◌≡◌, ◌≢◌, refl, sym, ap, ◌∙◌, Bool, true, false, Option, none, some, List, arith,
  ◌==◌, ==_iff, not, Bool-cases, inl, inr, get_elem?, set, get_elem?-set_self, get_elem?-set_ne,
  lt_of_get, ok, ◌>>=◌,
}
use mepl.Ptrset.KidTree.{
  Kid, same_kid, set_left, set_right, set_parent, set_parent_of, hang_left, hang_right,
}

-- The kid `p` is `k`, and the others are as they were.
abbrev pub IsWritten : List Kid → List Kid → ℕ → Kid → Type 0
IsWritten st st' p k =
    (get_elem? st' p ≡ some k) × ((u : ℕ) → u ≢ p → get_elem? st' u ≡ get_elem? st u)

module _ (st : List Kid) (p : ℕ) (k : Kid) (here : get_elem? st p ≡ some k) where
  set-IsWritten : (k' : Kid) → IsWritten st (set st p k') p k'
  set-IsWritten k' = (
    get_elem?-set_self st p k' (lt_of_get st p here),
    λ u ne. get_elem?-set_ne st k' (λ e. ne (sym e)),
  )

  pub set_left-IsWritten :
      (q : Option ℕ)
      → (st' : List Kid) × (set_left st p q ≡ ok st') × IsWritten st st' p (record k { left = q })
  unfolding set_left
  set_left-IsWritten q =
      (set st p (record k { left = q }), rw here, set-IsWritten (record k { left = q }))

  pub set_right-IsWritten :
      (q : Option ℕ)
      → (st' : List Kid) × (set_right st p q ≡ ok st') × IsWritten st st' p (record k { right = q })
  unfolding set_right
  set_right-IsWritten q =
      (set st p (record k { right = q }), rw here, set-IsWritten (record k { right = q }))

  pub set_parent-IsWritten :
      (q : Option ℕ)
      → (st' : List Kid) × (set_parent st p q ≡ ok st')
        × IsWritten st st' p (record k { parent = q })
  unfolding set_parent
  set_parent-IsWritten q =
      (set st p (record k { parent = q }), rw here, set-IsWritten (record k { parent = q }))

-- A pointer that is NULL, or to a kid of the store.
abbrev pub IsKid : List Kid → Option ℕ → Type 0
IsKid st none = Unit
IsKid st (some q) = (k : Kid) × (get_elem? st q ≡ some k)

pub IsKid-frame :
    (st st' : List Kid) (q : Option ℕ)
    → ((u : ℕ) → q ≡ some u → get_elem? st' u ≡ get_elem? st u)
    → IsKid st q
    → IsKid st' q
IsKid-frame st st' none same h = tt
IsKid-frame st st' (some q) same (k, at) = (k, same q refl ∙ at)

pub set_parent_of-writes :
    (st : List Kid) (q : Option ℕ) (p : ℕ)
    → IsKid st q
    → (st' : List Kid) × (set_parent_of st q p ≡ ok st')
      × ((u : ℕ) → q ≢ some u → get_elem? st' u ≡ get_elem? st u)
      × ((u : ℕ) (k : Kid)
          → q ≡ some u
          → get_elem? st u ≡ some k
          → get_elem? st' u ≡ some (record k { parent = some p }))
unfolding set_parent_of
set_parent_of-writes st none p h = (st, refl, (λ u ne. refl), (λ u k e at. cc))
set_parent_of-writes st (some q) p (k, here) =
    let (st', ran, (at_q, others)) = set_parent-IsWritten st q k here (some p) in
    (
      st',
      ran,
      (λ u ne. others u (λ e. ne (ap some (sym e)))),
      λ u k' e at. written st' u k' e at at_q,
    )
  where
    written :
        (st' : List Kid) (u : ℕ) (k' : Kid)
        → some q ≡ some u
        → get_elem? st u ≡ some k'
        → get_elem? st' q ≡ some (record k { parent = some p })
        → get_elem? st' u ≡ some (record k' { parent = some p })
    written st' u k' e at at_q =
        let same : q ≡ u = cc in
        let moved = ap (λ n. get_elem? st n) same in
        let same_k : k ≡ k' = cc in
        ap (λ n. get_elem? st' n) (sym same)
        ∙ at_q
        ∙ ap {A = Kid} (λ j. some (record j { parent = some p })) same_k

-- The left kid, for `true`, or the right one.
abbrev pub child : Bool → Kid → Option ℕ
child true k = k.left
child false k = k.right

abbrev pub with_child : Bool → Kid → Option ℕ → Kid
with_child true k q = record k { left = q }
with_child false k q = record k { right = q }

-- The kid above, if there is one, has `x` on this side, and not on the other.
abbrev pub IsBelow : List Kid → Option ℕ → Bool → ℕ → Type 0
IsBelow st none side x = Unit
IsBelow st (some g) side x =
    (k : Kid) × (get_elem? st g ≡ some k) × (child side k ≡ some x) × (child (not side) k ≢ some x)

pub IsBelow-frame :
    (st st' : List Kid) (par : Option ℕ) (side : Bool) (x : ℕ)
    → ((g : ℕ) → par ≡ some g → get_elem? st' g ≡ get_elem? st g)
    → IsBelow st par side x
    → IsBelow st' par side x
IsBelow-frame st st' none side x same h = tt
IsBelow-frame st st' (some g) side x same (k, at, e, ne) = (k, same g refl ∙ at, e, ne)

-- The root of a tree in which `y` takes a place below the kid, or at the top.
abbrev pub root_after : Option ℕ → Option ℕ → ℕ → Option ℕ
root_after none root y = some y
root_after (some g) root y = root

same_kid_self : (x : ℕ) (q : Option ℕ) → q ≡ some x → same_kid (some x) q ≡ true
same_kid_self x none e = cc
same_kid_self x (some q) e = let same : q ≡ x = cc in ground (arith, same)

same_kid-other : (x : ℕ) (q : Option ℕ) → q ≢ some x → same_kid (some x) q ≡ false
same_kid-other x none ne = refl
same_kid-other x (some q) ne = elim (Bool-cases (x == q)) [
  | inl same ↦ absurd (ne (ap some (sym ((==_iff x q).0 same))))
  | inr other ↦ other
]

-- That `x` is replaced by `y` below the kid `g`.
module _ (st : List Kid) (root : Option ℕ) (g x y : ℕ) (k : Kid)
    (here : get_elem? st g ≡ some k) where
  hang_left-at :
      (side : Bool)
      → child side k ≡ some x
      → child (not side) k ≢ some x
      → (st' : List Kid) × (hang_left st root (some g) x y ≡ ok (root, st'))
        × IsWritten st st' g (with_child side k (some y))
  unfolding hang_left
  hang_left-at true e ne =
      let (st', ran, wrote) = set_left-IsWritten st g k here (some y) in
      (st', rw (here, ◌>>=◌, same_kid_self x k.left e, ran), wrote)
  hang_left-at false e ne =
      let (st', ran, wrote) = set_right-IsWritten st g k here (some y) in
      (st', rw (here, ◌>>=◌, same_kid-other x k.left ne, ran), wrote)

  hang_right-at :
      (side : Bool)
      → child side k ≡ some x
      → child (not side) k ≢ some x
      → (st' : List Kid) × (hang_right st root (some g) x y ≡ ok (root, st'))
        × IsWritten st st' g (with_child side k (some y))
  unfolding hang_right
  hang_right-at false e ne =
      let (st', ran, wrote) = set_right-IsWritten st g k here (some y) in
      (st', rw (here, ◌>>=◌, same_kid_self x k.right e, ran), wrote)
  hang_right-at true e ne =
      let (st', ran, wrote) = set_left-IsWritten st g k here (some y) in
      (st', rw (here, ◌>>=◌, same_kid-other x k.right ne, ran), wrote)

-- What hanging `y` in the place of `x` leaves in the store.
abbrev pub IsHung : List Kid → List Kid → Option ℕ → Bool → ℕ → Type 0
IsHung st st' par side y =
    ((u : ℕ) → par ≢ some u → get_elem? st' u ≡ get_elem? st u)
    × ((g : ℕ) (k : Kid)
        → par ≡ some g
        → get_elem? st g ≡ some k
        → get_elem? st' g ≡ some (with_child side k (some y)))

IsWritten-IsHung :
    (st st' : List Kid) (g : ℕ) (side : Bool) (y : ℕ) (k : Kid)
    → get_elem? st g ≡ some k
    → IsWritten st st' g (with_child side k (some y))
    → IsHung st st' (some g) side y
IsWritten-IsHung st st' g side y k here (at, others) = (
  (λ u ne. others u (λ e. ne (ap some (sym e)))),
  λ h j e at_h.
      let same : g ≡ h = cc in
      let moved = ap (λ n. get_elem? st n) same in
      let same_k : k ≡ j = cc in
      ap (λ n. get_elem? st' n) (sym same)
      ∙ at
      ∙ ap {A = Kid} (λ i. some (with_child side i (some y))) same_k,
)

pub hang_left-IsHung :
    (st : List Kid) (root par : Option ℕ) (side : Bool) (x y : ℕ)
    → IsBelow st par side x
    → (st' : List Kid) × (hang_left st root par x y ≡ ok (root_after par root y, st'))
      × IsHung st st' par side y
unfolding hang_left
hang_left-IsHung st root none side x y h = (st, refl, ((λ u ne. refl), (λ g k e at. cc)))
hang_left-IsHung st root (some g) side x y (k, here, e, ne) =
    let (st', ran, wrote) = hang_left-at st root g x y k here side e ne in
    (st', ran, IsWritten-IsHung st st' g side y k here wrote)

pub hang_right-IsHung :
    (st : List Kid) (root par : Option ℕ) (side : Bool) (x y : ℕ)
    → IsBelow st par side x
    → (st' : List Kid) × (hang_right st root par x y ≡ ok (root_after par root y, st'))
      × IsHung st st' par side y
unfolding hang_right
hang_right-IsHung st root none side x y h = (st, refl, ((λ u ne. refl), (λ g k e at. cc)))
hang_right-IsHung st root (some g) side x y (k, here, e, ne) =
    let (st', ran, wrote) = hang_right-at st root g x y k here side e ne in
    (st', ran, IsWritten-IsHung st st' g side y k here wrote)

-- A kid of the other store has the chunk, the edge and the color of `k`.
abbrev pub Keeps : List Kid → ℕ → Kid → Type 0
Keeps st u k =
    (k' : Kid) × (get_elem? st u ≡ some k')
    × (k'.v ≡ k.v)
    × (k'.edge ≡ k.edge)
    × (k'.color ≡ k.color)

pub Keeps-of :
    (st st' : List Kid) (u : ℕ) (j k : Kid)
    → get_elem? st u ≡ some j
    → Keeps st' u j
    → get_elem? st u ≡ some k
    → Keeps st' u k
Keeps-of st st' u j k at kept e = let same : j ≡ k = cc in subst (λ i. Keeps st' u i) same kept

pub with_child-Keeps :
    (st : List Kid) (side : Bool) (g : ℕ) (k : Kid) (q : Option ℕ)
    → get_elem? st g ≡ some (with_child side k q)
    → Keeps st g k
with_child-Keeps st true g k q at = (with_child true k q, at, refl, refl, refl)
with_child-Keeps st false g k q at = (with_child false k q, at, refl, refl, refl)

-- Every kid keeps its chunk, its edge and its color.
abbrev pub IsKept : List Kid → List Kid → Type 0
IsKept st st' = (u : ℕ) (k : Kid) → get_elem? st u ≡ some k → Keeps st' u k

points_at : (q : Option ℕ) (u : ℕ) → (q ≡ some u) ⊎ (q ≢ some u)
points_at none u = inr (λ e. cc)
points_at (some p) u = elim (Bool-cases (p == u)) [
  | inl same ↦ inl (ap some ((==_iff p u).0 same))
  | inr other ↦ inr (λ e. let same : p ≡ u = cc in ground (arith, other, same))
]

-- By the kid that is written.
pub IsKept-cases :
    (st st' : List Kid) (p q r s : Option ℕ)
    → ((u : ℕ) (k : Kid) → p ≡ some u → get_elem? st u ≡ some k → Keeps st' u k)
    → ((u : ℕ) (k : Kid) → q ≡ some u → get_elem? st u ≡ some k → Keeps st' u k)
    → ((u : ℕ) (k : Kid) → r ≡ some u → get_elem? st u ≡ some k → Keeps st' u k)
    → ((u : ℕ) (k : Kid) → s ≡ some u → get_elem? st u ≡ some k → Keeps st' u k)
    → ((u : ℕ)
        → p ≢ some u
        → q ≢ some u
        → r ≢ some u
        → s ≢ some u
        → get_elem? st' u ≡ get_elem? st u)
    → IsKept st st'
IsKept-cases st st' p q r s hp hq hr hs others u k at = elim (points_at p u) [
  | inl e ↦ hp u k e at
  | inr np ↦ elim (points_at q u) [
    | inl e ↦ hq u k e at
    | inr nq ↦ elim (points_at r u) [
      | inl e ↦ hr u k e at
      | inr nr ↦ elim (points_at s u) [
        | inl e ↦ hs u k e at
        | inr ns ↦ (k, others u np nq nr ns ∙ at, refl, refl, refl)
      ]
    ]
  ]
]
