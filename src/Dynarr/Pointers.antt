-- ===== src/Dynarr/Pointers.antt =====
-- Registering pointers into the array, and what is left of them when it is freed.
pub mod Free
use mepl.Prelude.{
  ℕ, ◌≡◌, refl, sym, ap, ◌∙◌, subst, true, false, Option, none, some, List, [], ◌∷◌, ◌++◌, arith,
  ◌==◌, if◌then◌else◌, Bool-cases, inl, inr, get_elem?, get_elem?-append_left,
  get_elem?-append_self, lt_of_get, length, length-append, ok, ◌>>=◌,
}
use mepl.Free.Links.Circle.{mem, distinct, without, IsCircle}
use mepl.Free.Links.Changes.{list_rm-IsCircle, list_add_after-IsCircle}
use mepl.Free.Links.Fresh.{init_link}
use mepl.Dynarr.{Place, Darr, darr_add_ptr, darr_rm_ptr}
use mepl.Dynarr.Registered.{Reg, links_of, vars_of, Points}
use mepl.Dynarr.Grow.{IsDarr}

Points-append :
    (ptr : List ℕ) (vars : List (Option Place)) (a pp : ℕ) (rs : List Reg)
    → Points ptr vars a rs
    → Points (ptr ++ pp ∷ []) vars a rs
Points-append ptr vars a pp [] h = tt
Points-append ptr vars a pp (r ∷ rs) ((at, here), ps) = (
  (get_elem?-append_left ptr (pp ∷ []) r.link (lt_of_get ptr r.link at) ∙ at, here),
  Points-append ptr vars a pp rs ps,
)

-- The list without the link `p`.
abbrev pub without_link : ℕ → List Reg → List Reg
without_link p [] = []
without_link p (r ∷ rs) = if r.link == p then rs else r ∷ without_link p rs

links-without : (p : ℕ) (rs : List Reg) → links_of (without_link p rs) ≡ without p (links_of rs)
links-without p [] = refl
links-without p (r ∷ rs) = elim (Bool-cases (r.link == p)) [
  | inl same ↦ rw same
  | inr other ↦ rw other (ap (λ ls. r.link ∷ ls) (links-without p rs))
]

vars-without :
    (u p : ℕ) (rs : List Reg)
    → mem u (vars_of rs) ≡ false
    → mem u (vars_of (without_link p rs)) ≡ false
vars-without u p [] h = refl
vars-without u p (r ∷ rs) h = elim (Bool-cases (r.link == p)) [
  | inl same ↦ rw same (ground (arith, h))
  | inr other ↦
      let rest = vars-without u p rs (ground (arith, h)) in rw other (ground (arith, h, rest))
]

distinct-without_link :
    (p : ℕ) (rs : List Reg)
    → distinct (vars_of rs) ≡ true
    → distinct (vars_of (without_link p rs)) ≡ true
distinct-without_link p [] h = refl
distinct-without_link p (r ∷ rs) h = elim (Bool-cases (r.link == p)) [
  | inl same ↦ rw same (ground (arith, h))
  | inr other ↦
      let apart = vars-without r.var p rs (ground (arith, h)) in
      let rest = distinct-without_link p rs (ground (arith, h)) in
      rw other (ground (arith, apart, rest))
]

Points-without :
    (ptr : List ℕ) (vars : List (Option Place)) (a p : ℕ) (rs : List Reg)
    → Points ptr vars a rs
    → Points ptr vars a (without_link p rs)
Points-without ptr vars a p [] h = tt
Points-without ptr vars a p (r ∷ rs) (one, ps) = elim (Bool-cases (r.link == p)) [
  | inl same ↦ rw same ps
  | inr other ↦ rw other (one, Points-without ptr vars a p rs ps)
]

module _ {T : Type 0} (s : Darr T) (a : ℕ) (xs : List T) (rs : List Reg) where
  -- To an array and its registered pointers, with a pointer variable that points into the array and
  -- is not registered, darr_add_ptr() adds a link for this variable, where malloc() gives one.
  pub darr_add_ptr-IsDarr :
      (pp k : ℕ)
      → IsDarr s a xs rs
      → get_elem? s.vars pp ≡ some (some (record { base = a; offset = k }))
      → mem pp (vars_of rs) ≡ false
      → (s' : Darr T) × (darr_add_ptr true s pp ≡ ok (length s.links, s'))
        × IsDarr s' a xs (record { link = length s.links; var = pp; offset = k } ∷ rs)
  unfolding darr_add_ptr
  darr_add_ptr-IsDarr pp k (circle, d, ps, arr, here, len, l, sizes) at fresh =
      let (st, e, more, circle1, apart) =
        init_link s.links (links_of rs) (record { next = 0; prev = 0 }) circle in
      let (st', e', more', circle') =
        list_add_after-IsCircle st 0 (length s.links) (links_of rs) circle1 apart
          (omega (arith, more)) in
      let own =
        subst (λ n. get_elem? (s.ptr ++ pp ∷ []) n ≡ some pp) sizes
          (get_elem?-append_self s.ptr pp) in
      let longer = length-append s.ptr (pp ∷ []) in
      (
        record s { links = st'; ptr = s.ptr ++ pp ∷ [] },
        rw (e, ◌>>=◌, e'),
        (
          circle',
          ground (arith, d, fresh),
          ((own, at), Points-append s.ptr s.vars a pp rs ps),
          arr,
          here,
          len,
          l,
          omega (arith, longer, sizes, more, more'),
        ),
      )

  -- From an array and its registered pointers, darr_rm_ptr() takes out a link of the list, and
  -- clears the caller's pointer to it.
  pub darr_rm_ptr-IsDarr :
      (p : ℕ)
      → IsDarr s a xs rs
      → mem p (links_of rs) ≡ true
      → (s' : Darr T) × (darr_rm_ptr s p ≡ ok (none, s')) × IsDarr s' a xs (without_link p rs)
  unfolding darr_rm_ptr
  darr_rm_ptr-IsDarr p (circle, d, ps, arr, here, len, l, sizes) h =
      let (st, e, same, circle') = list_rm-IsCircle s.links 0 p (links_of rs) circle h in
      (
        record s { links = st },
        rw e,
        (
          subst (λ ls. IsCircle st 0 ls) (sym (links-without p rs)) circle',
          distinct-without_link p rs d,
          Points-without s.ptr s.vars a p rs ps,
          arr,
          here,
          len,
          l,
          sizes ∙ sym same,
        ),
      )
