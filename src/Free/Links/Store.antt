-- ===== src/Free/Links/Store.antt =====
-- What the operations write to the links.
use mepl.Prelude.{
  ℕ, zero, suc, ◌<◌, ◌≡◌, ◌≢◌, refl, sym, ap, ◌∙◌, subst, ==_iff, Option, none, some, List, [], ◌∷◌,
  arith, ◌==◌, Bool-cases, inl, inr, length, get_elem?, set, length-set, get_elem?-set_self,
  get_elem?-set_ne, ok, ◌>>=◌,
}
use mepl.Free.Links.{Link, set_next, set_prev, list_rm, list_add_after}

abbrev pub next_of : List Link → ℕ → Option ℕ
next_of st p = elim (get_elem? st p) [ none ↦ none | some l ↦ some l.next ]

abbrev pub prev_of : List Link → ℕ → Option ℕ
prev_of st p = elim (get_elem? st p) [ none ↦ none | some l ↦ some l.prev ]

pub link_at : (st : List Link) (p : ℕ) → p < length st → (l : Link) × (get_elem? st p ≡ some l)
link_at [] p h = absurd (omega arith)
link_at (l ∷ st) zero h = (l, refl)
link_at (l ∷ st) (suc p) h = link_at st p (omega arith)

module _ (st : List Link) (p : ℕ) (l : Link) where
  pub get-next : get_elem? st p ≡ some l → next_of st p ≡ some l.next
  get-next e = ap (λ o. elim o [ none ↦ none | some l ↦ some l.next ]) e

  pub get-prev : get_elem? st p ≡ some l → prev_of st p ≡ some l.prev
  get-prev e = ap (λ o. elim o [ none ↦ none | some l ↦ some l.prev ]) e

module _ (st : List Link) (p v : ℕ) (inside : p < length st) where
  pub set_next-next :
      (st' : List Link) × (set_next st p v ≡ ok st')
      × (length st' ≡ length st)
      × (next_of st' p ≡ some v)
      × ((u : ℕ) → u ≢ p → next_of st' u ≡ next_of st u)
      × ((u : ℕ) → prev_of st' u ≡ prev_of st u)
  unfolding set_next
  set_next-next =
      let (l, here) = link_at st p inside in
      let l' : Link = record l { next = v } in
      let st' = set st p l' in
      let at : get_elem? st' p ≡ some l' = get_elem?-set_self st p l' inside in
      (
        st',
        rw here,
        length-set st p l',
        get-next st' p l' at,
        λ u ne. other u l' ne,
        λ u. elim (Bool-cases (p == u)) [
          | inl same ↦
              subst (λ q. prev_of st' q ≡ prev_of st q) ((==_iff p u).0 same)
                (get-prev st' p l' at ∙ sym (get-prev st p l here))
          | inr ne ↦
              ap (λ o. elim o [ none ↦ none | some l ↦ some l.prev ])
                (get_elem?-set_ne st l' (λ e. ground (arith, ne, e)))
        ],
      )
    where
      other : (u : ℕ) (l : Link) → u ≢ p → next_of (set st p l) u ≡ next_of st u
      other u l ne =
          ap (λ o. elim o [ none ↦ none | some l ↦ some l.next ])
            (get_elem?-set_ne st l (λ e. ne (sym e)))

  pub set_prev-prev :
      (st' : List Link) × (set_prev st p v ≡ ok st')
      × (length st' ≡ length st)
      × (prev_of st' p ≡ some v)
      × ((u : ℕ) → u ≢ p → prev_of st' u ≡ prev_of st u)
      × ((u : ℕ) → next_of st' u ≡ next_of st u)
  unfolding set_prev
  set_prev-prev =
      let (l, here) = link_at st p inside in
      let l' : Link = record l { prev = v } in
      let st' = set st p l' in
      let at : get_elem? st' p ≡ some l' = get_elem?-set_self st p l' inside in
      (
        st',
        rw here,
        length-set st p l',
        get-prev st' p l' at,
        λ u ne. other u l' ne,
        λ u. elim (Bool-cases (p == u)) [
          | inl same ↦
              subst (λ q. next_of st' q ≡ next_of st q) ((==_iff p u).0 same)
                (get-next st' p l' at ∙ sym (get-next st p l here))
          | inr ne ↦
              ap (λ o. elim o [ none ↦ none | some l ↦ some l.next ])
                (get_elem?-set_ne st l' (λ e. ground (arith, ne, e)))
        ],
      )
    where
      other : (u : ℕ) (l : Link) → u ≢ p → prev_of (set st p l) u ≡ prev_of st u
      other u l ne =
          ap (λ o. elim o [ none ↦ none | some l ↦ some l.prev ])
            (get_elem?-set_ne st l (λ e. ne (sym e)))

inner : {A : Type 0} {a b : A} → some a ≡ some b → a ≡ b
inner e = cc

rm_steps :
    (st : List Link) (p a c : ℕ) {l : Link} {st1 st2 : List Link}
    → get_elem? st p ≡ some l
    → l.next ≡ c
    → l.prev ≡ a
    → set_prev st c a ≡ ok st1
    → set_next st1 a c ≡ ok st2
    → list_rm st p ≡ ok st2
unfolding list_rm
rm_steps st p a c here next_c prev_a e1 e2 = rw (here, ◌>>=◌, next_c, prev_a, e1, ◌>>=◌) e2

add_steps :
    (st : List Link) (b p c : ℕ) {l : Link} {st1 st2 st3 st4 : List Link}
    → get_elem? st b ≡ some l
    → l.next ≡ c
    → set_next st p c ≡ ok st1
    → set_prev st1 p b ≡ ok st2
    → set_next st2 b p ≡ ok st3
    → set_prev st3 c p ≡ ok st4
    → list_add_after st b p ≡ ok st4
unfolding list_add_after
add_steps st b p c here next_c e1 e2 e3 e4 =
    rw (here, ◌>>=◌, next_c, e1, ◌>>=◌, e2, ◌>>=◌, e3, ◌>>=◌) e4

-- list_rm() makes the neighbours `a` and `c` of a link each other's.
pub list_rm-next :
    (st : List Link) (p a c : ℕ)
    → next_of st p ≡ some c
    → prev_of st p ≡ some a
    → p < length st
    → a < length st
    → c < length st
    → (st' : List Link) × (list_rm st p ≡ ok st')
      × (length st' ≡ length st)
      × (next_of st' a ≡ some c)
      × ((u : ℕ) → u ≢ a → next_of st' u ≡ next_of st u)
      × (prev_of st' c ≡ some a)
      × ((u : ℕ) → u ≢ c → prev_of st' u ≡ prev_of st u)
list_rm-next st p a c n r p_in a_in c_in =
    let (l, here) = link_at st p p_in in
    let next_c : l.next ≡ c = inner (sym (get-next st p l here) ∙ n) in
    let prev_a : l.prev ≡ a = inner (sym (get-prev st p l here) ∙ r) in
    let (st1, e1, len1, at1, prev1, next1) = set_prev-prev st c a c_in in
    let (st2, e2, len2, at2, next2, prev2) = set_next-next st1 a c (omega (arith, len1)) in
    (
      st2,
      rm_steps st p a c here next_c prev_a e1 e2,
      len2 ∙ len1,
      at2,
      λ u ne. next2 u ne ∙ next1 u,
      prev2 c ∙ at1,
      λ u ne. prev2 u ∙ prev1 u ne,
    )

-- list_add_after() puts the link `p` between `b` and the one behind, `c`.
pub list_add_after-next :
    (st : List Link) (b p c : ℕ)
    → next_of st b ≡ some c
    → p ≢ b
    → p ≢ c
    → p < length st
    → b < length st
    → c < length st
    → (st' : List Link) × (list_add_after st b p ≡ ok st')
      × (length st' ≡ length st)
      × (next_of st' b ≡ some p)
      × (next_of st' p ≡ some c)
      × ((u : ℕ) → u ≢ b → u ≢ p → next_of st' u ≡ next_of st u)
      × (prev_of st' c ≡ some p)
      × (prev_of st' p ≡ some b)
      × ((u : ℕ) → u ≢ c → u ≢ p → prev_of st' u ≡ prev_of st u)
list_add_after-next st b p c n pb pc p_in b_in c_in =
    let (l, here) = link_at st b b_in in
    let next_c : l.next ≡ c = inner (sym (get-next st b l here) ∙ n) in
    let (st1, e1, len1, at1, next1, prev1) = set_next-next st p c p_in in
    let (st2, e2, len2, at2, prev2, next2) = set_prev-prev st1 p b (omega (arith, len1)) in
    let (st3, e3, len3, at3, next3, prev3) = set_next-next st2 b p (omega (arith, len1, len2)) in
    let (st4, e4, len4, at4, prev4, next4) =
      set_prev-prev st3 c p (omega (arith, len1, len2, len3)) in
    (
      st4,
      add_steps st b p c here next_c e1 e2 e3 e4,
      len4 ∙ len3 ∙ len2 ∙ len1,
      next4 b ∙ at3,
      next4 p ∙ next3 p pb ∙ next2 p ∙ at1,
      λ u ub up. next4 u ∙ next3 u ub ∙ next2 u ∙ next1 u up,
      at4,
      prev4 p pc ∙ prev3 p ∙ at2,
      λ u uc up. prev4 u uc ∙ prev3 u ∙ prev2 u up ∙ prev1 u,
    )
