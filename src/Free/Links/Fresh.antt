-- ===== src/Free/Links/Fresh.antt =====
-- A new link, in no list, and one that is taken out of no list.
use mepl.Prelude.{
  ℕ, suc, ◌≤◌, ◌<◌, ◌≡◌, ◌≢◌, refl, ap, ◌∙◌, subst, true, false, none, some, List, [], ◌∷◌, ◌++◌,
  arith, length, length-append, get_elem?-append_left, ok, ◌>>=◌,
}
use mepl.Free.Links.{Link, list_init, list_rm}
use mepl.Free.Links.Store.{next_of, prev_of, set_next-next, set_prev-prev, list_rm-next}
use mepl.Free.Links.Circle.{mem, Within, IsCircle, Segment-frame, Within-mem}

pub Within-up : (n k : ℕ) (xs : List ℕ) → Within n xs → n ≤ k → Within k xs
Within-up n k [] h l = tt
Within-up n k (x ∷ xs) h l = (omega (arith, h.0), Within-up n k xs h.1 l)

pub Within-not_mem : (n : ℕ) (xs : List ℕ) → Within n xs → mem n xs ≡ false
Within-not_mem n [] h = refl
Within-not_mem n (x ∷ xs) h = let less = h.0 in ground (arith, less, Within-not_mem n xs h.1)

-- list_init() puts a link in a list of its own.
pub init-next :
    (st : List Link) (p : ℕ)
    → p < length st
    → (st' : List Link) × (list_init st p ≡ ok st')
      × (length st' ≡ length st)
      × (next_of st' p ≡ some p)
      × (prev_of st' p ≡ some p)
      × ((u : ℕ) → u ≢ p → next_of st' u ≡ next_of st u)
      × ((u : ℕ) → u ≢ p → prev_of st' u ≡ prev_of st u)
unfolding list_init
init-next st p h =
    let (st1, e1, len1, at1, next1, prev1) = set_next-next st p p h in
    let (st2, e2, len2, at2, prev2, next2) = set_prev-prev st1 p p (omega (arith, len1)) in
    (
      st2,
      rw (e1, ◌>>=◌) e2,
      len2 ∙ len1,
      next2 p ∙ at1,
      at2,
      λ u ne. next2 u ∙ next1 u ne,
      λ u ne. prev2 u ne ∙ prev1 u,
    )

-- A new link is put in a list of its own, and taken out of it; another list is left as it is.
pub new_link :
    (links : List Link) (xs : List ℕ) (l : Link) (p : ℕ)
    → length links ≡ p
    → IsCircle links 0 xs
    → (st2 : List Link) × (st3 : List Link) × (list_init (links ++ l ∷ []) p ≡ ok st2)
      × (length st2 ≡ suc p)
      × (list_rm st2 p ≡ ok st3)
      × (length st3 ≡ length st2)
      × IsCircle st3 0 xs
      × (mem p (0 ∷ xs) ≡ false)
new_link links xs l p size (h, ds, w) =
    let more : length (links ++ l ∷ []) ≡ suc p =
      omega (arith, length-append links (l ∷ []), size) in
    let (st2, e2, len2, n2, r2, ns2, rs2) = init-next (links ++ l ∷ []) p (omega (arith, more)) in
    let p_in : p < length st2 = omega (arith, len2, more) in
    let (st3, e3, len3, n3, ns3, r3, rs3) = list_rm-next st2 p p p n2 r2 p_in p_in p_in in
    (
      st2,
      st3,
      e2,
      len2 ∙ more,
      e3,
      len3,
      (
        Segment-frame links st3 0 xs 0
            (λ u m.
              let below = below_p u w m in
              ns3 u (other u below) ∙ ns2 u (other u below) ∙ old_next u below)
            (λ u m.
              let below = below_p u w m in
              rs3 u (other u below) ∙ rs2 u (other u below) ∙ old_prev u below)
            h,
        ds,
        Within-up (length links) (length st3) (0 ∷ xs) w (omega (arith, len3, len2, more, size)),
      ),
      subst (λ k. mem k (0 ∷ xs) ≡ false) size (Within-not_mem (length links) (0 ∷ xs) w),
    )
  where
    below_p : (u : ℕ) → Within (length links) (0 ∷ xs) → mem u (0 ∷ xs) ≡ true → u < p
    below_p u w m = omega (arith, Within-mem (length links) u (0 ∷ xs) w m, size)

    other : (u : ℕ) → u < p → u ≢ p
    other u l e = omega (arith, l, e)

    old_next : (u : ℕ) → u < p → next_of (links ++ l ∷ []) u ≡ next_of links u
    old_next u below =
        ap (λ o. elim o [ none ↦ none | some l ↦ some l.next ])
          (get_elem?-append_left links (l ∷ []) u (omega (arith, below, size)))

    old_prev : (u : ℕ) → u < p → prev_of (links ++ l ∷ []) u ≡ prev_of links u
    old_prev u below =
        ap (λ o. elim o [ none ↦ none | some l ↦ some l.prev ])
          (get_elem?-append_left links (l ∷ []) u (omega (arith, below, size)))

-- A new link is put in a list of its own, and another list is left as it is.
pub init_link :
    (links : List Link) (xs : List ℕ) (l : Link)
    → IsCircle links 0 xs
    → (st : List Link) × (list_init (links ++ l ∷ []) (length links) ≡ ok st)
      × (length st ≡ suc (length links))
      × IsCircle st 0 xs
      × (mem (length links) (0 ∷ xs) ≡ false)
init_link links xs l (h, ds, w) =
    let more : length (links ++ l ∷ []) ≡ suc (length links) =
      omega (arith, length-append links (l ∷ [])) in
    let (st, e, len, n, r, ns, rs) =
      init-next (links ++ l ∷ []) (length links) (omega (arith, more)) in
    (
      st,
      e,
      len ∙ more,
      (
        Segment-frame links st 0 xs 0
            (λ u m.
              let below = Within-mem (length links) u (0 ∷ xs) w m in
              ns u (other u below) ∙ old_next u below)
            (λ u m.
              let below = Within-mem (length links) u (0 ∷ xs) w m in
              rs u (other u below) ∙ old_prev u below)
            h,
        ds,
        Within-up (length links) (length st) (0 ∷ xs) w (omega (arith, len, more)),
      ),
      Within-not_mem (length links) (0 ∷ xs) w,
    )
  where
    other : (u : ℕ) → u < length links → u ≢ length links
    other u l e = omega (arith, l, e)

    old_next : (u : ℕ) → u < length links → next_of (links ++ l ∷ []) u ≡ next_of links u
    old_next u below =
        ap (λ o. elim o [ none ↦ none | some l ↦ some l.next ])
          (get_elem?-append_left links (l ∷ []) u below)

    old_prev : (u : ℕ) → u < length links → prev_of (links ++ l ∷ []) u ≡ prev_of links u
    old_prev u below =
        ap (λ o. elim o [ none ↦ none | some l ↦ some l.prev ])
          (get_elem?-append_left links (l ∷ []) u below)
