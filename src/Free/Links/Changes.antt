-- ===== src/Free/Links/Changes.antt =====
-- Taking a link out of a circular list, and putting one in.
use mepl.Prelude.{
  ==_iff, ℕ, ◌<◌, ◌≡◌, ◌≢◌, refl, sym, ap, ◌∙◌, subst, true, false, some, List, [], ◌∷◌, arith,
  ◌==◌, Bool-cases, inl, inr, length, ok,
}
use mepl.Free.Links.{Link, list_rm, list_add_after}
use mepl.Free.Links.Store.{next_of, prev_of, list_rm-next, list_add_after-next}
use mepl.Free.Links.Circle.{
  mem, distinct, Within, without, Segment, IsCircle, Within-mem, not_mem, around, first_behind,
  Segment-frame, inner, head_apart, left_out,
}

pub mem-without : (u p : ℕ) (xs : List ℕ) → mem u xs ≡ false → mem u (without p xs) ≡ false
mem-without u p [] h = refl
mem-without u p (x ∷ xs) h = elim (Bool-cases (x == p)) [
  | inl here ↦ rw here (ground (arith, h))
  | inr other ↦ rw other (ground (arith, h, mem-without u p xs (ground (arith, h))))
]

pub mem-without_self : (p : ℕ) (xs : List ℕ) → distinct xs ≡ true → mem p (without p xs) ≡ false
mem-without_self p [] h = refl
mem-without_self p (x ∷ xs) h = elim (Bool-cases (x == p)) [
  | inl here ↦
      let at : x ≡ p = (==_iff x p).0 here in
      rw here (subst (λ u. mem u xs ≡ false) at (head_apart x xs h))
  | inr other ↦ rw other (ground (arith, other, mem-without_self p xs (ground (arith, h))))
]

distinct-without : (p : ℕ) (xs : List ℕ) → distinct xs ≡ true → distinct (without p xs) ≡ true
distinct-without p [] h = refl
distinct-without p (x ∷ xs) h = elim (Bool-cases (x == p)) [
  | inl here ↦ rw here (ground (arith, h))
  | inr other ↦
      let apart = mem-without x p xs (head_apart x xs h) in
      let rest = distinct-without p xs (ground (arith, h)) in rw other (ground (arith, apart, rest))
]

Within-without : (n p : ℕ) (xs : List ℕ) → Within n xs → Within n (without p xs)
Within-without n p [] h = tt
Within-without n p (x ∷ xs) h = elim (Bool-cases (x == p)) [
  | inl here ↦ rw here h.1
  | inr other ↦ rw other (h.0, Within-without n p xs h.1)
]

-- On a circular list with the head `b` that has the link `p`, list_rm() of `p` succeeds, and the
-- list has the other links, in the same order.
pub list_rm-IsCircle :
    (st : List Link) (b p : ℕ) (xs : List ℕ)
    → IsCircle st b xs
    → mem p xs ≡ true
    → (st' : List Link) × (list_rm st p ≡ ok st')
      × (length st' ≡ length st)
      × IsCircle st' b (without p xs)
list_rm-IsCircle st b p xs (h, ds, (b_in, xs_in)) e =
    let (a, c, r, n, am, cm) = around st b p xs b h e in
    let all_in : Within (length st) (b ∷ xs) = (b_in, xs_in) in
    let p_in = Within-mem (length st) p xs xs_in e in
    let a_in = Within-mem (length st) a (b ∷ xs) all_in am in
    let c_in = Within-mem (length st) c (b ∷ xs) all_in cm in
    let apart = head_apart b xs ds in
    let (st', ran, len, na, ns, pc, ps) = list_rm-next st p a c n r p_in a_in c_in in
    let rest = distinct-without p xs (tail b xs ds) in
    let others = mem-without b p xs apart in
    (
      st',
      ran,
      len,
      (
        left_out st st' a c p b r n na ns pc ps b xs h e ds apart,
        ground (arith, rest, others),
        subst (λ k. Within k (b ∷ without p xs)) (sym len)
            (b_in, Within-without (length st) p xs xs_in),
      ),
    )
  where
    tail : (b : ℕ) (xs : List ℕ) → distinct (b ∷ xs) ≡ true → distinct xs ≡ true
    tail b xs h = ground (arith, h)

-- The links behind `p`, put in front of them.
inserted :
    (st st' : List Link) (b p c : ℕ) (xs : List ℕ)
    → Segment st b xs b
    → next_of st b ≡ some c
    → next_of st' p ≡ some c
    → prev_of st' c ≡ some p
    → ((u : ℕ) → u ≢ b → u ≢ p → next_of st' u ≡ next_of st u)
    → ((u : ℕ) → u ≢ c → u ≢ p → prev_of st' u ≡ prev_of st u)
    → distinct (b ∷ xs) ≡ true
    → mem p (b ∷ xs) ≡ false
    → Segment st' p xs b
inserted st st' b p c [] h n np qc ns qs ds e =
    let at : c ≡ b = inner (sym n ∙ h.0) in
    (np ∙ ap some at, subst (λ u. prev_of st' u ≡ some p) at qc)
inserted st st' b p c (x ∷ xs) h n np qc ns qs ds e =
    let at : c ≡ x = inner (sym n ∙ h.0.0) in
    (
      (np ∙ ap some at, subst (λ u. prev_of st' u ≡ some p) at qc),
      Segment-frame st st' x xs b
          (λ u m.
            ns u (λ same. not_mem b u (x ∷ xs) (head_apart b (x ∷ xs) ds) m (sym same))
              (λ same. not_mem p u (b ∷ x ∷ xs) e (behind u m) (sym same)))
          (λ u m.
            qs u (λ same. not_mem x u (b ∷ xs) (apart_too b x xs ds) m (sym (same ∙ at)))
              (λ same. not_mem p u (b ∷ x ∷ xs) e (around_one u m) (sym same)))
          h.1,
    )
  where
    behind : (u : ℕ) → mem u (x ∷ xs) ≡ true → mem u (b ∷ x ∷ xs) ≡ true
    behind u m = ground (arith, m)

    around_one : (u : ℕ) → mem u (b ∷ xs) ≡ true → mem u (b ∷ x ∷ xs) ≡ true
    around_one u m = ground (arith, m)

    apart_too : (b x : ℕ) (xs : List ℕ) → distinct (b ∷ x ∷ xs) ≡ true → mem x (b ∷ xs) ≡ false
    apart_too b x xs ds = ground (arith, ds)

-- Where the link `p` is not in a circular list with the head `b`, list_add_after() of `p` behind `b`
-- succeeds, and the list has `p` in front of its links.
pub list_add_after-IsCircle :
    (st : List Link) (b p : ℕ) (xs : List ℕ)
    → IsCircle st b xs
    → mem p (b ∷ xs) ≡ false
    → p < length st
    → (st' : List Link) × (list_add_after st b p ≡ ok st')
      × (length st' ≡ length st)
      × IsCircle st' b (p ∷ xs)
list_add_after-IsCircle st b p xs (h, ds, (b_in, xs_in)) e p_in =
    let (c, n, cm) = first_behind st b xs b h in
    let all_in : Within (length st) (b ∷ xs) = (b_in, xs_in) in
    let c_in = Within-mem (length st) c (b ∷ xs) all_in cm in
    let pc : p ≢ c = not_mem p c (b ∷ xs) e cm in
    let pb : p ≢ b = not_mem p b (b ∷ xs) e (ground arith) in
    let (st', ran, len, nb, np, ns, qc, qp, qs) =
      list_add_after-next st b p c n pb pc p_in b_in c_in in
    (
      st',
      ran,
      len,
      (
        ((nb, qp), inserted st st' b p c xs h n np qc ns qs ds e),
        now_distinct b p xs ds e,
        subst (λ k. Within k (b ∷ p ∷ xs)) (sym len) (b_in, (p_in, xs_in)),
      ),
    )
  where
    now_distinct :
        (b p : ℕ) (xs : List ℕ)
        → distinct (b ∷ xs) ≡ true
        → mem p (b ∷ xs) ≡ false
        → distinct (b ∷ p ∷ xs) ≡ true
    now_distinct b p xs ds e = ground (arith, ds, e)
