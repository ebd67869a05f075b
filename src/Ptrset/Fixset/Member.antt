-- ===== src/Ptrset/Fixset/Member.antt =====
-- What fixset_add() adds. fixset_has() does not look whether there is a node where the pointer ends.
use mepl.Prelude.{
  ℕ, ◌<◌, ◌≡◌, refl, ap, ◌∙◌, Bool, true, false, ◌&&◌, ◌||◌, List, [], ◌∷◌, arith, ltb, ◌==◌,
  if◌then◌else◌, Bool-cases, inl, inr, length, ==_iff, Outcome, ok,
}
use mepl.Ptrset.Fixset.{
  Node, null, node, Fixset, fixset_has, fixset_add, do_fixset_has, add_from, kids_or_new, set_kid,
  no_kids,
}

-- Every chunk is an index of the arrays.
abbrev pub Fits : ℕ → List ℕ → Type 0
Fits size [] = Unit
Fits size (p ∷ ptr) = (p < size) × Fits size ptr

-- Whether two pointers of the same length have the same chunks before the last one.
abbrev pub same_but_last : List ℕ → List ℕ → Bool
same_but_last [] [] = true
same_but_last (x ∷ []) (y ∷ []) = true
same_but_last (x ∷ x' ∷ xs) (y ∷ y' ∷ ys) = x == y && same_but_last (x' ∷ xs) (y' ∷ ys)
same_but_last _ _ = false

-- Membership, where no access is out of bounds.
abbrev pub member : Node → List ℕ → Bool
member np [] = true
member null (q ∷ qs) = false
member (node kids) (q ∷ qs) = member (kids q) qs

module _ (size : ℕ) where
  has-member : (q : List ℕ) (np : Node) → Fits size q → do_fixset_has size np q ≡ ok (member np q)
  unfolding do_fixset_has
  has-member [] np f = refl
  has-member (q ∷ qs) null f = refl
  has-member (q ∷ qs) (node kids) f =
      let inside : ltb q size ≡ true = ground arith in
      rw (do_fixset_has, inside) (has-member qs (kids q) f.1)

  member-kids :
      (bytes : ℕ) (np : Node) (q r : ℕ) (qs : List ℕ)
      → member ((kids_or_new size bytes np).0 q) (r ∷ qs) ≡ member np (q ∷ r ∷ qs)
  member-kids bytes null q r qs = refl
  member-kids bytes (node kids) q r qs = refl

  -- One step of a search in a node that has a new kid.
  member-set_kid :
      (bytes : ℕ) (np kid : Node) (p : ℕ) (ptr : List ℕ) (q : ℕ) (qs : List ℕ)
      → (member kid qs ≡ (same_but_last ptr qs || member ((kids_or_new size bytes np).0 p) qs))
      → length ptr ≡ length qs
      → member (node (set_kid (kids_or_new size bytes np).0 p kid)) (q ∷ qs)
        ≡ (same_but_last (p ∷ ptr) (q ∷ qs) || member np (q ∷ qs))
  member-set_kid bytes np kid p [] q [] ih e = refl
  member-set_kid bytes np kid p [] q (r ∷ qs) ih e = absurd (omega arith)
  member-set_kid bytes np kid p (x ∷ ptr) q [] ih e = absurd (omega arith)
  member-set_kid bytes np kid p (x ∷ ptr) q (r ∷ qs) ih e = elim (Bool-cases (p == q)) [
    | inl here ↦
        let same : p ≡ q = (==_iff p q).0 here in
        rw here (
          ap (λ b. member (if b then kid else (kids_or_new size bytes np).0 q) (r ∷ qs)) here
          ∙ ih
          ∙ ap (λ h. same_but_last (x ∷ ptr) (r ∷ qs) || h)
              (member-kids bytes np p r qs ∙ ap (λ k. member np (k ∷ r ∷ qs)) same))
    | inr other ↦ rw other (
        ap (λ b. member (if b then kid else (kids_or_new size bytes np).0 q) (r ∷ qs)) other
        ∙ member-kids bytes np q r qs)
  ]

  abbrev Added : Outcome (Node × ℕ) → Node → List ℕ → Type 0
  Added o np ptr =
      (np' : Node) × (bytes : ℕ) × (o ≡ ok (np', bytes))
      × ((q : List ℕ) → length ptr ≡ length q → member np' q ≡ (same_but_last ptr q || member np q))

  add_from-some :
      (p : ℕ) (ptr : List ℕ) (bytes : ℕ) (np kid : Node) (bytes' : ℕ)
      → p < size
      → add_from size ptr (kids_or_new size bytes np).1 ((kids_or_new size bytes np).0 p)
        ≡ ok (kid, bytes')
      → add_from size (p ∷ ptr) bytes np
        ≡ ok (node (set_kid (kids_or_new size bytes np).0 p kid), bytes')
  unfolding add_from
  add_from-some p ptr bytes np kid bytes' h e =
      let inside : ltb p size ≡ true = ground arith in rw (add_from, inside, e)

  add_from-Added :
      (ptr : List ℕ) (bytes : ℕ) (np : Node)
      → Fits size ptr
      → Added (add_from size ptr bytes np) np ptr
  unfolding add_from
  add_from-Added [] bytes np f = (_, _, refl, only)
    where
      only :
          (q : List ℕ)
          → length {A = ℕ} [] ≡ length q
          → member (node no_kids) q ≡ (same_but_last [] q || member np q)
      only [] e = refl
      only (y ∷ q) e = absurd (omega arith)
  add_from-Added (p ∷ ptr) bytes np f =
      let start : Node = (kids_or_new size bytes np).0 p in
      let (kid, bytes', e, ih) = add_from-Added ptr (kids_or_new size bytes np).1 start f.1 in
      (_, bytes', add_from-some p ptr bytes np kid bytes' f.0 e, λ q l. step kid ih q l)
    where
      step :
          (kid : Node)
          → ((q : List ℕ)
              → length ptr ≡ length q
              → member kid q ≡ (same_but_last ptr q || member ((kids_or_new size bytes np).0 p) q))
          → (q : List ℕ) → length (p ∷ ptr) ≡ length q
          → member (node (set_kid (kids_or_new size bytes np).0 p kid)) q
            ≡ (same_but_last (p ∷ ptr) q || member np q)
      step kid ih [] l = absurd (omega arith)
      step kid ih (y ∷ q) l =
          member-set_kid bytes np kid p ptr y q (ih q (omega arith)) (omega arith)

  -- Where all chunks are below FIXSET_SIZE, fixset_add() of a pointer succeeds, fixset_has()
  -- answers before and after it, and of the pointers of the same length it finds afterwards those
  -- that it found before and all that differ from the added one in no chunk but the last.
  pub fixset_has-fixset_add :
      (s : Fixset) (ptr q : List ℕ)
      → Fits size ptr
      → Fits size q
      → length ptr ≡ length q
      → (s' : Fixset) × (before : Bool) × (fixset_add size s ptr ≡ ok s')
        × (fixset_has size s q ≡ ok before)
        × (fixset_has size s' q ≡ ok (same_but_last ptr q || before))
  unfolding fixset_has fixset_add
  fixset_has-fixset_add s ptr q f g e =
      let (root, bytes, added, found) = add_from-Added ptr s.ps_bytes s.root f in
      (
        record { ps_bytes = bytes; root = root },
        member s.root q,
        rw added,
        has-member q s.root g,
        has-member q root g ∙ ap ok (found q e),
      )
