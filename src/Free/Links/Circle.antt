-- ===== src/Free/Links/Circle.antt =====
-- The circular list that links make up.
use mepl.Prelude.{
  ℕ, ◌<◌, ◌≡◌, ◌≢◌, sym, ap, ◌∙◌, subst, ==_iff, Bool, true, false, not, ◌&&◌, ◌||◌, some, List, [],
  ◌∷◌, arith, ◌==◌, if◌then◌else◌, Bool-cases, inl, inr, length,
}
use mepl.Free.Links.{Link}
use mepl.Free.Links.Store.{next_of, prev_of}

abbrev pub mem : ℕ → List ℕ → Bool
mem p [] = false
mem p (x ∷ xs) = x == p || mem p xs

abbrev pub distinct : List ℕ → Bool
distinct [] = true
distinct (x ∷ xs) = not (mem x xs) && distinct xs

abbrev pub Within : ℕ → List ℕ → Type 0
Within n [] = Unit
Within n (x ∷ xs) = (x < n) × Within n xs

-- The list without `p`.
abbrev pub without : ℕ → List ℕ → List ℕ
without p [] = []
without p (x ∷ xs) = if x == p then xs else x ∷ without p xs

-- `q` is behind `p`.
abbrev pub Edge : List Link → ℕ → ℕ → Type 0
Edge st p q = (next_of st p ≡ some q) × (prev_of st q ≡ some p)

-- The links `xs` stand between `p` and `q`.
abbrev pub Segment : List Link → ℕ → List ℕ → ℕ → Type 0
Segment st p [] q = Edge st p q
Segment st p (x ∷ xs) q = Edge st p x × Segment st x xs q

-- The list with the head `b` has the links `xs`, in this order.
abbrev pub IsCircle : List Link → ℕ → List ℕ → Type 0
IsCircle st b xs = Segment st b xs b × (distinct (b ∷ xs) ≡ true) × Within (length st) (b ∷ xs)

pub Within-mem : (n p : ℕ) (xs : List ℕ) → Within n xs → mem p xs ≡ true → p < n
Within-mem n p [] h e = cc
Within-mem n p (x ∷ xs) h e = elim (Bool-cases (x == p)) [
  | inl here ↦ subst (λ y. y < n) ((==_iff x p).0 here) h.0
  | inr other ↦ Within-mem n p xs h.1 (ap (λ b. b || mem p xs) (sym other) ∙ e)
]

pub not_mem : (x y : ℕ) (xs : List ℕ) → mem x xs ≡ false → mem y xs ≡ true → x ≢ y
not_mem x y xs f e same = clash (subst (λ z. mem z xs ≡ false) same f) e
  where
    clash : {b : Bool} → b ≡ false → b ≡ true → ⊥
    clash f e = cc

pub first_behind :
    (st : List Link) (y : ℕ) (zs : List ℕ) (q : ℕ)
    → Segment st y zs q
    → (c : ℕ) × (next_of st y ≡ some c) × ((q == c || mem c zs) ≡ true)
first_behind st y [] q h = (q, h.0, ground arith)
first_behind st y (x ∷ zs) q h = (x, h.0.0, ground arith)

-- The links on both sides of one.
pub around :
    (st : List Link) (y p : ℕ) (zs : List ℕ) (q : ℕ)
    → Segment st y zs q
    → mem p zs ≡ true
    → (a : ℕ) × (c : ℕ) × (prev_of st p ≡ some a)
      × (next_of st p ≡ some c)
      × (mem a (y ∷ zs) ≡ true)
      × ((q == c || mem c zs) ≡ true)
around st y p [] q h e = cc
around st y p (x ∷ zs) q h e = elim (Bool-cases (x == p)) [
  | inl here ↦
      let at : x ≡ p = (==_iff x p).0 here in
      let (c, n, cm) = first_behind st x zs q h.1 in
      (
        y,
        c,
        subst (λ z. prev_of st z ≡ some y) at h.0.1,
        subst (λ z. next_of st z ≡ some c) at n,
        ground arith,
        ground (arith, cm),
      )
  | inr other ↦
      let (a, c, r, n, am, cm) = around st x p zs q h.1 (ap (λ b. b || mem p zs) (sym other) ∙ e) in
      (a, c, r, n, ground (arith, am), ground (arith, cm))
]

-- What is written elsewhere leaves the segment as it is.
pub Segment-frame :
    (st st' : List Link) (y : ℕ) (zs : List ℕ) (q : ℕ)
    → ((u : ℕ) → mem u (y ∷ zs) ≡ true → next_of st' u ≡ next_of st u)
    → ((u : ℕ) → mem u (q ∷ zs) ≡ true → prev_of st' u ≡ prev_of st u)
    → Segment st y zs q
    → Segment st' y zs q
Segment-frame st st' y [] q n r h = (n y (ground arith) ∙ h.0, r q (ground arith) ∙ h.1)
Segment-frame st st' y (x ∷ zs) q n r h = (
  (n y (ground arith) ∙ h.0.0, r x (ground arith) ∙ h.0.1),
  Segment-frame st st' x zs q (λ u e. n u (ground (arith, e))) (λ u e. r u (further q x u zs e))
      h.1,
)
  where
    further : (q x u : ℕ) (zs : List ℕ) → mem u (q ∷ zs) ≡ true → mem u (q ∷ x ∷ zs) ≡ true
    further q x u zs e = ground (arith, e)

pub inner : {a b : ℕ} → some a ≡ some b → a ≡ b
inner e = cc

pub head_apart : (y : ℕ) (zs : List ℕ) → distinct (y ∷ zs) ≡ true → mem y zs ≡ false
head_apart y zs h = ground (arith, h)

-- The link `p` is left out: what is written is that its neighbours are next to each other.
module _ (st st' : List Link) (a c p q : ℕ) (prev_p : prev_of st p ≡ some a)
    (next_p : next_of st p ≡ some c) (next_a : next_of st' a ≡ some c)
    (next_same : (u : ℕ) → u ≢ a → next_of st' u ≡ next_of st u) (prev_c : prev_of st' c ≡ some a)
    (prev_same : (u : ℕ) → u ≢ c → prev_of st' u ≡ prev_of st u) where
  beyond : (z : ℕ) (zs : List ℕ) → mem q (z ∷ zs) ≡ false → q ≢ z
  beyond z zs qm e = ground (arith, qm, e)

  not_first :
      (x c1 : ℕ) (zs : List ℕ)
      → (q == c1 || mem c1 zs) ≡ true
      → mem x zs ≡ false
      → mem q (x ∷ zs) ≡ false
      → x ≢ c1
  not_first x c1 zs cm xm qm = elim (Bool-cases (q == c1)) [
    | inl last ↦ let at : q ≡ c1 = (==_iff q c1).0 last in λ same. beyond x zs qm (at ∙ sym same)
    | inr other ↦ not_mem x c1 zs xm (ap (λ b. b || mem c1 zs) (sym other) ∙ cm)
  ]

  closed :
      (y : ℕ) (zs : List ℕ)
      → y ≡ a
      → Segment st p zs q
      → mem y zs ≡ false
      → distinct zs ≡ true
      → mem q zs ≡ false
      → Segment st' y zs q
  closed y [] e h ym ds qm =
      let at : c ≡ q = inner (sym next_p ∙ h.0) in
      (
        subst (λ z. next_of st' z ≡ some q) (sym e) (next_a ∙ ap some at),
        subst (λ z. prev_of st' z ≡ some y) at (prev_c ∙ ap some (sym e)),
      )
  closed y (z ∷ zs) e h ym ds qm =
      let at : c ≡ z = inner (sym next_p ∙ h.0.0) in
      (
        (
          subst (λ u. next_of st' u ≡ some z) (sym e) (next_a ∙ ap some at),
          subst (λ u. prev_of st' u ≡ some y) at (prev_c ∙ ap some (sym e)),
        ),
        Segment-frame st st' z zs q
            (λ u m. next_same u (λ same.
              not_mem a u (z ∷ zs) (subst (λ u. mem u (z ∷ zs) ≡ false) e ym) m (sym same)))
            (λ u m. prev_same u (λ same. apart u z zs (head_apart z zs ds) qm m (same ∙ at))) h.1,
      )
    where
      apart :
          (u z : ℕ) (zs : List ℕ)
          → mem z zs ≡ false
          → mem q (z ∷ zs) ≡ false
          → mem u (q ∷ zs) ≡ true
          → u ≢ z
      apart u z zs zm qm m same = elim (Bool-cases (q == u)) [
        | inl last ↦ beyond z zs qm ((==_iff q u).0 last ∙ same)
        | inr other ↦ not_mem z u zs zm (ap (λ b. b || mem u zs) (sym other) ∙ m) (sym same)
      ]

  pub left_out :
      (y : ℕ) (zs : List ℕ)
      → Segment st y zs q
      → mem p zs ≡ true
      → distinct (y ∷ zs) ≡ true
      → mem q zs ≡ false
      → Segment st' y (without p zs) q
  left_out y [] h e ds qm = cc
  left_out y (x ∷ zs) h e ds qm = elim (Bool-cases (x == p)) [
    | inl here ↦
        let at : x ≡ p = (==_iff x p).0 here in
        let first : y ≡ a = inner (sym h.0.1 ∙ ap (prev_of st) at ∙ prev_p) in
        rw here (
          closed y zs first (subst (λ z. Segment st z zs q) at h.1) (ground (arith, ds))
            (ground (arith, ds)) (ground (arith, qm)))
    | inr other ↦
        let later : mem p zs ≡ true = ap (λ b. b || mem p zs) (sym other) ∙ e in
        let (a1, c1, r, n, am, cm) = around st x p zs q h.1 later in
        let same_a : a1 ≡ a = inner (sym r ∙ prev_p) in
        let same_c : c1 ≡ c = inner (sym n ∙ next_p) in
        let ya : y ≢ a =
          not_mem y a (x ∷ zs) (head_apart y (x ∷ zs) ds)
            (subst (λ u. mem u (x ∷ zs) ≡ true) same_a am) in
        let xc : x ≢ c = λ same.
          not_first x c1 zs cm (head_apart x zs (ground (arith, ds))) qm (same ∙ sym same_c) in
        rw other (
          (next_same y ya ∙ h.0.0, prev_same x xc ∙ h.0.1),
          left_out x zs h.1 later (ground (arith, ds)) (ground (arith, qm)),
        )
  ]
