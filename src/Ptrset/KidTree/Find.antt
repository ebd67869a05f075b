-- ===== src/Ptrset/KidTree/Find.antt =====
-- Searching the tree of a node.
use mepl.Prelude.{
  ℕ, zero, suc, ◌+◌, ◌<◌, ◌≤◌, ◌≡◌, refl, sym, ap, ◌∙◌, ==_iff, true, false, Option, none, some,
  List, [], ◌∷◌, ◌++◌, arith, ltb, ◌==◌, if◌then◌else◌, Bool-cases, inl, inr, get_elem?, ok, ◌>>=◌,
}
use mepl.Ptrset.KidTree.{Kid, kid_find}

-- A tree of kids: the index and the chunk of each.
pub data Tree : Type 0 where
  leaf : Tree
  fork : Tree → (p v : ℕ) → Tree → Tree

-- The store has the tree at this pointer.
abbrev pub Holds : List Kid → Option ℕ → Tree → Type 0
Holds st none leaf = Unit
Holds st (some q) (fork l p v r) =
    (q ≡ p)
    × ((k : Kid) × (get_elem? st q ≡ some k) × (k.v ≡ v) × Holds st k.left l × Holds st k.right r)
Holds st _ _ = ⊥

pub record Found : Type 0 where
  pub chunk : ℕ
  pub kid : ℕ

-- The chunks with their kids, from left to right.
abbrev pub in_order : Tree → List Found
in_order leaf = []
in_order (fork l p v r) = in_order l ++ (record { chunk = v; kid = p } ∷ in_order r)

-- The first kid with this chunk.
abbrev pub first_kid : List Found → ℕ → Option ℕ
first_kid [] c = none
first_kid (f ∷ fs) c = if f.chunk == c then some f.kid else first_kid fs c

abbrev pub AllBelow : ℕ → List Found → Type 0
AllBelow v [] = Unit
AllBelow v (f ∷ fs) = (f.chunk < v) × AllBelow v fs

abbrev pub AllAbove : ℕ → List Found → Type 0
AllAbove v [] = Unit
AllAbove v (f ∷ fs) = (v < f.chunk) × AllAbove v fs

abbrev pub IsSorted : List Found → Type 0
IsSorted [] = Unit
IsSorted (f ∷ fs) = AllAbove f.chunk fs × IsSorted fs

-- The chunks grow from left to right.
abbrev pub Ordered : Tree → Type 0
Ordered t = IsSorted (in_order t)

AllAbove-parts :
    (v : ℕ) (fs gs : List Found) → AllAbove v (fs ++ gs) → AllAbove v fs × AllAbove v gs
AllAbove-parts v [] gs h = (tt, h)
AllAbove-parts v (f ∷ fs) gs h =
    let (front, back) = AllAbove-parts v fs gs h.1 in ((h.0, front), back)

IsSorted-parts :
    (fs gs : List Found) (f : Found)
    → IsSorted (fs ++ f ∷ gs)
    → IsSorted fs × IsSorted gs × AllBelow f.chunk fs × AllAbove f.chunk gs
IsSorted-parts [] gs f h = (tt, h.1, tt, h.0)
IsSorted-parts (e ∷ fs) gs f h =
    let (front, back) = AllAbove-parts e.chunk fs (f ∷ gs) h.0 in
    let (sl, sr, below, above) = IsSorted-parts fs gs f h.1 in
    ((front, sl), sr, (back.0, below), above)

abbrev pub size : Tree → ℕ
size leaf = 0
size (fork l p v r) = suc (size l + size r)

none_below : (v c : ℕ) (fs : List Found) → AllBelow v fs → v ≤ c → first_kid fs c ≡ none
none_below v c [] h e = refl
none_below v c (f ∷ fs) h e =
    let less = h.0 in
    let other : (f.chunk == c) ≡ false = ground (arith, less, e) in
    rw other (none_below v c fs h.1 e)

none_above : (v c : ℕ) (fs : List Found) → AllAbove v fs → c ≤ v → first_kid fs c ≡ none
none_above v c [] h e = refl
none_above v c (f ∷ fs) h e =
    let more = h.0 in
    let other : (f.chunk == c) ≡ false = ground (arith, more, e) in
    rw other (none_above v c fs h.1 e)

in_front :
    (fs gs : List Found) (c : ℕ) → first_kid gs c ≡ none → first_kid (fs ++ gs) c ≡ first_kid fs c
in_front [] gs c h = h
in_front (f ∷ fs) gs c h = elim (Bool-cases (f.chunk == c)) [
  | inl same ↦ rw same
  | inr other ↦ rw other (in_front fs gs c h)
]

behind :
    (fs gs : List Found) (c : ℕ) → first_kid fs c ≡ none → first_kid (fs ++ gs) c ≡ first_kid gs c
behind [] gs c h = refl
behind (f ∷ fs) gs c h = elim (Bool-cases (f.chunk == c)) [
  | inl same ↦ absurd (clash (ap (λ b. if b then some f.kid else first_kid fs c) (sym same) ∙ h))
  | inr other ↦
      rw other (behind fs gs c (ap (λ b. if b then some f.kid else first_kid fs c) (sym other) ∙ h))
]
  where
    clash : {p : ℕ} → some p ≡ none → ⊥
    clash e = cc

module _ (fuel : ℕ) (st : List Kid) (p c : ℕ) (k : Kid) (at : get_elem? st p ≡ some k) where
  find_left : ltb c k.v ≡ true → kid_find (suc fuel) st (some p) c ≡ kid_find fuel st k.left c
  unfolding kid_find
  find_left h = rw (at, ◌>>=◌, h)

  find_right :
      ltb c k.v ≡ false
      → ltb k.v c ≡ true
      → kid_find (suc fuel) st (some p) c ≡ kid_find fuel st k.right c
  unfolding kid_find
  find_right h g = rw (at, ◌>>=◌, h, g)

  find_here :
      ltb c k.v ≡ false → ltb k.v c ≡ false → kid_find (suc fuel) st (some p) c ≡ ok (some p)
  unfolding kid_find
  find_here h g = rw (at, ◌>>=◌, h, g)

-- In a store with an ordered tree, and with more fuel than the tree has kids, kid_find() gives the
-- kid with the chunk that a search through the kids from left to right gives, or NULL as it does.
pub kid_find-first_kid :
    (fuel : ℕ) (st : List Kid) (root : Option ℕ) (t : Tree) (c : ℕ)
    → Holds st root t
    → Ordered t
    → size t < fuel
    → kid_find fuel st root c ≡ ok (first_kid (in_order t) c)
unfolding kid_find
kid_find-first_kid zero st root t c h o f = absurd (omega (arith, f))
kid_find-first_kid (suc fuel) st none leaf c h o f = refl
kid_find-first_kid (suc fuel) st none (fork l p v r) c h o f = absurd h
kid_find-first_kid (suc fuel) st (some q) leaf c h o f = absurd h
kid_find-first_kid (suc fuel) st (some q) (fork l p v r) c (same, (k, at, e, hl, hr)) o f =
    let (ol, or_, below, above) =
      IsSorted-parts (in_order l) (in_order r) (record { chunk = v; kid = p }) o in
    elim (Bool-cases (ltb c k.v)) [
      | inl less ↦
          let c_less : c < v = ground (arith, less, e) in
          let rest = kid_find-first_kid fuel st k.left l c hl ol (omega (arith, f)) in
          let other : (v == c) ≡ false = ground (arith, c_less) in
          let tail : List Found = record { chunk = v; kid = p } ∷ in_order r in
          let gone : first_kid tail c ≡ none =
            rw other (none_above v c (in_order r) above (omega (arith, c_less))) in
          find_left fuel st q c k at less ∙ rest ∙ ap ok (sym (in_front (in_order l) tail c gone))
      | inr not_less ↦ elim (Bool-cases (ltb k.v c)) [
        | inl more ↦
            let v_less : v < c = ground (arith, more, e) in
            let rest = kid_find-first_kid fuel st k.right r c hr or_ (omega (arith, f)) in
            let other : (v == c) ≡ false = ground (arith, v_less) in
            let gone = none_below v c (in_order l) below (omega (arith, v_less)) in
            let tail : List Found = record { chunk = v; kid = p } ∷ in_order r in
            let skips : first_kid tail c ≡ first_kid (in_order r) c = rw other in
            find_right fuel st q c k at not_less more
            ∙ rest
            ∙ ap ok (sym (behind (in_order l) tail c gone ∙ skips))
        | inr not_more ↦
            let equal : (v == c) ≡ true = ground (arith, not_less, not_more, e) in
            let at_c : v ≡ c = (==_iff v c).0 equal in
            let gone = none_below v c (in_order l) below (omega (arith, at_c)) in
            let tail : List Found = record { chunk = v; kid = p } ∷ in_order r in
            let hits : first_kid tail c ≡ some p = rw equal in
            find_here fuel st q c k at not_less not_more
            ∙ ap (λ n. ok (some n)) same
            ∙ ap ok (sym (behind (in_order l) tail c gone ∙ hits))
      ]
    ]
