-- ===== src/Slabs/Table/Find.antt =====
-- The hash finds what a search through the names finds.
use mepl.Prelude.{
  ℕ, zero, suc, ◌%◌, ◌<◌, ◌≡◌, refl, sym, ap, ◌∙◌, ==_iff, Bool, true, false, not, ◌&&◌, Option,
  none, some, List, [], ◌∷◌, ◌++◌, arith, ◌==◌, if◌then◌else◌, Bool-cases, inl, inr, length,
  get_elem?, failed_check, Outcome, ok, exit, dbug, dbug-false, ◌>>=◌, ◌>>◌,
}
use mepl.Memory.{load, hash_bytes, same_bytes}
use mepl.Memory.Text.{NoNul, strhash-append, str_is-append}
use mepl.Slabs.Table.{Entry, SlabTab, names, slab_tab_size, slab_tab_find}

abbrev pub names_of : List Entry → List (List ℕ)
names_of [] = []
names_of (ep ∷ eps) = ep.ste_name ∷ names_of eps

-- The place of a name in a list of them, from the index `i` on.
abbrev pub position : ℕ → List (List ℕ) → List ℕ → Option ℕ
position i [] xs = none
position i (n ∷ ns) xs = if same_bytes xs n then some i else position (suc i) ns xs

-- What the search says, as a DBUG build reports it.
abbrev pub checked : Option ℕ → Outcome ℕ
checked none = exit failed_check
checked (some i) = ok i

pub same_bytes-eq : (xs ys : List ℕ) → same_bytes xs ys ≡ true → xs ≡ ys
same_bytes-eq [] [] h = refl
same_bytes-eq [] (y ∷ ys) h = cc
same_bytes-eq (x ∷ xs) [] h = cc
same_bytes-eq (x ∷ xs) (y ∷ ys) h = elim (Bool-cases (x == y)) [
  | inl here ↦
      let rest = same_bytes-eq xs ys (ap (λ b. b && same_bytes xs ys) (sym here) ∙ h) in
      let at : x ≡ y = (==_iff x y).0 here in cc
  | inr other ↦ absurd (ground (arith, h, other))
]

abbrev pub name : ℕ → List ℕ
name i = elim (get_elem? names i) [ none ↦ [] | some n ↦ n ]

hash-name : (i : ℕ) → i < slab_tab_size → hash_bytes 0 (name i) % slab_tab_size ≡ i
unfolding hash_bytes
hash-name zero h = refl
hash-name (suc zero) h = refl
hash-name (suc (suc zero)) h = refl
hash-name (suc (suc (suc i))) h = absurd (omega arith)

pub entry_at :
    (eps : List Entry) (i : ℕ)
    → names_of eps ≡ names
    → i < slab_tab_size
    → (ep : Entry) × (get_elem? eps i ≡ some ep) × (ep.ste_name ≡ name i)
entry_at [] i e h = cc
entry_at (a ∷ []) i e h = cc
entry_at (a ∷ b ∷ []) i e h = cc
entry_at (a ∷ b ∷ c ∷ []) zero e h = (a, refl, cc)
entry_at (a ∷ b ∷ c ∷ []) (suc zero) e h = (b, refl, cc)
entry_at (a ∷ b ∷ c ∷ []) (suc (suc zero)) e h = (c, refl, cc)
entry_at (a ∷ b ∷ c ∷ []) (suc (suc (suc i))) e h = absurd (omega arith)
entry_at (a ∷ b ∷ c ∷ d ∷ eps) i e h = cc

-- The nonempty string `xs` in memory, where the hash says `i`.
find_at :
    (debug : Bool) (t : SlabTab) (xs post : List ℕ) (i : ℕ) (ep : Entry)
    → NoNul xs
    → 0 < length xs
    → hash_bytes 0 xs % slab_tab_size ≡ i
    → get_elem? t.slab_tab i ≡ some ep
    → slab_tab_find debug t (some (xs ++ 0 ∷ post))
      ≡ (dbug debug (not (same_bytes xs ep.ste_name)) >> ok i)
unfolding slab_tab_find load
find_at debug t [] post i ep h l e here = absurd (omega (arith, l))
find_at debug t (x ∷ xs) post i ep h l e here =
    let some_char : (x == 0) ≡ false = ground (arith, h.0) in
    let hash = strhash-append (x ∷ xs) post h in
    let same = str_is-append (x ∷ xs) post ep.ste_name h in
    rw (
      dbug-false debug,
      ◌>>=◌,
      some_char,
      dbug-false debug,
      hash,
      ◌>>=◌,
      e,
      here,
      ◌>>=◌,
      same,
      ◌>>=◌,
    )

module _ (t : SlabTab) (xs post : List ℕ) (kept : names_of t.slab_tab ≡ names) (text : NoNul xs)
    (l : 0 < length xs) where
  pub find_name :
      (debug : Bool) (i : ℕ)
      → i < slab_tab_size
      → same_bytes xs (name i) ≡ true
      → slab_tab_find debug t (some (xs ++ 0 ∷ post)) ≡ ok i
  find_name debug i inside same =
      let (ep, here, named) = entry_at t.slab_tab i kept inside in
      let hash =
        ap (λ s. hash_bytes 0 s % slab_tab_size) (same_bytes-eq xs (name i) same)
        ∙ hash-name i inside in
      find_at debug t xs post i ep text l hash here ∙ rw (named, same, dbug-false debug)

  find_other :
      ((i : ℕ) → i < slab_tab_size → same_bytes xs (name i) ≡ false)
      → slab_tab_find true t (some (xs ++ 0 ∷ post)) ≡ exit failed_check
  find_other other =
      let i = hash_bytes 0 xs % slab_tab_size in
      let inside : i < slab_tab_size = omega arith in
      let (ep, here, named) = entry_at t.slab_tab i kept inside in
      find_at true t xs post i ep text l refl here ∙ rw (named, other i inside)

  -- For a table with the names that slab_tab.c gives it, and a nonempty string: in a DBUG build,
  -- slab_tab_find() ends as a search through the names does, with the entry of that name, or, where
  -- there is none, by a failed check.
  pub slab_tab_find-position :
      slab_tab_find true t (some (xs ++ 0 ∷ post)) ≡ checked (position 0 names xs)
  slab_tab_find-position = elim (Bool-cases (same_bytes xs (name 0))) [
    | inl s0 ↦ rw s0 (find_name true 0 (omega arith) s0)
    | inr n0 ↦ elim (Bool-cases (same_bytes xs (name 1))) [
      | inl s1 ↦ rw (n0, s1) (find_name true 1 (omega arith) s1)
      | inr n1 ↦ elim (Bool-cases (same_bytes xs (name 2))) [
        | inl s2 ↦ rw (n0, n1, s2) (find_name true 2 (omega arith) s2)
        | inr n2 ↦ rw (n0, n1, n2) (find_other (none_of n0 n1 n2))
      ]
    ]
  ]
    where
      none_of :
          same_bytes xs (name 0) ≡ false
          → same_bytes xs (name 1) ≡ false
          → same_bytes xs (name 2) ≡ false
          → (i : ℕ) → i < slab_tab_size
          → same_bytes xs (name i) ≡ false
      none_of n0 n1 n2 zero h = n0
      none_of n0 n1 n2 (suc zero) h = n1
      none_of n0 n1 n2 (suc (suc zero)) h = n2
      none_of n0 n1 n2 (suc (suc (suc i))) h = absurd (omega arith)
