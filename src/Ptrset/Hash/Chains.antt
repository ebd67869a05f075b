-- ===== src/Ptrset/Hash/Chains.antt =====
-- Tables whose links stand in the chains that their hashes say.
use mepl.Prelude.{
  ℕ, zero, suc, ◌+◌, ◌%◌, ◌≤◌, ◌<◌, ◌≡◌, ◌≢◌, refl, sym, ap, ◌∙◌, subst, ==_iff, Bool, true, false,
  ◌||◌, some, List, [], ◌∷◌, ◌++◌, arith, ltb, ◌==◌, Bool-cases, inl, inr, length, get_elem?, set,
  replicate, get_or, length-append, ok,
}
use mepl.Ptrset.Hash.{Hlink, visited, in_chain}

abbrev pub in_any : ℕ → List (List Hlink) → Bool
in_any q [] = false
in_any q (c ∷ cs) = in_chain q c || in_any q cs

abbrev pub total : List (List Hlink) → ℕ
total [] = 0
total (c ∷ cs) = length c + total cs

abbrev pub concat : List (List Hlink) → List Hlink
concat [] = []
concat (c ∷ cs) = c ++ concat cs

in_chain-append : (q : ℕ) (c d : List Hlink) → in_chain q (c ++ d) ≡ (in_chain q c || in_chain q d)
in_chain-append q [] d = refl
in_chain-append q (l ∷ c) d = ground (arith, in_chain-append q c d)

pub in_chain-concat : (q : ℕ) (cs : List (List Hlink)) → in_chain q (concat cs) ≡ in_any q cs
in_chain-concat q [] = refl
in_chain-concat q (c ∷ cs) = ground (arith, in_chain-append q c (concat cs), in_chain-concat q cs)

pub length-concat : (cs : List (List Hlink)) → length (concat cs) ≡ total cs
length-concat [] = refl
length-concat (c ∷ cs) = omega (arith, length-append c (concat cs), length-concat cs)

no_links : (cs : List (List Hlink)) → total cs ≡ 0 → concat cs ≡ []
no_links [] h = refl
no_links ([] ∷ cs) h = no_links cs (omega arith)
no_links ((l ∷ c) ∷ cs) h = absurd (omega arith)

visited-stop : (cs : List (List Hlink)) (count len : ℕ) → len ≤ count → visited cs count len ≡ ok []
unfolding visited
visited-stop [] count len h = ground arith
visited-stop (c ∷ cs) count len h = ground arith

visited-step :
    (c : List Hlink) (cs : List (List Hlink)) (count len : ℕ) {links : List Hlink}
    → count < len
    → visited cs (count + length c) len ≡ ok links
    → visited (c ∷ cs) count len ≡ ok (c ++ links)
unfolding visited
visited-step c cs count len h e =
    let going : ltb count len ≡ true = ground arith in rw (visited, going, e)

-- The loop ends at the last link, and visits every link.
pub visited-concat :
    (cs : List (List Hlink)) (count len : ℕ)
    → count + total cs ≡ len
    → visited cs count len ≡ ok (concat cs)
visited-concat [] count len h = visited-stop [] count len (omega arith)
visited-concat (c ∷ cs) count len h = elim (Bool-cases (ltb count len)) [
  | inl going ↦
      visited-step c cs count len (ground arith)
        (visited-concat cs (count + length c) len (omega arith))
  | inr done ↦
      let nothing = no_links (c ∷ cs) (ground arith) in
      rw nothing (visited-stop (c ∷ cs) count len (ground arith))
]

-- `hash` is the hash function, and the chain with the index `k` is that of the hashes that leave
-- `k` when divided by `cap`.
module _ (hash : ℕ → ℕ) (cap : ℕ) where
  abbrev pub Hashed : List Hlink → Type 0
  Hashed [] = Unit
  Hashed (l ∷ c) = (l.hash ≡ hash l.ptr) × Hashed c

  abbrev pub InChain : ℕ → List Hlink → Type 0
  InChain k [] = Unit
  InChain k (l ∷ c) = (l.hash ≡ hash l.ptr) × (l.hash % cap ≡ k) × InChain k c

  abbrev pub Placed : ℕ → List (List Hlink) → Type 0
  Placed k [] = Unit
  Placed k (c ∷ cs) = InChain k c × Placed (suc k) cs

  in_chain-InChain :
      (q k : ℕ) (c : List Hlink) → InChain k c → in_chain q c ≡ true → hash q % cap ≡ k
  in_chain-InChain q k [] h e = cc
  in_chain-InChain q k (l ∷ c) h e = elim (Bool-cases (l.ptr == q)) [
    | inl here ↦
        ap (λ p. hash p % cap) (sym ((==_iff l.ptr q).0 here)) ∙ ap (λ n. n % cap) (sym h.0) ∙ h.1
    | inr other ↦ in_chain-InChain q k c h.2 (ap (λ b. b || in_chain q c) (sym other) ∙ e)
  ]

  not_in_chain : (q k : ℕ) (c : List Hlink) → InChain k c → hash q % cap ≢ k → in_chain q c ≡ false
  not_in_chain q k c h ne = elim (Bool-cases (in_chain q c)) [
    | inl found ↦ absurd (ne (in_chain-InChain q k c h found))
    | inr none_there ↦ none_there
  ]

  in_any-low :
      (q k : ℕ) (cs : List (List Hlink)) → Placed k cs → hash q % cap < k → in_any q cs ≡ false
  in_any-low q k [] h l = refl
  in_any-low q k (c ∷ cs) h l =
      let first = not_in_chain q k c h.0 (omega arith) in
      rw (first, in_any-low q (suc k) cs h.1 (omega arith))

  -- A pointer is looked for in its own chain only.
  pub in_any-get_or :
      (q k j : ℕ) (cs : List (List Hlink))
      → Placed k cs
      → hash q % cap ≡ k + j
      → in_any q cs ≡ in_chain q (get_or cs j [])
  in_any-get_or q k j [] h e = refl
  in_any-get_or q k zero (c ∷ cs) h e =
      let rest = in_any-low q (suc k) cs h.1 (omega arith) in rw rest (ground arith)
  in_any-get_or q k (suc j) (c ∷ cs) h e =
      let first = not_in_chain q k c h.0 (omega arith) in
      rw first (in_any-get_or q (suc k) j cs h.1 (omega arith))

  pub Placed-set :
      (l : Hlink) (k j : ℕ) (cs : List (List Hlink)) {c : List Hlink}
      → Placed k cs
      → get_elem? cs j ≡ some c
      → l.hash ≡ hash l.ptr
      → l.hash % cap ≡ k + j
      → Placed k (set cs j (l ∷ c))
  Placed-set l k j [] h e f g = cc
  Placed-set l k zero (d ∷ cs) {c} h e f g =
      let same : d ≡ c = cc in ((f, omega arith, subst (InChain k) same h.0), h.1)
  Placed-set l k (suc j) (d ∷ cs) h e f g = (h.0, Placed-set l (suc k) j cs h.1 e f (omega arith))

  pub Placed-nil : (k n : ℕ) → Placed k (replicate n [])
  Placed-nil k zero = tt
  Placed-nil k (suc n) = (tt, Placed-nil (suc k) n)

pub total-set :
    (l : Hlink) (j : ℕ) (cs : List (List Hlink)) {c : List Hlink}
    → get_elem? cs j ≡ some c
    → total (set cs j (l ∷ c)) ≡ total cs + 1
total-set l j [] e = cc
total-set l zero (d ∷ cs) {c} e =
    let same : length d ≡ length c = ap length (inner e) in omega (arith, same)
  where
    inner : {a b : List Hlink} → some a ≡ some b → a ≡ b
    inner e = cc
total-set l (suc j) (d ∷ cs) e = omega (arith, total-set l j cs e)

pub in_any-set :
    (q : ℕ) (l : Hlink) (j : ℕ) (cs : List (List Hlink)) {c : List Hlink}
    → get_elem? cs j ≡ some c
    → in_any q (set cs j (l ∷ c)) ≡ (l.ptr == q || in_any q cs)
in_any-set q l j [] e = cc
in_any-set q l zero (d ∷ cs) {c} e =
    let same : in_chain q d ≡ in_chain q c = ap (in_chain q) (inner e) in ground arith
  where
    inner : {a b : List Hlink} → some a ≡ some b → a ≡ b
    inner e = cc
in_any-set q l (suc j) (d ∷ cs) e = ground (arith, in_any-set q l j cs e)

pub in_any-nil : (q n : ℕ) → in_any q (replicate n []) ≡ false
in_any-nil q zero = refl
in_any-nil q (suc n) = in_any-nil q n

pub total-nil : (n : ℕ) → total (replicate n []) ≡ 0
total-nil zero = refl
total-nil (suc n) = omega (arith, total-nil n)
