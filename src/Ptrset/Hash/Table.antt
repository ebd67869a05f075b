-- ===== src/Ptrset/Hash/Table.antt =====
-- Adding links to a table.
use mepl.Prelude.{
  ℕ, suc, ◌+◌, ◌%◌, ◌<◌, ◌≡◌, refl, ◌∙◌, subst, Bool, ◌||◌, some, List, [], ◌∷◌, ◌++◌, arith, ◌==◌,
  length, get_elem?, set, replicate, get_or, length-set, length-replicate, get_elem?-eq-get_or, ok,
  after,
}
use native.Mathlib.Nat.{mod-lt}
use mepl.Ptrset.Hash.{Hlink, in_chain, link_in, link_all}
use mepl.Ptrset.Hash.Chains.{
  in_any, total, concat, Hashed, InChain, Placed, in_any-get_or, Placed-set, Placed-nil, total-set,
  in_any-set, total-nil,
}

-- A table with `cap` chains and `n` links, each in the chain of its hash.
abbrev pub IsTable : (ℕ → ℕ) → ℕ → List (List Hlink) → ℕ → Type 0
IsTable hash cap tab n = (length tab ≡ cap) × Placed hash cap 0 tab × (total tab ≡ n)

module _ (hash : ℕ → ℕ) (cap : ℕ) where
  -- The chain that a pointer is looked for in.
  pub chain_at :
      (q : ℕ) (tab : List (List Hlink)) {n : ℕ}
      → 0 < cap
      → IsTable hash cap tab n
      → (c : List Hlink) × (get_elem? tab (hash q % cap) ≡ some c) × (in_any q tab ≡ in_chain q c)
  chain_at q tab above (l, p, t) =
      let below = mod-lt (hash q) above in
      (
        get_or tab (hash q % cap) [],
        get_elem?-eq-get_or tab (hash q % cap) [] (omega arith),
        in_any-get_or hash cap q 0 (hash q % cap) tab p (omega arith),
      )

  pub link_in-IsTable :
      (l : Hlink) (tab : List (List Hlink)) {n : ℕ}
      → 0 < cap
      → l.hash ≡ hash l.ptr
      → IsTable hash cap tab n
      → (tab' : List (List Hlink)) × (link_in cap l tab ≡ ok tab')
        × IsTable hash cap tab' (n + 1)
        × ((q : ℕ) → in_any q tab' ≡ (l.ptr == q || in_any q tab))
  unfolding link_in
  link_in-IsTable l tab {n} above e (len, p, t) =
      let below = mod-lt l.hash above in
      let j = l.hash % cap in
      let c = get_or tab j [] in
      let here : get_elem? tab j ≡ some c = get_elem?-eq-get_or tab j [] (omega arith) in
      let at : l.hash % cap ≡ 0 + j = omega arith in
      let more : total (set tab j (l ∷ c)) ≡ n + 1 = omega (arith, total-set l j tab here, t) in
      (
        set tab j (l ∷ c),
        rw (here),
        (length-set tab j (l ∷ c) ∙ len, Placed-set hash cap l 0 j tab p here e at, more),
        λ q. in_any-set q l j tab here,
      )

  pub link_all-IsTable :
      (links : List Hlink) (tab : List (List Hlink)) {n : ℕ}
      → 0 < cap
      → Hashed hash cap links
      → IsTable hash cap tab n
      → (tab' : List (List Hlink)) × (link_all cap links tab ≡ ok tab')
        × IsTable hash cap tab' (n + length links)
        × ((q : ℕ) → in_any q tab' ≡ (in_chain q links || in_any q tab))
  unfolding link_all
  link_all-IsTable [] tab {n} above h t =
      let same : n ≡ n + 0 = omega arith in
      (tab, refl, subst (IsTable hash cap tab) same t, λ q. refl)
  link_all-IsTable (l ∷ links) tab {n} above h t =
      let (tab1, e1, t1, in1) = link_in-IsTable l tab above h.0 t in
      let (tab2, e2, t2, in2) = link_all-IsTable links tab1 above h.1 t1 in
      let same : n + 1 + length links ≡ n + suc (length links) = omega arith in
      (
        tab2,
        after (link_all cap links) e1 e2,
        subst (IsTable hash cap tab2) same t2,
        λ q. in2 q ∙ either q links tab (in1 q),
      )
    where
      either :
          (q : ℕ) (links : List Hlink) (tab : List (List Hlink)) {b : Bool}
          → b ≡ (l.ptr == q || in_any q tab)
          → (in_chain q links || b) ≡ (in_chain q (l ∷ links) || in_any q tab)
      either q links tab e = ground (arith, e)

  pub new-IsTable : IsTable hash cap (replicate cap []) 0
  new-IsTable = (length-replicate cap [], Placed-nil hash cap 0 cap, total-nil cap)

  InChain-Hashed :
      (k : ℕ) (c d : List Hlink)
      → InChain hash cap k c
      → Hashed hash cap d
      → Hashed hash cap (c ++ d)
  InChain-Hashed k [] d h r = r
  InChain-Hashed k (l ∷ c) d h r = (h.0, InChain-Hashed k c d h.2 r)

  pub Placed-Hashed :
      (k : ℕ) (cs : List (List Hlink)) → Placed hash cap k cs → Hashed hash cap (concat cs)
  Placed-Hashed k [] h = tt
  Placed-Hashed k (c ∷ cs) h = InChain-Hashed k c (concat cs) h.0 (Placed-Hashed (suc k) cs h.1)
