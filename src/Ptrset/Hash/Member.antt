-- ===== src/Ptrset/Hash/Member.antt =====
-- What hash_set() puts in a set, hash_has() finds, and hash_grow() keeps.
use mepl.Prelude.{
  ℕ, ◌+◌, ◌*◌, ◌%◌, ◌^◌, ◌≤◌, ◌<◌, ◌≡◌, refl, sym, ap, ◌∙◌, subst, ==_iff, Bool, true, false, ◌||◌,
  List, [], arith, ◌==◌, Bool-cases, inl, inr, length, replicate, Outcome, ok, ◌>>=◌,
}
use mepl.Ptrset.Hash.{
  Hlink, Hash, hashfn, next_prime, visited, in_chain, link_in, link_all, is_loaded, hash_grow,
  hash_add, hash_has, hash_set,
}
use mepl.Ptrset.Hash.Prime.{prime, next_prime-prime}
use mepl.Ptrset.Hash.Chains.{
  in_any, concat, in_chain-concat, length-concat, visited-concat, in_any-nil,
}
use mepl.Ptrset.Hash.Table.{
  IsTable, chain_at, link_in-IsTable, link_all-IsTable, new-IsTable, Placed-Hashed,
}

abbrev pub IsHash : Hash → Type 0
IsHash h = (0 < h.cap) × IsTable (hashfn h.seed) h.cap h.tab h.len

pub IsTable-visited : (h : Hash) → IsHash h → visited h.tab 0 h.len ≡ ok (concat h.tab)
IsTable-visited h (above, (len, p, t)) = visited-concat h.tab 0 h.len (omega (arith, t))

pub prime_positive : (c : ℕ) → prime c ≡ true → 0 < c
prime_positive c h = ground (arith, h)

grow_steps :
    (fuel : ℕ) (h : Hash) {cap : ℕ} {links : List Hlink} {tab : List (List Hlink)}
    → next_prime fuel fuel (h.cap * 2 % 2 ^ 64) ≡ ok cap
    → visited h.tab 0 h.len ≡ ok links
    → link_all cap links (replicate cap []) ≡ ok tab
    → hash_grow fuel h ≡ ok (record h { tab = tab; cap = cap })
unfolding hash_grow
grow_steps fuel h found links_of linked = rw (found, links_of, linked)

-- On a hash in order, where a prime below 2 ^ 62 stands between twice its capacity and the fuel,
-- hash_grow() ends; it keeps the links, and the pointers that are looked for are found as before,
-- in a table with a prime number of chains, at least twice as many.
pub hash_grow-IsHash :
    (fuel : ℕ) (h : Hash) (p : ℕ)
    → IsHash h
    → prime p ≡ true
    → h.cap * 2 ≤ p
    → p ≤ fuel
    → p < 2 ^ 62
    → (h' : Hash) × (hash_grow fuel h ≡ ok h')
      × IsHash h'
      × (prime h'.cap ≡ true)
      × (h.cap * 2 ≤ h'.cap)
      × (h'.len ≡ h.len)
      × (h'.seed ≡ h.seed)
      × ((q : ℕ) → in_any q h'.tab ≡ in_any q h.tab)
hash_grow-IsHash fuel h p valid q_prime l f s =
    let (above, (len, placed, t)) = valid in
    let whole : h.cap * 2 % 2 ^ 64 ≡ h.cap * 2 = omega arith in
    let (c, found, c_prime, low, high) =
      next_prime-prime fuel fuel (h.cap * 2) p q_prime s f l (omega arith) in
    let links = concat h.tab in
    let c_above = prime_positive c c_prime in
    let hashed = Placed-Hashed (hashfn h.seed) h.cap 0 h.tab placed in
    let (tab, e, table, same) =
      link_all-IsTable (hashfn h.seed) c links (replicate c []) c_above hashed
        (new-IsTable (hashfn h.seed) c) in
    let count : 0 + length links ≡ h.len = omega (arith, length-concat h.tab, t) in
    (
      record h { tab = tab; cap = c },
      grow_steps fuel h (ap (next_prime fuel fuel) whole ∙ found) (IsTable-visited h valid) e,
      (c_above, subst (IsTable (hashfn h.seed) c tab) count table),
      c_prime,
      low,
      refl,
      refl,
      λ q. same q ∙ joined q c h.tab (in_chain-concat q h.tab),
    )
  where
    joined :
        (q c : ℕ) (cs : List (List Hlink))
        → in_chain q (concat cs) ≡ in_any q cs
        → (in_chain q (concat cs) || in_any q (replicate c [])) ≡ in_any q cs
    joined q c cs e = let none_there = in_any-nil q c in ground (arith, e, none_there)

pub hash_has-in_any : (h : Hash) (q : ℕ) → IsHash h → hash_has h q ≡ ok (in_any q h.tab)
unfolding hash_has
hash_has-in_any h q (above, table) =
    let (c, e, same) = chain_at (hashfn h.seed) h.cap q h.tab above table in rw (e, same)

-- hash_add() behind the growing.
link_new : Hlink → Hash → Outcome Hash
link_new l h = do
  tab ← link_in h.cap l h.tab
  ok (record h { tab = tab; len = (h.len + 1) % 2 ^ 64 })

link_new-IsHash :
    (l : Hlink) (h : Hash)
    → IsHash h
    → l.hash ≡ hashfn h.seed l.ptr
    → h.len + 1 < 2 ^ 64
    → (h' : Hash) × (link_new l h ≡ ok h')
      × IsHash h'
      × ((q : ℕ) → in_any q h'.tab ≡ (l.ptr == q || in_any q h.tab))
unfolding link_new
link_new-IsHash l h (above, table) own s =
    let (tab, e, table', same) = link_in-IsTable (hashfn h.seed) h.cap l h.tab above own table in
    let count : h.len + 1 ≡ (h.len + 1) % 2 ^ 64 = omega (arith, s) in
    (
      record h { tab = tab; len = (h.len + 1) % 2 ^ 64 },
      rw e,
      (above, subst (IsTable (hashfn h.seed) h.cap tab) count table'),
      same,
    )

add_light :
    (fuel : ℕ) (h : Hash) (ptr : ℕ)
    → is_loaded h ≡ false
    → hash_add fuel h ptr ≡ link_new (record { hash = hashfn h.seed ptr; ptr = ptr }) h
unfolding hash_add link_new
add_light fuel h ptr e = rw e

add_loaded :
    (fuel : ℕ) (h : Hash) (ptr : ℕ) {g : Hash}
    → is_loaded h ≡ true
    → hash_grow fuel h ≡ ok g
    → hash_add fuel h ptr ≡ link_new (record { hash = hashfn h.seed ptr; ptr = ptr }) g
unfolding hash_add link_new
add_loaded fuel h ptr e grown = rw (e, grown)

module _ (fuel : ℕ) (h : Hash) (ptr p : ℕ) where
  hash_add-IsHash :
      IsHash h
      → prime p ≡ true
      → h.cap * 2 ≤ p
      → p ≤ fuel
      → p < 2 ^ 62
      → h.len + 1 < 2 ^ 64
      → (h' : Hash) × (hash_add fuel h ptr ≡ ok h')
        × IsHash h'
        × ((q : ℕ) → in_any q h'.tab ≡ (ptr == q || in_any q h.tab))
  hash_add-IsHash valid p_prime l f s r =
      let link : Hlink = record { hash = hashfn h.seed ptr; ptr = ptr } in
      elim (Bool-cases (is_loaded h)) [
        | inr light ↦
            let (h', e, v, same) = link_new-IsHash link h valid refl r in
            (h', add_light fuel h ptr light ∙ e, v, same)
        | inl loaded ↦
            let (g, grown, gv, gp, gc, glen, gs, kept) =
              hash_grow-IsHash fuel h p valid p_prime l f s in
            let own = ap (λ seed. hashfn seed ptr) (sym gs) in
            let (h', e, v, same) = link_new-IsHash link g gv own (omega (arith, r, glen)) in
            (
              h',
              add_loaded fuel h ptr loaded grown ∙ e,
              v,
              λ q. same q ∙ ap (λ b. ptr == q || b) (kept q),
            )
      ]

  present : (q : ℕ) → in_any ptr h.tab ≡ true → in_any q h.tab ≡ (ptr == q || in_any q h.tab)
  present q e = elim (Bool-cases (ptr == q)) [
    | inl same ↦
        let at : ptr ≡ q = (==_iff ptr q).0 same in rw same (ap (λ a. in_any a h.tab) (sym at) ∙ e)
    | inr other ↦ rw other
  ]

  set_old : IsHash h → in_any ptr h.tab ≡ true → hash_set fuel h ptr ≡ ok h
  unfolding hash_set
  set_old (above, table) e =
      let (c, here, same) = chain_at (hashfn h.seed) h.cap ptr h.tab above table in
      rw (here, sym same ∙ e)

  set_new : IsHash h → in_any ptr h.tab ≡ false → hash_set fuel h ptr ≡ hash_add fuel h ptr
  unfolding hash_set
  set_new (above, table) e =
      let (c, here, same) = chain_at (hashfn h.seed) h.cap ptr h.tab above table in
      rw (here, sym same ∙ e)

  -- On a hash in order, where a prime below 2 ^ 62 stands between twice its capacity and the fuel and
  -- its length is not the largest number: hash_set() ends with a hash in order, on which hash_has()
  -- finds the pointer that was set and those that it found before, and no other.
  pub hash_set-IsHash :
      IsHash h
      → prime p ≡ true
      → h.cap * 2 ≤ p
      → p ≤ fuel
      → p < 2 ^ 62
      → h.len + 1 < 2 ^ 64
      → (h' : Hash) × (hash_set fuel h ptr ≡ ok h')
        × IsHash h'
        × ((q : ℕ)
            → (before : Bool) × (hash_has h q ≡ ok before)
              × (hash_has h' q ≡ ok (ptr == q || before)))
  hash_set-IsHash valid p_prime l f s r = elim (Bool-cases (in_any ptr h.tab)) [
    | inl old ↦ (
      h,
      set_old valid old,
      valid,
      λ q. (
        in_any q h.tab,
        hash_has-in_any h q valid,
        hash_has-in_any h q valid ∙ ap ok (present q old),
      ),
    )
    | inr new ↦
        let (h', e, v, same) = hash_add-IsHash valid p_prime l f s r in
        (
          h',
          set_new valid new ∙ e,
          v,
          λ q. (in_any q h.tab, hash_has-in_any h q valid, hash_has-in_any h' q v ∙ ap ok (same q)),
        )
  ]
