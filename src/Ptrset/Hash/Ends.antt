-- ===== src/Ptrset/Hash/Ends.antt =====
-- A new hash, and what hash_free() visits.
use mepl.Prelude.{
  ℕ, suc, ◌≤◌, ◌≡◌, refl, sym, ap, ◌∙◌, Bool, true, false, ◌||◌, List, [], ◌∷◌, map, arith, ◌==◌,
  length, replicate, ok,
}
use mepl.Ptrset.Hash.{Hlink, Hash, hashfn, in_chain, hash_new, hash_free, hash_has}
use mepl.Ptrset.Hash.Prime.{prime, next_prime-prime}
use mepl.Ptrset.Hash.Chains.{concat, in_chain-concat, length-concat, in_any-nil}
use mepl.Ptrset.Hash.Table.{new-IsTable}
use mepl.Ptrset.Hash.Member.{IsHash, IsTable-visited, hash_has-in_any, prime_positive}
use mepl.Ptrset.Hash.Prime.{next_prime-prime}

-- With fuel for three rounds, hash_new() makes a hash in order, with a prime number of chains, in
-- which no pointer is found.
pub hash_new-IsHash :
    (fuel seed : ℕ)
    → 3 ≤ fuel
    → (h : Hash) × (hash_new fuel seed ≡ ok h)
      × IsHash h
      × (prime h.cap ≡ true)
      × (h.cap ≤ 2)
      × ((q : ℕ) → hash_has h q ≡ ok false)
unfolding hash_new
hash_new-IsHash fuel seed f =
    let (cap, found, p, low, high) =
      next_prime-prime fuel fuel 0 2 refl (omega arith) (omega arith) (omega arith) (omega arith) in
    let h : Hash = record { tab = replicate cap []; cap = cap; len = 0; seed = seed } in
    let valid : IsHash h = (prime_positive cap p, new-IsTable (hashfn seed) cap) in
    (h, rw found, valid, p, high, λ q. hash_has-in_any h q valid ∙ ap ok (in_any-nil q cap))

-- Whether a pointer is in a list of them.
abbrev pub listed : ℕ → List ℕ → Bool
listed q [] = false
listed q (p ∷ ps) = p == q || listed q ps

in_chain-listed : (q : ℕ) (c : List Hlink) → listed q (map (λ l. l.ptr) c) ≡ in_chain q c
in_chain-listed q [] = refl
in_chain-listed q (l ∷ c) = rw (in_chain-listed q c)

length-pointers : (c : List Hlink) → length (map (λ l. l.ptr) c) ≡ length c
length-pointers [] = refl
length-pointers (l ∷ c) = ap suc (length-pointers c)

-- On a hash in order, hash_free() ends, and calls `dtor` as often as the hash is long, and with the
-- pointers that hash_has() finds, and no other.
pub hash_free-IsHash :
    (h : Hash)
    → IsHash h
    → (ps : List ℕ) × (hash_free h ≡ ok ps)
      × (length ps ≡ h.len)
      × ((q : ℕ) → hash_has h q ≡ ok (listed q ps))
unfolding hash_free
hash_free-IsHash h valid =
    let (above, (len, placed, t)) = valid in
    let links = concat h.tab in
    (
      map (λ l. l.ptr) links,
      rw (IsTable-visited h valid),
      length-pointers links ∙ length-concat h.tab ∙ t,
      λ q.
          hash_has-in_any h q valid
          ∙ ap ok (sym (in_chain-listed q links ∙ in_chain-concat q h.tab)),
    )
