-- ===== src/Tests/Hashes.antt =====
-- The table of pointers of ideas/ptrset/hash.c on some pointers.
use mepl.Prelude.{ℕ, ◌≡◌, refl, Bool, ◌||◌, [], ◌∷◌, arith, ◌==◌, ok}
use mepl.Ptrset.Hash.{Hlink, Hash, hashfn, hash_has, hash_set}
use mepl.Ptrset.Hash.Member.{IsHash, hash_set-IsHash}

abbrev link : ℕ → Hlink
link p = record { hash = hashfn 5 p; ptr = p }

-- A table of two chains, so full that the next pointer makes it grow.
abbrev h2 : Hash
h2 = record { tab = (link 4112 ∷ []) ∷ (link 4096 ∷ []) ∷ []; cap = 2; len = 2; seed = 5 }

h2-IsHash : IsHash h2
unfolding hashfn
h2-IsHash = (omega arith, (refl, ((refl, refl, tt), ((refl, refl, tt), tt)), refl))

hash_set-IsHash_example :
    (h : Hash) × (hash_set 5 h2 4128 ≡ ok h)
    × IsHash h
    × ((q : ℕ)
        → (before : Bool) × (hash_has h2 q ≡ ok before) × (hash_has h q ≡ ok (4128 == q || before)))
hash_set-IsHash_example =
    hash_set-IsHash 5 h2 4128 5 h2-IsHash refl (omega arith) (omega arith) (omega arith)
      (omega arith)
