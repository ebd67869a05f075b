-- ===== src/Ptrset/KidTree/Linked.antt =====
-- Trees whose parent pointers are right.
use mepl.Prelude.{
  ℕ, ◌+◌, ◌<◌, ◌≤◌, ◌≡◌, ◌≢◌, refl, sym, ap, ◌∙◌, Option, none, some, List, [], ◌∷◌, ◌++◌, arith,
  ◌==◌, get_elem?, one_if, count, count-append,
}
use mepl.Ptrset.KidTree.{Kid}
use mepl.Ptrset.KidTree.Writes.{IsKid}
use mepl.Ptrset.KidTree.Find.{Tree, leaf, fork, Holds}

-- The store has the tree at this pointer, below the kid `par`.
abbrev pub IsLinked : List Kid → Option ℕ → Option ℕ → Tree → Type 0
IsLinked st par none leaf = Unit
IsLinked st par (some q) (fork l p v r) =
    (q ≡ p)
    × ((k : Kid) × (get_elem? st q ≡ some k)
        × (k.v ≡ v)
        × (k.parent ≡ par)
        × IsLinked st (some q) k.left l
        × IsLinked st (some q) k.right r)
IsLinked st par _ _ = ⊥

-- The kids of the tree, from left to right.
abbrev pub places : Tree → List ℕ
places leaf = []
places (fork l p v r) = places l ++ p ∷ places r

pub count-places :
    (u : ℕ) (l r : Tree) (p v : ℕ)
    → count u (places (fork l p v r)) ≡ count u (places l) + (one_if (p == u) + count u (places r))
count-places u l r p v = count-append u (places l) (p ∷ places r)

-- No kid is in the tree twice.
abbrev pub Once : Tree → Type 0
Once t = (u : ℕ) → count u (places t) ≤ 1

pub IsLinked-Holds :
    (st : List Kid) (par root : Option ℕ) (t : Tree) → IsLinked st par root t → Holds st root t
IsLinked-Holds st par none leaf h = tt
IsLinked-Holds st par none (fork l p v r) h = absurd h
IsLinked-Holds st par (some q) leaf h = absurd h
IsLinked-Holds st par (some q) (fork l p v r) (e, (k, at, kv, kp, hl, hr)) = (
  e,
  (k, at, kv, IsLinked-Holds st (some q) k.left l hl, IsLinked-Holds st (some q) k.right r hr),
)

pub self_count : (p : ℕ) → one_if (p == p) ≡ 1
self_count p = ground arith

pub root-of :
    (st : List Kid) (par root : Option ℕ) (l r : Tree) (p v : ℕ)
    → IsLinked st par root (fork l p v r)
    → root ≡ some p
root-of st par none l r p v h = absurd h
root-of st par (some q) l r p v h = ap some h.0

pub IsLinked-IsKid :
    (st : List Kid) (par root : Option ℕ) (t : Tree) → IsLinked st par root t → IsKid st root
IsLinked-IsKid st par none t h = tt
IsLinked-IsKid st par (some q) leaf h = absurd h
IsLinked-IsKid st par (some q) (fork l p v r) (e, (k, at, kv, kp, hl, hr)) = (k, at)

pub root_in :
    (st : List Kid) (par : Option ℕ) (q : ℕ) (t : Tree)
    → IsLinked st par (some q) t
    → 0 < count q (places t)
root_in st par q leaf h = absurd h
root_in st par q (fork l p v r) (e, h) =
    let parts = count-places q l r p v in
    let own = ap (λ n. one_if (n == q)) (sym e) ∙ self_count q in omega (arith, parts, own)

within_l :
    (u : ℕ) (l r : Tree) (p v : ℕ) → 0 < count u (places l) → 0 < count u (places (fork l p v r))
within_l u l r p v h = let n = count-places u l r p v in omega (arith, n, h)

within_r :
    (u : ℕ) (l r : Tree) (p v : ℕ) → 0 < count u (places r) → 0 < count u (places (fork l p v r))
within_r u l r p v h = let n = count-places u l r p v in omega (arith, n, h)

-- What is written elsewhere leaves the tree as it is.
pub IsLinked-frame :
    (st st' : List Kid) (par root : Option ℕ) (t : Tree)
    → ((u : ℕ) → 0 < count u (places t) → get_elem? st' u ≡ get_elem? st u)
    → IsLinked st par root t
    → IsLinked st' par root t
IsLinked-frame st st' par none leaf same h = tt
IsLinked-frame st st' par none (fork l p v r) same h = absurd h
IsLinked-frame st st' par (some q) leaf same h = absurd h
IsLinked-frame st st' par (some q) (fork l p v r) same (e, (k, at, kv, kp, hl, hr)) =
    let here = root_in st par q (fork l p v r) (e, (k, at, kv, kp, hl, hr)) in
    (
      e,
      (
        k,
        same q here ∙ at,
        kv,
        kp,
        IsLinked-frame st st' (some q) k.left l (λ u h. same u (within_l u l r p v h)) hl,
        IsLinked-frame st st' (some q) k.right r (λ u h. same u (within_r u l r p v h)) hr,
      ),
    )

-- The tree is hung below another kid.
pub IsLinked-moved :
    (st st' : List Kid) (par root : Option ℕ) (g : ℕ) (t : Tree)
    → Once t
    → ((u : ℕ) → 0 < count u (places t) → root ≢ some u → get_elem? st' u ≡ get_elem? st u)
    → ((u : ℕ) (k : Kid)
        → root ≡ some u
        → get_elem? st u ≡ some k
        → get_elem? st' u ≡ some (record k { parent = some g }))
    → IsLinked st par root t
    → IsLinked st' (some g) root t
IsLinked-moved st st' par none g leaf once same moved h = tt
IsLinked-moved st st' par none g (fork l p v r) once same moved h = absurd h
IsLinked-moved st st' par (some q) g leaf once same moved h = absurd h
IsLinked-moved st st' par (some q) g (fork l p v r) once same moved (e, (k, at, kv, kp, hl, hr)) = (
  e,
  (
    record k { parent = some g },
    moved q k refl at,
    kv,
    refl,
    IsLinked-frame st st' (some q) k.left l (λ u h. same u (within_l u l r p v h) (apart_l u h)) hl,
    IsLinked-frame st st' (some q) k.right r (λ u h. same u (within_r u l r p v h) (apart_r u h))
        hr,
  ),
)
  where
    is_root : (u : ℕ) → some q ≡ some u → one_if (p == u) ≡ 1
    is_root u s =
        let at_q : q ≡ u = cc in
        let at_p : u ≡ p = sym at_q ∙ e in ap (λ n. one_if (p == n)) at_p ∙ self_count p

    apart_l : (u : ℕ) → 0 < count u (places l) → some q ≢ some u
    apart_l u h s =
        let n = count-places u l r p v in
        let one = once u in let own = is_root u s in omega (arith, n, h, one, own)

    apart_r : (u : ℕ) → 0 < count u (places r) → some q ≢ some u
    apart_r u h s =
        let n = count-places u l r p v in
        let one = once u in let own = is_root u s in omega (arith, n, h, one, own)
