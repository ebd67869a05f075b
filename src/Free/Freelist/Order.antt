-- ===== src/Free/Freelist/Order.antt =====
-- The list of pools in order, and the search for a pool that counts a free slot.
use mepl.Prelude.{
  ℕ, zero, suc, ◌+◌, ◌≤◌, ◌<◌, ◌≡◌, refl, sym, ap, ◌∙◌, subst, ==_iff, Bool, true, false, ◌&&◌,
  ◌||◌, none, some, List, [], ◌∷◌, ◌++◌, arith, ◌==◌, Bool-cases, inl, inr, length, get_elem?, set,
  get_elem?-set_self, get_elem?-set_ne, ok, ◌>>=◌,
}
use mepl.Free.Bitset.Slots.{marked}
use mepl.Free.Node.{FreeNode}
use mepl.Free.Node.High.{IsPool}
use mepl.Free.Links.{Link}
use mepl.Free.Links.Store.{next_of, link_at}
use mepl.Free.Links.Circle.{mem, Within, Segment, IsCircle, inner}
use mepl.Free.Freelist.{Freelist, first_pool}

abbrev pub AllPools : ℕ → List FreeNode → Type 0
AllPools size [] = Unit
AllPools size (fn ∷ fns) = IsPool size fn × AllPools size fns

-- The links of the list are `xs`; nothing is in the ring.
abbrev pub IsFreelist : ℕ → Freelist → List ℕ → Type 0
IsFreelist size s xs =
    IsCircle s.links 0 xs
    × (length s.links ≡ suc (length s.pools))
    × AllPools size s.pools
    × (s.ring.r_len ≡ 0)

-- Whether the slot `m` of the pool `j` is marked.
abbrev pub slot_marked : List FreeNode → ℕ → ℕ → Bool
slot_marked fns j m = elim (get_elem? fns j) [ none ↦ false | some fn ↦ marked fn.fn_free.words m ]

pub IsPool-at :
    (size : ℕ) (fns : List FreeNode) (i : ℕ)
    → AllPools size fns
    → i < length fns
    → (fn : FreeNode) × (get_elem? fns i ≡ some fn) × IsPool size fn
IsPool-at size [] i h l = absurd (omega arith)
IsPool-at size (fn ∷ fns) zero h l = (fn, refl, h.0)
IsPool-at size (fn ∷ fns) (suc i) h l = IsPool-at size fns i h.1 (omega arith)

pub AllPools-set :
    (size : ℕ) (fns : List FreeNode) (i : ℕ) (fn : FreeNode)
    → AllPools size fns
    → IsPool size fn
    → AllPools size (set fns i fn)
AllPools-set size [] i fn h p = tt
AllPools-set size (f ∷ fns) zero fn h p = (p, h.1)
AllPools-set size (f ∷ fns) (suc i) fn h p = (h.0, AllPools-set size fns i fn h.1 p)

pub AllPools-append :
    (size : ℕ) (fns : List FreeNode) (fn : FreeNode)
    → AllPools size fns
    → IsPool size fn
    → AllPools size (fns ++ fn ∷ [])
AllPools-append size [] fn h p = (p, tt)
AllPools-append size (f ∷ fns) fn h p = (h.0, AllPools-append size fns fn h.1 p)

-- Changing the marks of the pool `i` changes those of no other.
pub slot_marked-set :
    (fns : List FreeNode) (i ptr : ℕ) (fn fn' : FreeNode)
    → get_elem? fns i ≡ some fn
    → i < length fns
    → ((m : ℕ) → marked fn'.fn_free.words m ≡ (ptr == m || marked fn.fn_free.words m))
    → (j m : ℕ) → slot_marked (set fns i fn') j m ≡ ((i == j && ptr == m) || slot_marked fns j m)
slot_marked-set fns i ptr fn fn' here l h j m = elim (Bool-cases (i == j)) [
  | inl same ↦
      let at : i ≡ j = (==_iff i j).0 same in
      let was : slot_marked fns j m ≡ marked fn.fn_free.words m =
        subst (λ k. slot_marked fns k m ≡ marked fn.fn_free.words m) at (look fns i fn here) in
      let now : slot_marked (set fns i fn') j m ≡ marked fn'.fn_free.words m =
        subst (λ k. slot_marked (set fns i fn') k m ≡ marked fn'.fn_free.words m) at
          (look (set fns i fn') i fn' (get_elem?-set_self fns i fn' l)) in
      rw (now, was, same) (h m)
  | inr other ↦ rw other (
      ap (λ o. elim o [ none ↦ false | some fn ↦ marked fn.fn_free.words m ])
        (get_elem?-set_ne fns fn' (λ e. ground (arith, other, e))))
]
  where
    look :
        (fns : List FreeNode) (k : ℕ) (fn : FreeNode)
        → get_elem? fns k ≡ some fn
        → slot_marked fns k m ≡ marked fn.fn_free.words m
    look fns k fn e = ap (λ o. elim o [ none ↦ false | some fn ↦ marked fn.fn_free.words m ]) e

-- The link that the search ends at: the variable, or that of a pool that counts a free slot.
abbrev pub IsStop : Freelist → List ℕ → ℕ → Type 0
IsStop s xs zero = Unit
IsStop s xs (suc i) =
    (mem (suc i) xs ≡ true)
    × ((fn : FreeNode) × (get_elem? s.pools i ≡ some fn) × (0 < fn.fn_count))

module _ (fuel : ℕ) (s : Freelist) (i : ℕ) {fn : FreeNode}
    (here : get_elem? s.pools i ≡ some fn) where
  step_free : 0 < fn.fn_count → first_pool (suc fuel) s (suc i) ≡ ok (suc i)
  unfolding first_pool
  step_free pos =
      let some_free : (fn.fn_count == 0) ≡ false = ground arith in rw (here, ◌>>=◌, some_free)

  step_used :
      (q : ℕ) {l : Link}
      → fn.fn_count ≡ 0
      → get_elem? s.links (suc i) ≡ some l
      → l.next ≡ q
      → first_pool (suc fuel) s (suc i) ≡ first_pool fuel s q
  unfolding first_pool
  step_used q none_free at n =
      let test : (fn.fn_count == 0) ≡ true = ground arith in rw (here, ◌>>=◌, test, at, ◌>>=◌, n)

pub first_pool-end : (fuel : ℕ) (s : Freelist) → 0 < fuel → first_pool fuel s 0 ≡ ok 0
unfolding first_pool
first_pool-end zero s h = absurd (omega arith)
first_pool-end (suc fuel) s h = refl

pub next_at :
    (st : List Link) (p q : ℕ)
    → p < length st
    → next_of st p ≡ some q
    → (l : Link) × (get_elem? st p ≡ some l) × (l.next ≡ q)
next_at st p q h e =
    let (l, at) = link_at st p h in
    (l, at, inner (sym (ap (λ o. elim o [ none ↦ none | some l ↦ some l.next ]) at) ∙ e))

IsStop-later : (s : Freelist) (x : ℕ) (xs : List ℕ) (r : ℕ) → IsStop s xs r → IsStop s (x ∷ xs) r
IsStop-later s x xs zero h = tt
IsStop-later s x xs (suc i) h = (ground (arith, h.0), h.1)

pub first_pool-IsStop :
    (size fuel : ℕ) (s : Freelist) (x : ℕ) (xs : List ℕ)
    → Segment s.links x xs 0
    → mem 0 (x ∷ xs) ≡ false
    → Within (length s.links) (x ∷ xs)
    → length s.links ≡ suc (length s.pools)
    → AllPools size s.pools
    → length xs + 2 ≤ fuel
    → (r : ℕ) × (first_pool fuel s x ≡ ok r) × IsStop s (x ∷ xs) r
first_pool-IsStop size zero s x xs h z w len all f = absurd (omega arith)
first_pool-IsStop size (suc fuel) s zero xs h z w len all f = cc
first_pool-IsStop size (suc zero) s (suc i) xs h z w len all f = absurd (omega arith)
first_pool-IsStop size (suc (suc fuel)) s (suc i) [] h z (i_in, w) len all f =
    let (fn, here, pool) = IsPool-at size s.pools i all (omega arith) in
    elim (Bool-cases (fn.fn_count == 0)) [
      | inr some_free ↦
          let pos : 0 < fn.fn_count = ground (arith, some_free) in
          (suc i, step_free (suc fuel) s i here pos, (ground arith, (fn, here, pos)))
      | inl none_free ↦
          let e = (==_iff fn.fn_count 0).0 none_free in
          let (l, at, n) = next_at s.links (suc i) 0 i_in h.0 in
          (
            0,
            step_used (suc fuel) s i here 0 e at n ∙ first_pool-end (suc fuel) s (omega arith),
            tt,
          )
    ]
first_pool-IsStop size (suc (suc fuel)) s (suc i) (y ∷ ys) h z (i_in, w) len all f =
    let (fn, here, pool) = IsPool-at size s.pools i all (omega arith) in
    elim (Bool-cases (fn.fn_count == 0)) [
      | inr some_free ↦
          let pos : 0 < fn.fn_count = ground (arith, some_free) in
          (suc i, step_free (suc fuel) s i here pos, (ground arith, (fn, here, pos)))
      | inl none_free ↦
          let e = (==_iff fn.fn_count 0).0 none_free in
          let (l, at, n) = next_at s.links (suc i) y i_in h.0.0 in
          let (r, ran, stop) =
            first_pool-IsStop size (suc fuel) s y ys h.1 (later z) w len all (omega arith) in
          (r, step_used (suc fuel) s i here y e at n ∙ ran, IsStop-later s (suc i) (y ∷ ys) r stop)
    ]
  where
    later : mem 0 (suc i ∷ y ∷ ys) ≡ false → mem 0 (y ∷ ys) ≡ false
    later z = ground (arith, z)
