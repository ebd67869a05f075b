-- ===== src/Slabs/Stack/Held.antt =====
-- Every element of the pool is free, or held by one that got it.
use mepl.Prelude.{
  one_if, count, ℕ, zero, suc, ◌+◌, ◌<◌, ◌≡◌, refl, sym, ap, ◌∙◌, ==_iff, Bool, true, false, ◌&&◌,
  ◌||◌, none, List, [], ◌∷◌, arith, ltb, leb, ◌==◌, Bool-cases, inl, inr, length, ok,
}
use mepl.Free.Links.Circle.{mem, without}
use mepl.Slabs.Stack.{
  FreeStack, stack_init, stack_get, stack_put, stack_mine, stack_full, stack_empty,
}
use mepl.Slabs.Stack.Free.{
  IsStack, all_free, length-all_free, stack_init-IsStack, stack_get-IsStack, stack_put-IsStack,
}

-- `xs` are free and `held` are not.
abbrev pub IsShared : ℕ → FreeStack → List ℕ → List ℕ → Type 0
IsShared size sp xs held =
    IsStack size sp xs
    × (length held + length xs ≡ size)
    × ((q : ℕ) → count q held + count q xs ≡ one_if (stack_mine size sp q))

count-mem : (q : ℕ) (xs : List ℕ) → mem q xs ≡ true → 0 < count q xs
count-mem q [] h = cc
count-mem q (x ∷ xs) h = ground (arith, count-mem q xs)

mem-count : (q : ℕ) (xs : List ℕ) → count q xs ≡ 0 → mem q xs ≡ false
mem-count q [] h = refl
mem-count q (x ∷ xs) h = ground (arith, mem-count q xs)

pub mem-of_count : (q : ℕ) (xs : List ℕ) → 0 < count q xs → mem q xs ≡ true
mem-of_count q [] h = absurd (omega (arith, h))
mem-of_count q (x ∷ xs) h = ground (arith, h, mem-of_count q xs)

pub count-without :
    (p q : ℕ) (xs : List ℕ)
    → mem p xs ≡ true
    → one_if (p == q) + count q (without p xs) ≡ count q xs
count-without p q [] h = cc
count-without p q (x ∷ xs) h = elim (Bool-cases (x == p)) [
  | inl here ↦ let at : x ≡ p = (==_iff x p).0 here in rw (here, at)
  | inr other ↦
      let rest = count-without p q xs (ap (λ b. b || mem p xs) (sym other) ∙ h) in
      rw other (omega (arith, rest))
]

pub length-without :
    (p : ℕ) (xs : List ℕ) → mem p xs ≡ true → suc (length (without p xs)) ≡ length xs
length-without p [] h = cc
length-without p (x ∷ xs) h = elim (Bool-cases (x == p)) [
  | inl here ↦ rw here
  | inr other ↦ rw other (ap suc (length-without p xs (ap (λ b. b || mem p xs) (sym other) ∙ h)))
]

pub count-all_free :
    (pool n q : ℕ) → count q (all_free pool n) ≡ one_if (leb pool q && ltb q (pool + n))
count-all_free pool zero q = ground arith
count-all_free pool (suc n) q = ground (arith, count-all_free pool n q)

mine-pool :
    (size q : ℕ) (sp sp' : FreeStack)
    → sp'.pool ≡ sp.pool
    → one_if (stack_mine size sp q) ≡ one_if (stack_mine size sp' q)
unfolding stack_mine
mine-pool size q sp sp' e = ap (λ a. one_if (leb a q && ltb q (a + size))) (sym e)

pub all_free-mine :
    (size q : ℕ) (sp : FreeStack)
    → 0 + count q (all_free sp.pool size) ≡ one_if (stack_mine size sp q)
unfolding stack_mine
all_free-mine size q sp = let all = count-all_free sp.pool size q in omega (arith, all)

-- With SIZE places for pointers, init makes a slab of which nothing is held.
pub stack_init-IsShared :
    (size : ℕ) (sp : FreeStack)
    → length sp.free ≡ size
    → (sp' : FreeStack) × (stack_init size sp ≡ ok sp')
      × IsShared size sp' (all_free sp.pool size) []
stack_init-IsShared size sp e =
    let (sp', ran, stack, pool) = stack_init-IsStack size sp e in
    let (len, fp, l, h) = stack in
    let all = length-all_free sp.pool size in
    (
      sp',
      ran,
      (stack, omega (arith, all), λ q. all_free-mine size q sp ∙ mine-pool size q sp sp' pool),
    )

module _ (size : ℕ) (sp : FreeStack) (xs held : List ℕ) where
  -- From a slab whose elements are each free or held, and where some are free, get hands out an
  -- element of the pool that is not held; each element is then free or held, with this one.
  pub stack_get-IsShared :
      IsShared size sp xs held
      → stack_empty sp ≡ false
      → (p : ℕ) × (sp' : FreeStack) × (ys : List ℕ) × (stack_get sp ≡ ok (p, sp'))
        × IsShared size sp' ys (p ∷ held)
        × (stack_mine size sp p ≡ true)
        × (mem p held ≡ false)
  unfolding stack_empty
  stack_get-IsShared (stack, total, counts) some_free = from_top xs stack total counts
    where
      moved :
          (q : ℕ) (ys : List ℕ) (b : Bool) {n : ℕ}
          → count q held + (one_if b + count q ys) ≡ n
          → one_if b + count q held + count q ys ≡ n
      moved q ys b e = omega (arith, e)

      is_mine :
          (p : ℕ) (ys : List ℕ)
          → count p held + (one_if (p == p) + count p ys) ≡ one_if (stack_mine size sp p)
          → stack_mine size sp p ≡ true
      is_mine p ys e = ground (arith, e)

      none_held :
          (p : ℕ) (ys : List ℕ)
          → count p held + (one_if (p == p) + count p ys) ≡ one_if (stack_mine size sp p)
          → count p held ≡ 0
      none_held p ys e = ground (arith, e)

      from_top :
          (xs : List ℕ)
          → IsStack size sp xs
          → length held + length xs ≡ size
          → ((q : ℕ) → count q held + count q xs ≡ one_if (stack_mine size sp q))
          → (p : ℕ) × (sp' : FreeStack) × (ys : List ℕ) × (stack_get sp ≡ ok (p, sp'))
            × IsShared size sp' ys (p ∷ held)
            × (stack_mine size sp p ≡ true)
            × (mem p held ≡ false)
      from_top [] (len, e, l, h) total counts = absurd (ground (arith, e, some_free))
      from_top (p ∷ ys) stack total counts =
          let (sp', got, stack', pool) = stack_get-IsStack size sp p ys stack in
          let own = counts p in
          (
            p,
            sp',
            ys,
            got,
            (
              stack',
              omega (arith, total),
              λ q. moved q ys (p == q) (counts q) ∙ mine-pool size q sp sp' pool,
            ),
            is_mine p ys own,
            mem-count p held (none_held p ys own),
          )

  -- To a slab whose elements are each free or held, put adds an element that is held, and clears the
  -- caller's pointer; each element is then free or held, with this one free.
  pub stack_put-IsShared :
      (p : ℕ)
      → IsShared size sp xs held
      → mem p held ≡ true
      → (sp' : FreeStack) × (stack_put sp p ≡ ok (none, sp'))
        × IsShared size sp' (p ∷ xs) (without p held)
  stack_put-IsShared p (stack, total, counts) is_held =
      let fewer = length-without p held is_held in
      let (sp', put, stack', pool) =
        stack_put-IsStack size sp p xs stack (omega (arith, fewer, total)) in
      (
        sp',
        put,
        (
          stack',
          omega (arith, fewer, total),
          λ q.
              moved q (p == q) (count-without p q held is_held) (counts q)
              ∙ mine-pool size q sp sp' pool,
        ),
      )
    where
      moved :
          (q : ℕ) (b : Bool) {h n : ℕ}
          → one_if b + count q (without p held) ≡ h
          → h + count q xs ≡ n
          → count q (without p held) + (one_if b + count q xs) ≡ n
      moved q b e f = omega (arith, e, f)

  -- A slab whose elements are each free or held is full when nothing is held.
  pub stack_full-IsShared : IsShared size sp xs held → stack_full size sp ≡ (length held == 0)
  unfolding stack_full
  stack_full-IsShared ((len, e, l, h), total, counts) = ground (arith, e, total)

-- What is held of a slab belongs to it.
pub held-mine :
    (size : ℕ) (sp : FreeStack) (xs held : List ℕ) (p : ℕ)
    → IsShared size sp xs held
    → mem p held ≡ true
    → stack_mine size sp p ≡ true
held-mine size sp xs held p (stack, total, counts) h =
    let own = counts p in let some_held = count-mem p held h in ground (arith, own, some_held)
