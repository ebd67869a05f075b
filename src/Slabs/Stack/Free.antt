-- ===== src/Slabs/Stack/Free.antt =====
-- The free elements, the one that is handed out next first.
use mepl.Prelude.{
  ℕ, zero, suc, ◌+◌, ◌≤◌, ◌<◌, ◌≡◌, refl, sym, ap, ◌∙◌, subst, true, false, none, some, List, [],
  ◌∷◌, arith, ltb, length, get_elem?, set, length-set, get_elem?-set_self, get_elem?-set_ne, ok,
  fault, ◌>>=◌,
}
use mepl.Slabs.Stack.{FreeStack, free_write, init_from, stack_init, stack_get, stack_put}

abbrev pub Below : List ℕ → List ℕ → Type 0
Below free [] = Unit
Below free (p ∷ xs) = (get_elem? free (length xs) ≡ some p) × Below free xs

abbrev pub IsStack : ℕ → FreeStack → List ℕ → Type 0
IsStack size sp xs =
    (length sp.free ≡ size) × (sp.fp ≡ length xs) × (length xs ≤ size) × Below sp.free xs

-- All elements of the pool, as init leaves them.
abbrev pub all_free : ℕ → ℕ → List ℕ
all_free pool zero = []
all_free pool (suc n) = (pool + n) ∷ all_free pool n

pub length-all_free : (pool n : ℕ) → length (all_free pool n) ≡ n
length-all_free pool zero = refl
length-all_free pool (suc n) = ap suc (length-all_free pool n)

Below-set : (free xs : List ℕ) (i p : ℕ) → Below free xs → length xs ≤ i → Below (set free i p) xs
Below-set free [] i p h l = tt
Below-set free (x ∷ xs) i p h l = (
  get_elem?-set_ne free p (λ e. omega (arith, l, e)) ∙ h.0,
  Below-set free xs i p h.1 (omega arith),
)

init_from-Below :
    (rounds : ℕ) (sp : FreeStack) (i : ℕ)
    → i + rounds ≡ length sp.free
    → Below sp.free (all_free sp.pool i)
    → (sp' : FreeStack) × (init_from rounds sp i ≡ ok sp')
      × (sp'.pool ≡ sp.pool)
      × (length sp'.free ≡ length sp.free)
      × Below sp'.free (all_free sp.pool (i + rounds))
unfolding init_from free_write
init_from-Below zero sp i e h =
    let same : i ≡ i + 0 = omega arith in
    (sp, refl, refl, refl, subst (λ k. Below sp.free (all_free sp.pool k)) same h)
init_from-Below (suc rounds) sp i e h =
    let inside : i < length sp.free = omega arith in
    let sp1 : FreeStack = record sp { free = set sp.free i (sp.pool + i) } in
    let len = length-set sp.free i (sp.pool + i) in
    let test : ltb i (length sp.free) ≡ true = ground (arith, inside) in
    let low = length-all_free sp.pool i in
    let more : Below sp1.free (all_free sp.pool (suc i)) = (
      ap (get_elem? sp1.free) low ∙ get_elem?-set_self sp.free i (sp.pool + i) inside,
      Below-set sp.free (all_free sp.pool i) i (sp.pool + i) h (omega (arith, low)),
    ) in
    let one_up : suc i ≡ i + 1 = omega arith in
    let (sp', ran, pool, size, all) =
      init_from-Below rounds sp1 (i + 1) (omega (arith, len, e))
        (subst (λ k. Below sp1.free (all_free sp.pool k)) one_up more) in
    let end : i + 1 + rounds ≡ i + suc rounds = omega arith in
    (
      sp',
      rw (test, ◌>>=◌) ran,
      pool,
      size ∙ len,
      subst (λ k. Below sp'.free (all_free sp.pool k)) end all,
    )

-- With SIZE places for pointers, init makes a stack of all elements of the pool, the last one on
-- top.
pub stack_init-IsStack :
    (size : ℕ) (sp : FreeStack)
    → length sp.free ≡ size
    → (sp' : FreeStack) × (stack_init size sp ≡ ok sp')
      × IsStack size sp' (all_free sp.pool size)
      × (sp'.pool ≡ sp.pool)
unfolding stack_init
stack_init-IsStack size sp e =
    let (sp', ran, pool, len, all) = init_from-Below size sp 0 (omega (arith, e)) tt in
    let count = length-all_free sp.pool size in
    let start : 0 + size ≡ size = omega arith in
    (
      record sp' { fp = size },
      rw ran,
      (
        len ∙ e,
        sym count,
        omega (arith, count),
        subst (λ k. Below sp'.free (all_free sp.pool k)) start all,
      ),
      pool,
    )

module _ (size : ℕ) (sp : FreeStack) (p : ℕ) (xs : List ℕ) where
  -- From a stack with the element `p` on top, get hands out `p`, and the others stay.
  pub stack_get-IsStack :
      IsStack size sp (p ∷ xs)
      → (sp' : FreeStack) × (stack_get sp ≡ ok (p, sp'))
        × IsStack size sp' xs
        × (sp'.pool ≡ sp.pool)
  unfolding stack_get
  stack_get-IsStack (len, e, l, h) =
      (record sp { fp = length xs }, rw (e, h.0), (len, refl, omega (arith, l), h.1), refl)

  -- To a stack that is not full, put adds the element on top, and clears the caller's pointer.
  pub stack_put-IsStack :
      IsStack size sp xs
      → length xs < size
      → (sp' : FreeStack) × (stack_put sp p ≡ ok (none, sp'))
        × IsStack size sp' (p ∷ xs)
        × (sp'.pool ≡ sp.pool)
  unfolding stack_put free_write
  stack_put-IsStack (len, e, l, h) room =
      let inside : length xs < length sp.free = omega (arith, len, room) in
      let test : ltb (length xs) (length sp.free) ≡ true = ground (arith, inside) in
      (
        record sp { free = set sp.free (length xs) p; fp = length xs + 1 },
        rw (e, test),
        (
          length-set sp.free (length xs) p ∙ len,
          omega arith,
          omega (arith, room),
          (
            get_elem?-set_self sp.free (length xs) p inside,
            Below-set sp.free xs (length xs) p h (omega arith),
          ),
        ),
        refl,
      )

-- Where nothing is free, get reads in front of the array.
pub stack_get-fault : (size : ℕ) (sp : FreeStack) → IsStack size sp [] → stack_get sp ≡ fault
unfolding stack_get
stack_get-fault size sp (len, e, l, h) = rw e

-- To a full stack, put writes behind the array.
pub stack_put-fault :
    (size : ℕ) (sp : FreeStack) (p : ℕ) (xs : List ℕ)
    → IsStack size sp xs
    → length xs ≡ size
    → stack_put sp p ≡ fault
unfolding stack_put free_write
stack_put-fault size sp p xs (len, e, l, h) full =
    let test : ltb sp.fp (length sp.free) ≡ false = ground (arith, len, e, full) in rw test
