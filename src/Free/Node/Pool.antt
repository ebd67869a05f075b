-- ===== src/Free/Node/Pool.antt =====
-- A pool that counts free slots has one, and hands it out.
use mepl.Prelude.{
  ℕ, zero, suc, ◌+◌, ◌-◌, ◌*◌, ◌/◌, ◌%◌, ◌^◌, ◌≤◌, ◌<◌, ◌≡◌, refl, ap, ◌∙◌, subst, ==_iff, Bool,
  true, false, not, ◌&&◌, ◌||◌, some, arith, leb, ◌==◌, Bool-cases, inl, inr, set, replicate,
  get_or, length-replicate, ok, ◌>>=◌,
}
use mepl.Free.Word.{bit, bit-zero}
use mepl.Free.Count.{ones-some}
use mepl.Free.Bitset.{Bitset, bitset_init, bitset_first_zero, bitset_set}
use mepl.Free.Bitset.Slots.{marked, Words, IsBitset, bitset_set-marked, bitset_clear-marked}
use mepl.Free.Bitset.First.{bitset_first_zero-IsFirst}
use mepl.Free.Bitset.Used.{used, used-none, used-clear}
use mepl.Free.Node.{FreeNode, free_node_init, free_node_put, free_node_get}
use mepl.Free.Node.High.{IsHigh, IsPool, not_full, taken}

get_steps :
    (size : ℕ) (fn : FreeNode) (n : ℕ) {free free' : Bitset}
    → bitset_first_zero size fn.fn_free ≡ ok (n, free)
    → bitset_set free n ≡ ok free'
    → 0 < fn.fn_count
    → fn.fn_count < 2 ^ 64
    → free_node_get size true fn
      ≡ ok (some n, record { fn_free = free'; fn_count = fn.fn_count - 1 })
unfolding free_node_get
get_steps size fn n {free} {free'} e f pos top =
    let less : (fn.fn_count + (2 ^ 64 - 1)) % 2 ^ 64 ≡ fn.fn_count - 1 = omega (arith, pos, top) in
    rw (e, ◌>>=◌, f) (ap (λ c. ok (some n, record { fn_free = free'; fn_count = c })) less)

-- On a pool that counts a free slot, free_node_get() with memory for the new struct gives a slot of
-- the pool that was not marked. It is marked then, the others as before, the count is one less, and
-- the pool is in order.
pub free_node_get-IsPool :
    (size : ℕ) (fn : FreeNode)
    → IsPool size fn
    → 0 < fn.fn_count
    → (ptr : ℕ) × (fn' : FreeNode) × (free_node_get size true fn ≡ ok (some ptr, fn'))
      × (ptr < size)
      × (marked fn.fn_free.words ptr ≡ false)
      × IsPool size fn'
      × (fn'.fn_count ≡ fn.fn_count - 1)
      × ((m : ℕ) → marked fn'.fn_free.words m ≡ (ptr == m || marked fn.fn_free.words m))
free_node_get-IsPool size fn (valid, (high, at)) pos =
    let (len, ws, whole, top) = valid in
    let (h, low, room, behind) = at in
    let (n, b', e, found) =
      bitset_first_zero-IsFirst size fn.fn_free valid (omega (arith, h, low)) in
    elim found [
      | inr (is_end, all, same) ↦ absurd (not_full size fn high at whole pos all)
      | inl (from, inside, unmarked, passed, same) ↦
          let e' = e ∙ ap (λ b. ok (n, b)) same in
          let valid' : IsBitset size (record fn.fn_free { last = n / 64 }) = valid in
          let (b'', set, valid'', last, marks) =
            bitset_set-marked size n (record fn.fn_free { last = n / 64 }) valid' inside in
          let fn' : FreeNode = record { fn_free = b''; fn_count = fn.fn_count - 1 } in
          let (high', at') =
            taken size fn high at b''.words n inside whole pos unmarked passed marks in
          let (h', low', room', behind') = at' in
          (
            n,
            fn',
            get_steps size fn n e' set pos (omega (arith, room, top)),
            inside,
            unmarked,
            (valid'', (high', (h', omega (arith, last, low'), room', behind'))),
            refl,
            marks,
          )
    ]

marked_within :
    (size : ℕ) (fn : FreeNode) (high : ℕ)
    → IsHigh size fn high
    → (ptr : ℕ) → marked fn.fn_free.words ptr ≡ true
    → ptr / 64 ≤ high
marked_within size fn high (h, low, room, behind) ptr e = elim (Bool-cases (leb (ptr / 64) high)) [
  | inl within ↦ ground (arith, within)
  | inr beyond ↦
      let far : high + 1 ≤ ptr / 64 = ground (arith, beyond) in
      let at : (high + 1) * 64 + (ptr - (high + 1) * 64) ≡ ptr = omega (arith, far) in
      let free =
        subst (λ m. marked fn.fn_free.words m ≡ false) at (behind (ptr - (high + 1) * 64)) in
      absurd (clash e free)
]
  where
    clash : {b : Bool} → b ≡ true → b ≡ false → ⊥
    clash e f = cc

-- A pool with a marked slot does not count all of them.
pub count_below :
    (size : ℕ) (fn : FreeNode) (ptr : ℕ)
    → IsPool size fn
    → marked fn.fn_free.words ptr ≡ true
    → fn.fn_count < size
count_below size fn ptr (valid, (high, at)) e =
    let (h, low, room, behind) = at in
    let word = marked_within size fn high at ptr e in
    let some_used : 0 < used fn.fn_free.words (ptr / 64) =
      ones-some 64 (ptr % 64) (get_or fn.fn_free.words (ptr / 64) 0) (omega arith) e in
    elim (Bool-cases (ptr / 64 == high)) [
      | inl here ↦
          let same = (==_iff (ptr / 64) high).0 here in
          let some_high = subst (λ k. 0 < used fn.fn_free.words k) same some_used in
          omega (arith, some_high, room)
      | inr other ↦
          let less : ptr / 64 < high = ground (arith, other, word) in omega (arith, less, room)
    ]

-- On a pool in order, free_node_put() of a marked slot of it succeeds. It is not marked then, the
-- others are as before, the count is the same, and the pool is in order.
pub free_node_put-IsPool :
    (size : ℕ) (fn : FreeNode) (ptr : ℕ)
    → IsPool size fn
    → ptr < size
    → marked fn.fn_free.words ptr ≡ true
    → (fn' : FreeNode) × (free_node_put fn ptr ≡ ok fn')
      × IsPool size fn'
      × (fn'.fn_count ≡ fn.fn_count)
      × ((m : ℕ) → marked fn'.fn_free.words m ≡ (not (ptr == m) && marked fn.fn_free.words m))
unfolding free_node_put
free_node_put-IsPool size fn ptr (valid, (high, at)) inside used_slot =
    let (h, low, room, behind) = at in
    let (b, e, valid', last, marks) = bitset_clear-marked size ptr fn.fn_free valid inside in
    let fewer = used-clear b.words fn.fn_free.words ptr high marks in
    let word : ptr / 64 ≤ high = marked_within size fn high at ptr used_slot in
    (
      record fn { fn_free = b },
      rw e,
      (
        valid',
        (
          high,
          (
            h,
            omega (arith, last, word),
            omega (arith, fewer, room),
            λ k. marks ((high + 1) * 64 + k) ∙ still_free ((high + 1) * 64 + k) (behind k),
          ),
        ),
      ),
      refl,
      marks,
    )
  where
    still_free :
        (m : ℕ)
        → marked fn.fn_free.words m ≡ false
        → (not (ptr == m) && marked fn.fn_free.words m) ≡ false
    still_free m e = ground (arith, e)

Words-zeros : (n : ℕ) → Words (replicate n 0)
Words-zeros zero = tt
Words-zeros (suc n) = (omega arith, Words-zeros n)

get_or-zeros : (n i : ℕ) → get_or {A = ℕ} (replicate n 0) i 0 ≡ 0
get_or-zeros zero i = refl
get_or-zeros (suc n) zero = refl
get_or-zeros (suc n) (suc i) = get_or-zeros n i

marked-zeros : (n m : ℕ) → marked (replicate n 0) m ≡ false
marked-zeros n m = ap (bit (m % 64)) (get_or-zeros n (m / 64)) ∙ bit-zero (m % 64)

-- For a POOL_SIZE of some words, free_node_init() makes a pool in order, which counts all its slots
-- and has none marked.
pub free_node_init-IsPool :
    (size : ℕ)
    → 64 ≤ size
    → size % 64 ≡ 0
    → size < 2 ^ 64
    → IsPool size (free_node_init size)
      × ((free_node_init size).fn_count ≡ size)
      × ((m : ℕ) → marked (free_node_init size).fn_free.words m ≡ false)
unfolding free_node_init bitset_init
free_node_init-IsPool size some_word whole top =
    let none_used =
      used-none (replicate (size / 64) 0) 0 (λ j l. marked-zeros (size / 64) (0 * 64 + j)) in
    (
      (
        (length-replicate (size / 64) 0, Words-zeros (size / 64), whole, top),
        (
          0,
          (
            omega arith,
            omega arith,
            omega (arith, none_used),
            λ k. marked-zeros (size / 64) ((0 + 1) * 64 + k),
          ),
        ),
      ),
      refl,
      marked-zeros (size / 64),
    )

-- On a pool that counts a free slot, free_node_put() of what free_node_get() gave brings back the
-- marks, while the count stays one less.
pub free_node_put-free_node_get :
    (size : ℕ) (fn : FreeNode)
    → IsPool size fn
    → 0 < fn.fn_count
    → (ptr : ℕ) × (fn1 : FreeNode) × (fn2 : FreeNode) × (free_node_get size true fn
        ≡ ok (some ptr, fn1))
      × (free_node_put fn1 ptr ≡ ok fn2)
      × (fn2.fn_count ≡ fn.fn_count - 1)
      × ((m : ℕ) → marked fn2.fn_free.words m ≡ marked fn.fn_free.words m)
free_node_put-free_node_get size fn pool pos =
    let (ptr, fn1, got, inside, unmarked, pool1, less, marks1) =
      free_node_get-IsPool size fn pool pos in
    let itself : marked fn1.fn_free.words ptr ≡ true =
      marks1 ptr ∙ same_slot ptr (marked fn.fn_free.words ptr) in
    let (fn2, given, pool2, same, marks2) = free_node_put-IsPool size fn1 ptr pool1 inside itself in
    (
      ptr,
      fn1,
      fn2,
      got,
      given,
      same ∙ less,
      λ m. marks2 m ∙ ap (λ b. not (ptr == m) && b) (marks1 m) ∙ back ptr m unmarked,
    )
  where
    same_slot : (n : ℕ) (b : Bool) → (n == n || b) ≡ true
    same_slot n b = ground arith

    back :
        (n m : ℕ)
        → marked fn.fn_free.words n ≡ false
        → (not (n == m) && (n == m || marked fn.fn_free.words m)) ≡ marked fn.fn_free.words m
    back n m e = elim (Bool-cases (n == m)) [
      | inl here ↦
          let at = subst (λ k. marked fn.fn_free.words k ≡ false) ((==_iff n m).0 here) e in
          rw (here, at)
      | inr other ↦ rw other
    ]
