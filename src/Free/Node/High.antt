-- ===== src/Free/Node/High.antt =====
-- A pool that counts free slots has one from the word on where the search starts.
use mepl.Prelude.{
  ℕ, zero, suc, ◌+◌, ◌-◌, ◌*◌, ◌/◌, ◌%◌, ◌≤◌, ◌<◌, ◌≡◌, ◌∙◌, subst, ==_iff, Bool, true, false, ◌&&◌,
  ◌||◌, List, arith, ltb, leb, ◌==◌, Bool-cases, inl, inr,
}
use mepl.Free.Bitset.Slots.{marked, IsBitset}
use mepl.Free.Bitset.First.{all_marked}
use mepl.Free.Bitset.Used.{used, used-full, used-none, used-set_le}
use mepl.Free.Node.{FreeNode}

-- `high` is the last word where slots were marked: those behind it are all free, and the count is no
-- more than the slots that are free in it and behind it.
abbrev pub IsHigh : ℕ → FreeNode → ℕ → Type 0
IsHigh size fn high =
    (high < size / 64)
    × (fn.fn_free.last ≤ high)
    × (fn.fn_count + high * 64 + used fn.fn_free.words high ≤ size)
    × ((k : ℕ) → marked fn.fn_free.words ((high + 1) * 64 + k) ≡ false)

abbrev pub IsPool : ℕ → FreeNode → Type 0
IsPool size fn = IsBitset size fn.fn_free × ((high : ℕ) × IsHigh size fn high)

all_marked-marked :
    (ws : List ℕ) (from count m : ℕ)
    → all_marked ws from count ≡ true
    → from ≤ m
    → m < from + count
    → marked ws m ≡ true
all_marked-marked ws from zero m h l k = absurd (omega arith)
all_marked-marked ws from (suc count) m h l k = elim (Bool-cases (from == m)) [
  | inl here ↦
      let e = (==_iff from m).0 here in
      subst (λ i. marked ws i ≡ true) e (first (marked ws from) (all_marked ws (suc from) count) h)
  | inr other ↦
      all_marked-marked ws (suc from) count m
        (rest (marked ws from) (all_marked ws (suc from) count) h) (ground arith) (omega arith)
]
  where
    first : (a b : Bool) → (a && b) ≡ true → a ≡ true
    first a b h = ground (arith, h)

    rest : (a b : Bool) → (a && b) ≡ true → b ≡ true
    rest a b h = ground (arith, h)

module _ (size : ℕ) (fn : FreeNode) (high : ℕ) (at : IsHigh size fn high) where
  -- A free slot that a search did not pass is in the word behind `high` at most.
  free_at : (k : ℕ) → marked fn.fn_free.words ((high + 1) * 64 + k) ≡ false
  free_at = at.3

  not_passed :
      (from n : ℕ)
      → from ≤ (high + 1) * 64
      → all_marked fn.fn_free.words from (n - from) ≡ true
      → n ≤ (high + 1) * 64
  not_passed from n l h = elim (Bool-cases (ltb ((high + 1) * 64) n)) [
    | inr within ↦ ground (arith, within)
    | inl beyond ↦
        let k : (high + 1) * 64 < n = ground (arith, beyond) in
        let passed =
          all_marked-marked fn.fn_free.words from (n - from) ((high + 1) * 64 + 0) h (omega arith)
            (omega arith) in
        absurd (clash passed (free_at 0))
  ]
    where
      clash : {b : Bool} → b ≡ true → b ≡ false → ⊥
      clash e f = cc

  -- Where a search passed the whole word, all its slots are marked.
  high_full :
      (from n : ℕ)
      → from ≤ high * 64
      → (high + 1) * 64 ≤ n
      → all_marked fn.fn_free.words from (n - from) ≡ true
      → used fn.fn_free.words high ≡ 64
  high_full from n l k h = used-full fn.fn_free.words high (λ j less.
      all_marked-marked fn.fn_free.words from (n - from) (high * 64 + j) h (omega (arith, less))
        (omega (arith, less)))

  behind_none : used fn.fn_free.words (high + 1) ≡ 0
  behind_none = used-none fn.fn_free.words (high + 1) (λ j l. free_at j)

  -- A pool that counts a free slot does not find all of them marked.
  pub not_full :
      size % 64 ≡ 0
      → 0 < fn.fn_count
      → all_marked fn.fn_free.words (fn.fn_free.last * 64) (size - fn.fn_free.last * 64) ≡ true
      → ⊥
  not_full whole pos all =
      let (inside, low, room, behind) = at in
      let start = fn.fn_free.last * 64 in
      let full = high_full start size (omega arith) (omega arith) all in
      let next = not_passed start size (omega arith) all in omega (arith, full, next, room, pos)

  -- The pool behind taking the slot `n`, which the search found.
  pub taken :
      (vs : List ℕ) (n : ℕ)
      → n < size
      → size % 64 ≡ 0
      → 0 < fn.fn_count
      → marked fn.fn_free.words n ≡ false
      → all_marked fn.fn_free.words (fn.fn_free.last * 64) (n - fn.fn_free.last * 64) ≡ true
      → ((m : ℕ) → marked vs m ≡ (n == m || marked fn.fn_free.words m))
      → (high' : ℕ) × IsHigh size
          (record { fn_free = record { words = vs; last = n / 64 }; fn_count = fn.fn_count - 1 })
          high'
  taken vs n inside whole pos unmarked passed marks = elim (Bool-cases (leb (n / 64) high)) [
    | inl within ↦
        let (h, low, room, behind) = at in
        let less : n / 64 ≤ high = ground (arith, within) in
        let one_more = used-set_le vs fn.fn_free.words n high unmarked marks in
        (
          high,
          (
            h,
            less,
            omega (arith, one_more, room, pos),
            λ k.
                marks ((high + 1) * 64 + k)
                ∙ other_slot ((high + 1) * 64 + k) (omega (arith, less)) (behind k),
          ),
        )
    | inr beyond ↦
        let (h, low, room, behind) = at in
        let start = fn.fn_free.last * 64 in
        let end = not_passed start n (omega arith) passed in
        let word : n / 64 ≡ high + 1 = ground (arith, beyond, end) in
        let full = high_full start n (omega arith) (omega arith) passed in
        let one_more = used-set_le vs fn.fn_free.words n (high + 1) unmarked marks in
        (
          high + 1,
          (
            omega (arith, word, inside, whole),
            omega (arith, word),
            omega (arith, one_more, behind_none, room, pos, full),
            λ k.
                marks ((high + 1 + 1) * 64 + k)
                ∙ other_slot ((high + 1 + 1) * 64 + k) (omega (arith, word))
                    (further k (behind (64 + k))),
          ),
        )
  ]
    where
      other_slot :
          (m : ℕ)
          → n < m
          → marked fn.fn_free.words m ≡ false
          → (n == m || marked fn.fn_free.words m) ≡ false
      other_slot m l e = ground (arith, e)

      further :
          (k : ℕ)
          → marked fn.fn_free.words ((high + 1) * 64 + (64 + k)) ≡ false
          → marked fn.fn_free.words ((high + 1 + 1) * 64 + k) ≡ false
      further k e =
          let same : (high + 1) * 64 + (64 + k) ≡ (high + 1 + 1) * 64 + k = omega arith in
          subst (λ m. marked fn.fn_free.words m ≡ false) same e
