-- ===== src/Free/Bitset/First.antt =====
-- The search for the first slot that is not marked.
use mepl.Prelude.{
  ℕ, zero, suc, ◌+◌, ◌-◌, ◌*◌, ◌/◌, ◌%◌, ◌^◌, ◌≤◌, ◌<◌, ◌≡◌, ◌≢◌, ◌⊎◌, refl, ap, ◌∙◌, subst, ==_iff,
  Bool, true, false, not, ◌&&◌, Option, none, some, List, arith, ltb, ◌==◌, Bool-cases,
  Option-cases, inl, inr, get_elem?, get_or, get_elem?-eq-get_or, ok, ◌>>=◌,
}
use mepl.Free.Word.{bit, bit-zero, bit-not}
use mepl.Memory.{deref}
use mepl.Free.Bitset.{Bitset, inverted, ctz, word_first_zero, first_zero_from, bitset_first_zero}
use mepl.Free.Bitset.Slots.{marked, Words-get_or, IsBitset}

ctz-lowest :
    (n w : ℕ)
    → w ≢ 0
    → w < 2 ^ n
    → (ctz n w < n) × (bit (ctz n w) w ≡ true) × ((i : ℕ) → i < ctz n w → bit i w ≡ false)
ctz-lowest zero w ne l = absurd (ne (omega (arith, l)))
ctz-lowest (suc n) w ne l = elim (Bool-cases (w % 2 == 1)) [
  | inl odd ↦ rw odd (omega arith, odd, λ i l. absurd (omega (arith, l)))
  | inr even ↦
      let (less, one, zeros) =
        ctz-lowest n (w / 2) (λ e. ne (ground (arith, even, e))) (omega (arith, l)) in
      rw even (omega (arith, less), one, further w n even zeros)
]
  where
    further :
        (w n : ℕ)
        → (w % 2 == 1) ≡ false
        → ((i : ℕ) → i < ctz n (w / 2) → bit i (w / 2) ≡ false)
        → (i : ℕ) → i < suc (ctz n (w / 2))
        → bit i w ≡ false
    further w n even zeros zero l = even
    further w n even zeros (suc i) l = zeros i (omega (arith, l))

from_inverted :
    (w i : ℕ) {b : Bool} → w < 2 ^ 64 → i < 64 → bit i (inverted w) ≡ b → bit i w ≡ not b
from_inverted w i h l e = let flip = bit-not 64 i w h l in ground (arith, flip, e)

abbrev Lowest : ℕ → Option ℕ → Type 0
Lowest w none = (i : ℕ) → i < 64 → bit i w ≡ true
Lowest w (some k) = (k < 64) × (bit k w ≡ false) × ((i : ℕ) → i < k → bit i w ≡ true)

word_first_zero-Lowest : (w : ℕ) → w < 2 ^ 64 → Lowest w (word_first_zero w)
unfolding word_first_zero
word_first_zero-Lowest w h = elim (Bool-cases (inverted w == 0)) [
  | inl full ↦
      let e = (==_iff (inverted w) 0).0 full in
      rw full (λ i l. from_inverted w i h l (ap (bit i) e ∙ bit-zero i))
  | inr other ↦
      let (less, one, zeros) = ctz-lowest 64 (inverted w) (ground arith) (omega arith) in
      rw other (
        less,
        from_inverted w (ctz 64 (inverted w)) h less one,
        λ i l. from_inverted w i h (omega (arith, l, less)) (zeros i l),
      )
]

-- The slots from `from` on, `count` of them, are marked.
abbrev pub all_marked : List ℕ → ℕ → ℕ → Bool
all_marked ws from zero = true
all_marked ws from (suc count) = marked ws from && all_marked ws (suc from) count

AllFrom : List ℕ → ℕ → ℕ → Type 0
AllFrom ws from end = (m : ℕ) → from ≤ m → m < end → marked ws m ≡ true

AllFrom-all_marked :
    (ws : List ℕ) (from end count : ℕ)
    → AllFrom ws from end
    → from + count ≤ end
    → all_marked ws from count ≡ true
unfolding AllFrom
AllFrom-all_marked ws from end zero h l = refl
AllFrom-all_marked ws from end (suc count) h l =
    let first = h from (omega arith) (omega arith) in
    rw first
      (AllFrom-all_marked ws (suc from) end count (λ m k. h m (omega (arith, k))) (omega arith))

-- How a search from the slot `from` on ends: with a slot, or with none.
abbrev pub IsFirst : ℕ → Bitset → ℕ → ℕ → Bitset → Type 0
IsFirst size b from n b' =
    (from ≤ n)
    × (n < size)
    × (marked b.words n ≡ false)
    × (all_marked b.words from (n - from) ≡ true)
    × (b' ≡ record b { last = n / 64 })

abbrev pub IsFull : ℕ → Bitset → ℕ → ℕ → Bitset → Type 0
IsFull size b from n b' =
    (n ≡ 2 ^ 64 - 1) × (all_marked b.words from (size - from) ≡ true) × (b' ≡ b)

in_word : (ws : List ℕ) (i m : ℕ) → m / 64 ≡ i → marked ws m ≡ bit (m % 64) (get_or ws i 0)
in_word ws i m e = ap (λ j. bit (m % 64) (get_or ws j 0)) e

AllFrom-word :
    (ws : List ℕ) (from i k : ℕ)
    → AllFrom ws from (i * 64)
    → k ≤ 64
    → ((j : ℕ) → j < k → bit j (get_or ws i 0) ≡ true)
    → AllFrom ws from (i * 64 + k)
unfolding AllFrom
AllFrom-word ws from i k h l low m up down = elim (Bool-cases (ltb m (i * 64))) [
  | inl before ↦ h m up (ground (arith, before))
  | inr behind ↦
      let not_before : i * 64 ≤ m = ground (arith, behind) in
      let at : m / 64 ≡ i = omega (arith, down, l, not_before) in
      let less : m % 64 < k = omega (arith, down, l, not_before) in
      in_word ws i m at ∙ low (m % 64) less
]

module _ (size : ℕ) (b : Bitset) (rounds i : ℕ) {w : ℕ} (here : get_elem? b.words i ≡ some w) where
  step_full :
      word_first_zero w ≡ none
      → first_zero_from size (suc rounds) b i ≡ first_zero_from size rounds b (i + 1)
  unfolding first_zero_from
  step_full full = rw (here, deref, ◌>>=◌, full)

  step_found :
      (k : ℕ)
      → word_first_zero w ≡ some k
      → k < 64
      → i * 64 + k < size
      → size < 2 ^ 64
      → first_zero_from size (suc rounds) b i
        ≡ ok (i * 64 + k, record b { last = (i * 64 + k) / 64 })
  unfolding first_zero_from
  step_found k some_k less inside top =
      let whole : (i * 2 ^ 6 + k) % 2 ^ 64 ≡ i * 64 + k = omega arith in
      let test : ltb (i * 64 + k) size ≡ true = ground arith in
      let word : (i * 64 + k) / 64 ≡ i = omega arith in
      rw (here, deref, ◌>>=◌, some_k, whole, test, word)
        (ap (λ n. ok (n, record b { last = i })) whole)

module _ (size : ℕ) (b : Bitset) where
  -- The search has passed the slots from `from` up to the word `i`.
  search :
      (from rounds i : ℕ)
      → IsBitset size b
      → i + rounds ≡ size / 64
      → from ≤ i * 64
      → AllFrom b.words from (i * 64)
      → (n : ℕ) × (b' : Bitset) × (first_zero_from size rounds b i ≡ ok (n, b'))
        × (IsFirst size b from n b' ⊎ IsFull size b from n b')
  unfolding first_zero_from
  search from zero i (len, ws, whole, top) e l all =
      let end : size ≡ i * 64 = omega arith in
      (
        2 ^ 64 - 1,
        b,
        refl,
        inr (refl, AllFrom-all_marked b.words from (i * 64) (size - from) all (omega arith), refl),
      )
  search from (suc rounds) i valid e l all =
      let (len, ws, whole, top) = valid in
      let here = get_elem?-eq-get_or b.words i 0 (omega (arith, len)) in
      let w = get_or b.words i 0 in
      let low = word_first_zero-Lowest w (Words-get_or b.words i ws) in
      elim (Option-cases (word_first_zero w)) [
        | inl full ↦
            let ones =
              AllFrom-word b.words from i 64 all (omega arith) (subst (Lowest w) full low) in
            let next : i * 64 + 64 ≡ (i + 1) * 64 = omega arith in
            let (n, b', r, s) =
              search from rounds (i + 1) valid (omega arith) (omega arith)
                (subst (AllFrom b.words from) next ones) in
            (n, b', step_full size b rounds i here full ∙ r, s)
        | inr (k, some_k) ↦
            let (less, zero_there, below) = subst (Lowest w) some_k low in
            let n = i * 64 + k in
            let inside : n < size = omega (arith, less, whole) in
            let passed = AllFrom-word b.words from i k all (omega (arith, less)) below in
            let word : n / 64 ≡ i = omega (arith, less) in
            let place : n % 64 ≡ k = omega (arith, less) in
            let unmarked = in_word b.words i n word ∙ ap (λ j. bit j w) place ∙ zero_there in
            let before = AllFrom-all_marked b.words from n (n - from) passed (omega (arith, l)) in
            (
              n,
              record b { last = n / 64 },
              step_found size b rounds i here k some_k less inside top,
              inl (omega (arith, l), inside, unmarked, before, refl),
            )
      ]

  -- The search starts at the word `last`, which is to be one of the bitset's. It ends with the first
  -- slot from that word's on that is not marked, and starts there the next time; or, where all are
  -- marked, with -1.
  pub bitset_first_zero-IsFirst :
      IsBitset size b
      → b.last * 64 ≤ size
      → (n : ℕ) × (b' : Bitset) × (bitset_first_zero size b ≡ ok (n, b'))
        × (IsFirst size b (b.last * 64) n b' ⊎ IsFull size b (b.last * 64) n b')
  unfolding bitset_first_zero AllFrom
  bitset_first_zero-IsFirst valid inside =
      let (len, ws, whole, top) = valid in
      search (b.last * 64) (size / 64 - b.last) b.last valid (omega arith) (omega arith)
        (λ m up down. absurd (omega (arith, up, down)))
