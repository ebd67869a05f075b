-- ===== src/Free/Bitset/Slots.antt =====
-- The slots that a bitset marks.
use mepl.Prelude.{
  ℕ, zero, suc, ◌/◌, ◌%◌, ◌^◌, ◌<◌, ◌≡◌, ◌≢◌, refl, sym, ap, ◌∙◌, ==_iff, Bool, false, not, ◌&&◌,
  ◌||◌, some, List, [], ◌∷◌, arith, ◌==◌, Bool-cases, inl, inr, length, get_elem?, set, get_or,
  length-set, get_elem?-eq-get_or, ok,
}
use Prim.Native.Nat.{bit_and, bit_or}
use mepl.Slab.Mask.{mask-six}
use mepl.Free.Word.{bit, bit-or, bit-and, or-small, and-small, bit-power, bit-not}
use mepl.Free.Bitset.{Bitset, inverted, bitset_set, bitset_clear}

abbrev pub marked : List ℕ → ℕ → Bool
marked ws n = bit (n % 64) (get_or ws (n / 64) 0)

abbrev pub Words : List ℕ → Type 0
Words [] = Unit
Words (w ∷ ws) = (w < 2 ^ 64) × Words ws

abbrev pub IsBitset : ℕ → Bitset → Type 0
IsBitset size b = (length b.words ≡ size / 64) × Words b.words × (size % 64 ≡ 0) × (size < 2 ^ 64)

get_or-set_self : (ws : List ℕ) (i w : ℕ) → i < length ws → get_or (set ws i w) i 0 ≡ w
get_or-set_self [] i w h = absurd (omega arith)
get_or-set_self (v ∷ ws) zero w h = refl
get_or-set_self (v ∷ ws) (suc i) w h = get_or-set_self ws i w (omega arith)

get_or-set_ne : (ws : List ℕ) (i j w : ℕ) → i ≢ j → get_or (set ws i w) j 0 ≡ get_or ws j 0
get_or-set_ne [] i j w h = refl
get_or-set_ne (v ∷ ws) zero zero w h = absurd (h refl)
get_or-set_ne (v ∷ ws) zero (suc j) w h = refl
get_or-set_ne (v ∷ ws) (suc i) zero w h = refl
get_or-set_ne (v ∷ ws) (suc i) (suc j) w h = get_or-set_ne ws i j w (λ e. h (ap suc e))

pub Words-get_or : (ws : List ℕ) (i : ℕ) → Words ws → get_or ws i 0 < 2 ^ 64
Words-get_or [] i h = omega arith
Words-get_or (w ∷ ws) zero h = h.0
Words-get_or (w ∷ ws) (suc i) h = Words-get_or ws i h.1

Words-set : (ws : List ℕ) (i w : ℕ) → Words ws → w < 2 ^ 64 → Words (set ws i w)
Words-set [] i w h l = tt
Words-set (v ∷ ws) zero w h l = (l, h.1)
Words-set (v ∷ ws) (suc i) w h l = (h.0, Words-set ws i w h.1 l)

power_below : (k n : ℕ) → k < n → 2 ^ k < 2 ^ n
power_below k zero h = absurd (omega arith)
power_below zero (suc n) h = let rest = power_below 0 n in omega (arith, power_above n)
  where
    power_above : (n : ℕ) → 0 < 2 ^ n
    power_above zero = omega arith
    power_above (suc n) = omega (arith, power_above n)
power_below (suc k) (suc n) h = omega (arith, power_below k n (omega arith))

word_set : (j k w : ℕ) → bit j (bit_or w (2 ^ k)) ≡ (k == j || bit j w)
word_set j k w =
    let both = bit-or j w (2 ^ k) in let one = bit-power j k in ground (arith, both, one)

word_clear :
    (j k w : ℕ) → j < 64 → k < 64 → bit j (bit_and w (inverted (2 ^ k))) ≡ (not (k == j) && bit j w)
word_clear j k w l h =
    let both = bit-and j w (inverted (2 ^ k)) in
    let other = bit-not 64 j (2 ^ k) (power_below k 64 h) l in
    let one = bit-power j k in ground (arith, both, other, one)

-- In one word, two slots are the same if their places are.
same_place : (n m : ℕ) → n / 64 ≡ m / 64 → (n % 64 == m % 64) ≡ (n == m)
same_place n m e = ground arith

other_word : (n m : ℕ) → n / 64 ≢ m / 64 → (n == m) ≡ false
other_word n m ne = ground arith

-- The word of `n` is changed to `v`.
module _ (ws : List ℕ) (n v : ℕ) where
  marked-at :
      (m : ℕ) → n / 64 < length ws → n / 64 ≡ m / 64 → marked (set ws (n / 64) v) m ≡ bit (m % 64) v
  marked-at m l e =
      ap (λ i. bit (m % 64) (get_or (set ws (n / 64) v) i 0)) (sym e)
      ∙ ap (bit (m % 64)) (get_or-set_self ws (n / 64) v l)

  marked-other : (m : ℕ) → n / 64 ≢ m / 64 → marked (set ws (n / 64) v) m ≡ marked ws m
  marked-other m ne = ap (bit (m % 64)) (get_or-set_ne ws (n / 64) (m / 64) v ne)

-- The word of `n` with its digit set, or cleared.
abbrev pub with_one : List ℕ → ℕ → ℕ
with_one ws n = bit_or (get_or ws (n / 64) 0) (2 ^ (n % 64))

abbrev pub with_zero : List ℕ → ℕ → ℕ
with_zero ws n = bit_and (get_or ws (n / 64) 0) (inverted (2 ^ (n % 64)))

module _ (ws : List ℕ) (n : ℕ) (inside : n / 64 < length ws) where
  here : (m : ℕ) → n / 64 ≡ m / 64 → bit (m % 64) (get_or ws (n / 64) 0) ≡ marked ws m
  here m e = ap (λ i. bit (m % 64) (get_or ws i 0)) e

  marked-with_one : (m : ℕ) → marked (set ws (n / 64) (with_one ws n)) m ≡ (n == m || marked ws m)
  marked-with_one m = elim (Bool-cases (n / 64 == m / 64)) [
    | inl same ↦
        let e = (==_iff (n / 64) (m / 64)).0 same in
        marked-at ws n (with_one ws n) m inside e
        ∙ word_set (m % 64) (n % 64) (get_or ws (n / 64) 0)
        ∙ ap (λ b. b || bit (m % 64) (get_or ws (n / 64) 0)) (same_place n m e)
        ∙ ap (λ b. n == m || b) (here m e)
    | inr other ↦
        let ne : n / 64 ≢ m / 64 = ground arith in
        marked-other ws n (with_one ws n) m ne
        ∙ ap (λ b. b || marked ws m) (sym (other_word n m ne))
  ]

  marked-with_zero :
      (m : ℕ) → marked (set ws (n / 64) (with_zero ws n)) m ≡ (not (n == m) && marked ws m)
  marked-with_zero m = elim (Bool-cases (n / 64 == m / 64)) [
    | inl same ↦
        let e = (==_iff (n / 64) (m / 64)).0 same in
        let place : m % 64 < 64 = omega arith in
        marked-at ws n (with_zero ws n) m inside e
        ∙ word_clear (m % 64) (n % 64) (get_or ws (n / 64) 0) place (omega arith)
        ∙ ap (λ b. not b && bit (m % 64) (get_or ws (n / 64) 0)) (same_place n m e)
        ∙ ap (λ b. not (n == m) && b) (here m e)
    | inr other ↦
        let ne : n / 64 ≢ m / 64 = ground arith in
        marked-other ws n (with_zero ws n) m ne
        ∙ ap (λ b. not b && marked ws m) (sym (other_word n m ne))
  ]

module _ (size n : ℕ) (b : Bitset) where
  word_here :
      IsBitset size b
      → n < size
      → (n / 64 < length b.words) × (get_elem? b.words (n / 64) ≡ some (get_or b.words (n / 64) 0))
  word_here (len, ws, whole, top) l =
      let inside : n / 64 < length b.words = omega (arith, len, whole, l) in
      (inside, get_elem?-eq-get_or b.words (n / 64) 0 inside)

  -- For a slot that the bitset has, bitset_set() succeeds; the slots that are then marked are it and
  -- those that were marked before, and the word where the search starts is the same.
  pub bitset_set-marked :
      IsBitset size b
      → n < size
      → (b' : Bitset) × (bitset_set b n ≡ ok b')
        × IsBitset size b'
        × (b'.last ≡ b.last)
        × ((m : ℕ) → marked b'.words m ≡ (n == m || marked b.words m))
  unfolding bitset_set
  bitset_set-marked valid l =
      let (len, ws, whole, top) = valid in
      let (inside, found) = word_here valid l in
      let small =
        or-small 64 (get_or b.words (n / 64) 0) (2 ^ (n % 64)) (Words-get_or b.words (n / 64) ws)
          (power_below (n % 64) 64 (omega arith)) in
      (
        record b { words = set b.words (n / 64) (with_one b.words n) },
        rw (found, mask-six n),
        (
          length-set b.words (n / 64) (with_one b.words n) ∙ len,
          Words-set b.words (n / 64) (with_one b.words n) ws small,
          whole,
          top,
        ),
        refl,
        marked-with_one b.words n inside,
      )

  -- For a slot that the bitset has, bitset_clear() succeeds; the slots that are then marked are all
  -- others that were, and the search starts at the slot's word.
  pub bitset_clear-marked :
      IsBitset size b
      → n < size
      → (b' : Bitset) × (bitset_clear b n ≡ ok b')
        × IsBitset size b'
        × (b'.last ≡ n / 64)
        × ((m : ℕ) → marked b'.words m ≡ (not (n == m) && marked b.words m))
  unfolding bitset_clear
  bitset_clear-marked valid l =
      let (len, ws, whole, top) = valid in
      let (inside, found) = word_here valid l in
      let small =
        and-small 64 (get_or b.words (n / 64) 0) (inverted (2 ^ (n % 64)))
          (Words-get_or b.words (n / 64) ws) in
      (
        record { words = set b.words (n / 64) (with_zero b.words n); last = n / 64 },
        rw (found, mask-six n),
        (
          length-set b.words (n / 64) (with_zero b.words n) ∙ len,
          Words-set b.words (n / 64) (with_zero b.words n) ws small,
          whole,
          top,
        ),
        refl,
        marked-with_zero b.words n inside,
      )
