-- ===== src/Free/Count.antt =====
-- The number of ones among the low digits of a word.
use mepl.Prelude.{
  ℕ, zero, suc, ◌+◌, ◌≤◌, ◌<◌, ◌≡◌, refl, ap, ◌∙◌, subst, ==_iff, true, false, not, ◌&&◌, ◌||◌,
  arith, ◌==◌, if◌then◌else◌, Bool-cases, inl, inr,
}
use mepl.Free.Word.{bit}

abbrev pub ones : ℕ → ℕ → ℕ
ones zero w = 0
ones (suc k) w = ones k w + (if bit k w then 1 else 0)

pub ones-le : (k w : ℕ) → ones k w ≤ k
ones-le zero w = omega arith
ones-le (suc k) w = ground (arith, ones-le k w)

-- A zero among them makes them less.
pub ones-less : (k j w : ℕ) → j < k → bit j w ≡ false → ones k w < k
ones-less zero j w l e = absurd (omega arith)
ones-less (suc k) j w l e = elim (Bool-cases (j == k)) [
  | inl here ↦
      let last : bit k w ≡ false = subst (λ i. bit i w ≡ false) ((==_iff j k).0 here) e in
      rw last (omega (arith, ones-le k w))
  | inr other ↦ let less = ones-less k j w (ground arith) e in ground (arith, less)
]

pub ones-all : (k w : ℕ) → ((j : ℕ) → j < k → bit j w ≡ true) → ones k w ≡ k
ones-all zero w h = refl
ones-all (suc k) w h =
    let last = h k (omega arith) in
    rw last (omega (arith, ones-all k w (λ j l. h j (omega (arith, l)))))

pub ones-same : (k v w : ℕ) → ((j : ℕ) → j < k → bit j v ≡ bit j w) → ones k v ≡ ones k w
ones-same zero v w h = refl
ones-same (suc k) v w h =
    let last = h k (omega arith) in
    rw last
      (ap (λ n. n + (if bit k w then 1 else 0)) (ones-same k v w (λ j l. h j (omega (arith, l)))))

pub ones-set :
    (k j v w : ℕ)
    → j < k
    → bit j w ≡ false
    → ((i : ℕ) → i < k → bit i v ≡ (j == i || bit i w))
    → ones k v ≡ ones k w + 1
ones-set zero j v w l e h = absurd (omega arith)
ones-set (suc k) j v w l e h = elim (Bool-cases (j == k)) [
  | inl here ↦
      let at = (==_iff j k).0 here in
      let low =
        ones-same k v w
          (λ i less. h i (omega (arith, less)) ∙ other_digit i (omega (arith, less, at))) in
      let was : bit k w ≡ false = subst (λ i. bit i w ≡ false) at e in
      let now : bit k v ≡ true = h k (omega arith) ∙ ap (λ b. b || bit k w) here in
      rw (was, now) (omega (arith, low))
  | inr other ↦
      let rest = ones-set k j v w (ground arith) e (λ i less. h i (omega (arith, less))) in
      let last : bit k v ≡ bit k w = h k (omega arith) ∙ ap (λ b. b || bit k w) other in
      rw last (omega (arith, rest))
]
  where
    other_digit : (i : ℕ) → i < j → (j == i || bit i w) ≡ bit i w
    other_digit i l = ground arith

pub ones-clear :
    (k j v w : ℕ) → ((i : ℕ) → i < k → bit i v ≡ (not (j == i) && bit i w)) → ones k v ≤ ones k w
ones-clear zero j v w h = omega arith
ones-clear (suc k) j v w h =
    let rest = ones-clear k j v w (λ i l. h i (omega (arith, l))) in
    let last = h k (omega arith) in rw last (ground (arith, rest))

pub ones-some : (k j w : ℕ) → j < k → bit j w ≡ true → 0 < ones k w
ones-some zero j w l e = absurd (omega arith)
ones-some (suc k) j w l e = elim (Bool-cases (j == k)) [
  | inl here ↦
      let last : bit k w ≡ true = subst (λ i. bit i w ≡ true) ((==_iff j k).0 here) e in
      rw last (omega arith)
  | inr other ↦ let rest = ones-some k j w (ground arith) e in omega (arith, rest)
]
