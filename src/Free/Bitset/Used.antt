-- ===== src/Free/Bitset/Used.antt =====
-- How many slots of a word are marked.
use mepl.Prelude.{
  ℕ, ◌+◌, ◌*◌, ◌/◌, ◌%◌, ◌≤◌, ◌<◌, ◌≡◌, ◌≢◌, sym, ap, ◌∙◌, subst, ==_iff, true, false, not, ◌&&◌,
  ◌||◌, List, arith, ◌==◌, Bool-cases, inl, inr, get_or,
}
use mepl.Free.Word.{bit, bit-zero}
use mepl.Free.Count.{ones, ones-all, ones-same, ones-set, ones-clear}
use mepl.Free.Bitset.Slots.{marked}

abbrev pub used : List ℕ → ℕ → ℕ
used ws i = ones 64 (get_or ws i 0)

bit-marked : (ws : List ℕ) (i j : ℕ) → j < 64 → bit j (get_or ws i 0) ≡ marked ws (i * 64 + j)
bit-marked ws i j l =
    let word : i ≡ (i * 64 + j) / 64 = omega arith in
    let place : j ≡ (i * 64 + j) % 64 = omega arith in
    ap (λ k. bit j (get_or ws k 0)) word ∙ ap (λ p. bit p (get_or ws ((i * 64 + j) / 64) 0)) place

pub used-full :
    (ws : List ℕ) (i : ℕ) → ((j : ℕ) → j < 64 → marked ws (i * 64 + j) ≡ true) → used ws i ≡ 64
used-full ws i h = ones-all 64 (get_or ws i 0) (λ j l. bit-marked ws i j l ∙ h j l)

pub used-none :
    (ws : List ℕ) (i : ℕ) → ((j : ℕ) → j < 64 → marked ws (i * 64 + j) ≡ false) → used ws i ≡ 0
used-none ws i h =
    ones-same 64 (get_or ws i 0) 0 (λ j l. bit-marked ws i j l ∙ h j l ∙ sym (bit-zero j))

module _ (vs ws : List ℕ) (n : ℕ) where
  pub used-set :
      marked ws n ≡ false
      → ((m : ℕ) → marked vs m ≡ (n == m || marked ws m))
      → used vs (n / 64) ≡ used ws (n / 64) + 1
  used-set e h =
      ones-set 64 (n % 64) (get_or vs (n / 64) 0) (get_or ws (n / 64) 0) (omega arith) e (λ i l.
        bit-marked vs (n / 64) i l
        ∙ h (n / 64 * 64 + i)
        ∙ ap (λ b. b || marked ws (n / 64 * 64 + i)) (digit i l)
        ∙ ap (λ b. n % 64 == i || b) (sym (bit-marked ws (n / 64) i l)))
    where
      digit : (i : ℕ) → i < 64 → (n == n / 64 * 64 + i) ≡ (n % 64 == i)
      digit i l = ground arith

  pub used-set_other :
      (i : ℕ)
      → i ≢ n / 64
      → ((m : ℕ) → marked vs m ≡ (n == m || marked ws m))
      → used vs i ≡ used ws i
  used-set_other i ne h = ones-same 64 (get_or vs i 0) (get_or ws i 0) (λ j l.
      bit-marked vs i j l
      ∙ h (i * 64 + j)
      ∙ ap (λ b. b || marked ws (i * 64 + j)) (digit j l)
      ∙ sym (bit-marked ws i j l))
    where
      digit : (j : ℕ) → j < 64 → (n == i * 64 + j) ≡ false
      digit j l = ground arith

  pub used-clear :
      (i : ℕ) → ((m : ℕ) → marked vs m ≡ (not (n == m) && marked ws m)) → used vs i ≤ used ws i
  used-clear i h = elim (Bool-cases (i == n / 64)) [
    | inl here ↦
        let e = (==_iff i (n / 64)).0 here in
        ones-clear 64 (n % 64) (get_or vs i 0) (get_or ws i 0) (λ j l.
          bit-marked vs i j l
          ∙ h (i * 64 + j)
          ∙ ap (λ b. not b && marked ws (i * 64 + j)) (digit j l e)
          ∙ ap (λ b. not (n % 64 == j) && b) (sym (bit-marked ws i j l)))
    | inr other ↦
        let same = ones-same 64 (get_or vs i 0) (get_or ws i 0) (λ j l.
          bit-marked vs i j l
          ∙ h (i * 64 + j)
          ∙ ap (λ b. not b && marked ws (i * 64 + j)) (other_digit j l (ground (arith, other)))
          ∙ sym (bit-marked ws i j l)) in
        omega (arith, same)
  ]
    where
      digit : (j : ℕ) → j < 64 → i ≡ n / 64 → (n == i * 64 + j) ≡ (n % 64 == j)
      digit j l e = ground arith

      other_digit : (j : ℕ) → j < 64 → i ≢ n / 64 → (n == i * 64 + j) ≡ false
      other_digit j l ne = ground arith

  pub used-set_le :
      (i : ℕ)
      → marked ws n ≡ false
      → ((m : ℕ) → marked vs m ≡ (n == m || marked ws m))
      → used vs i ≤ used ws i + 1
  used-set_le i e h = elim (Bool-cases (i == n / 64)) [
    | inl here ↦
        let at = (==_iff i (n / 64)).0 here in
        subst (λ j. used vs j ≤ used ws j + 1) (sym at) (omega (arith, used-set e h))
    | inr other ↦ omega (arith, used-set_other i (ground (arith, other)) h)
  ]
