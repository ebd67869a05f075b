-- ===== src/Ptrset/Hash/Prime.antt =====
-- is_prime() is trial division by every smaller number.
use mepl.Prelude.{
  ℕ, zero, suc, ◌+◌, ◌-◌, ◌*◌, ◌/◌, ◌%◌, ◌^◌, ◌≤◌, ◌<◌, ◌≡◌, ◌≢◌, refl, sym, ap, ◌∙◌, subst, ==_iff,
  Bool, true, false, not, ◌&&◌, ◌||◌, arith, ltb, leb, ◌==◌, Bool-cases, inl, inr, ok,
}
use native.Mathlib.Nat.{mul-le-mul}
use mepl.Ptrset.Hash.{no_factor, is_prime, next_prime}

-- Whether no number from 2 on below `m` divides `n`.
abbrev pub none_below : ℕ → ℕ → Bool
none_below n zero = true
none_below n (suc d) = (ltb d 2 || not (n % d == 0)) && none_below n d

abbrev pub prime : ℕ → Bool
prime n = leb 2 n && none_below n n

none_below_at : (n m d : ℕ) → none_below n m ≡ true → 2 ≤ d → d < m → n % d ≢ 0
none_below_at n zero d h l k = absurd (omega arith)
none_below_at n (suc m) d h l k = ground (arith, none_below_at n m d)

none_below_not : (n m d : ℕ) → 2 ≤ d → d < m → n % d ≡ 0 → none_below n m ≡ false
none_below_not n zero d l k e = absurd (omega arith)
none_below_not n (suc m) d l k e = ground (arith, none_below_not n m d)

divided : (n k : ℕ) → 0 < k → n % k ≡ 0 → n ≡ k * (n / k)
divided n k h e = grind arith

mod-mul : (a b : ℕ) → 0 < b → (a * b) % b ≡ 0
mod-mul a b h = grind arith

cofactor_bounds : (n m k e : ℕ) → n ≡ k * e → k < n → n < m * m → m ≤ k → (2 ≤ e) × (e < m)
cofactor_bounds n m k zero eq l s h = absurd (grind arith)
cofactor_bounds n m k (suc zero) eq l s h = absurd (grind arith)
cofactor_bounds n m k (suc (suc e)) eq l s h = (
  omega arith,
  elim (Bool-cases (ltb (suc (suc e)) m)) [
    | inl less ↦ ground arith
    | inr more ↦ let above : m ≤ suc (suc e) = ground arith in absurd (too_large above)
  ],
)
  where
    too_large : m ≤ suc (suc e) → ⊥
    too_large above = let more = mul-le-mul h above in omega (arith, more, eq, s)

-- A number from `m` on divides `n` only if one below `m` does, where m * m is above `n`.
not_divided : (n m k : ℕ) → none_below n m ≡ true → n < m * m → 2 ≤ k → m ≤ k → k < n → n % k ≢ 0
not_divided n m k none_there s two h l e =
    let whole = divided n k (omega arith) e in
    let (low, high) = cofactor_bounds n m k (n / k) whole l s h in
    none_below_at n m (n / k) none_there low high
      (ap (λ a. a % (n / k)) whole ∙ mod-mul k (n / k) (omega arith))

none_below-up :
    (n m top : ℕ)
    → none_below n m ≡ true
    → n < m * m
    → 2 ≤ m
    → m ≤ top
    → top ≤ n
    → none_below n top ≡ true
none_below-up n m zero h s two l r = absurd (omega arith)
none_below-up n m (suc top) h s two l r = elim (Bool-cases (m == suc top)) [
  | inl here ↦ subst (λ k. none_below n k ≡ true) ((==_iff m (suc top)).0 here) h
  | inr further ↦
      let below : m ≤ top = ground arith in
      let rest = none_below-up n m top h s two below (omega arith) in
      let other = not_divided n m top h s (omega arith) below (omega arith) in ground arith
]

prime-above : (n m : ℕ) → none_below n m ≡ true → n < m * m → 2 ≤ m → m ≤ n → prime n ≡ true
prime-above n m h s two l = let all = none_below-up n m n h s two l (omega arith) in ground arith

square_step : (m : ℕ) → 1 ≤ m → m * m ≡ (m - 1) * (m - 1) + 2 * m - 1
square_step zero h = absurd (omega arith)
square_step (suc k) h = let low : suc k - 1 ≡ k = omega arith in rw low (grind arith)

above_square : (m n : ℕ) → 2 ≤ m → m * m ≤ n → m + 2 ≤ n
above_square m n two l =
    let self : m ≤ m = omega arith in let twice = mul-le-mul two self in omega (arith, twice)

module _ (fuel n m : ℕ) where
  no_factor-above : n < m * m → m * m < 2 ^ 64 → no_factor (suc fuel) n m ≡ ok true
  unfolding no_factor
  no_factor-above s w = ground arith

  no_factor-here : m * m ≤ n → m * m < 2 ^ 64 → n % m ≡ 0 → no_factor (suc fuel) n m ≡ ok false
  unfolding no_factor
  no_factor-here s w e = ground arith

  no_factor-next :
      m * m ≤ n → m * m < 2 ^ 64 → n % m ≢ 0 → no_factor (suc fuel) n m ≡ no_factor fuel n (m + 1)
  unfolding no_factor
  no_factor-next s w e = ground arith

-- The loop, below 2 ^ 62, where m * m does not wrap.
no_factor-prime :
    (fuel n m : ℕ)
    → none_below n m ≡ true
    → 2 ≤ m
    → m ≤ n
    → (m - 1) * (m - 1) ≤ n
    → n < 2 ^ 62
    → n < m + fuel
    → no_factor fuel n m ≡ ok (prime n)
no_factor-prime zero n m h two l q s f = absurd (omega arith)
no_factor-prime (suc fuel) n m h two l q s f =
    let step = square_step m (omega arith) in
    let whole : m * m < 2 ^ 64 = omega arith in
    elim (Bool-cases (leb (m * m) n)) [
      | inr above ↦
          let less : n < m * m = ground arith in
          no_factor-above fuel n m less whole ∙ ap ok (sym (prime-above n m h less two l))
      | inl under ↦
          let low : m * m ≤ n = ground arith in
          let room = above_square m n two low in
          elim (Bool-cases (n % m == 0)) [
            | inl divides ↦
                let e = (==_iff (n % m) 0).0 divides in
                let not_prime : prime n ≡ false =
                  let found = none_below_not n n m two (omega arith) e in ground arith in
                no_factor-here fuel n m low whole e ∙ ap ok (sym not_prime)
            | inr other ↦
                let ne : n % m ≢ 0 = ground arith in
                let next : none_below n (suc m) ≡ true = ground arith in
                let one_up : suc m ≡ m + 1 = omega arith in
                no_factor-next fuel n m low whole ne
                ∙ no_factor-prime fuel n (m + 1) (subst (λ k. none_below n k ≡ true) one_up next)
                    (omega arith) (omega arith) (square_le n m low) s (omega arith)
          ]
    ]
  where
    square_le : (n m : ℕ) → m * m ≤ n → (m + 1 - 1) * (m + 1 - 1) ≤ n
    square_le n m h = let same : m + 1 - 1 ≡ m = omega arith in rw same h

-- Below 2 ^ 62, with fuel for as many rounds as the number says, is_prime() ends, and says whether
-- the number is at least 2 and no smaller number from 2 on divides it.
pub is_prime-prime : (fuel n : ℕ) → n < 2 ^ 62 → n ≤ fuel → is_prime fuel n ≡ ok (prime n)
unfolding is_prime
is_prime-prime fuel n s f = elim (Bool-cases (leb n 1)) [
  | inl small ↦ let no : prime n ≡ false = ground arith in rw (small, no)
  | inr large ↦
      let two : 2 ≤ n = ground arith in
      rw large (no_factor-prime fuel n 2 refl (omega arith) two (omega arith) s (omega arith))
]

-- Where a prime `p` below 2 ^ 62 stands at or behind `n`, with fuel for as many rounds as `p` says
-- and rounds up to `p`, next_prime() ends with a prime from `n` to `p`.
pub next_prime-prime :
    (fuel rounds n p : ℕ)
    → prime p ≡ true
    → p < 2 ^ 62
    → p ≤ fuel
    → n ≤ p
    → p < n + rounds
    → (c : ℕ) × (next_prime fuel rounds n ≡ ok c) × (prime c ≡ true) × (n ≤ c) × (c ≤ p)
unfolding next_prime
next_prime-prime fuel zero n p h s f l r = absurd (omega arith)
next_prime-prime fuel (suc rounds) n p h s f l r =
    let tested = is_prime-prime fuel n (omega arith) (omega arith) in
    elim (Bool-cases (prime n)) [
      | inl yes_prime ↦ (n, rw (tested ∙ ap ok yes_prime), yes_prime, omega arith, l)
      | inr other ↦
          let further : n ≢ p = λ e. ground (arith) in
          let (c, e, q, low, high) =
            next_prime-prime fuel rounds (n + 1) p h s f (omega arith) (omega arith) in
          (c, rw (tested ∙ ap ok other) e, q, omega arith, high)
    ]
