-- ===== src/Slab/Ring/Place.antt =====
-- The places of a ring, and the indices that go round it.
use mepl.Prelude.{
  ℕ, zero, suc, ◌+◌, ◌-◌, ◌%◌, ◌^◌, ◌≤◌, ◌<◌, ◌≡◌, ◌≢◌, sym, ap, ◌∙◌, true, false, List, [], ◌∷◌,
  ◌++◌, arith, ltb, if◌then◌else◌, Bool-cases, inl, inr, length, get_elem?, get_elem?-append_left,
  get_elem?-append_self, set, get_elem?-set_self, get_elem?-set_ne,
}
use Prim.Native.Nat.{bit_and}
use mepl.Slab.{is_power_of_2}
use mepl.Slab.Mask.{mask-small, mask-power, mask-ones, power_positive}
use mepl.Slab.Ring.{wrap_inc, wrap_dec}

-- The index of the element `i` places behind the index `rd`.
abbrev pub place : ℕ → ℕ → ℕ → ℕ
place size rd i = if ltb (rd + i) size then rd + i else rd + i - size

pub power_bound : (k m : ℕ) → k ≤ m → 2 ^ k ≤ 2 ^ m
power_bound zero m h = power_positive m
power_bound (suc k) zero h = absurd (omega arith)
power_bound (suc k) (suc m) h = omega (arith, power_bound k m (omega arith))

pub is_power_of_2-power : (k : ℕ) → is_power_of_2 (2 ^ k) ≡ true
unfolding is_power_of_2
is_power_of_2-power k = ground (arith, mask-power k, power_positive k)

pub place_bound : (size rd i : ℕ) → rd < size → i ≤ size → 0 < size → place size rd i < size
place_bound size rd i h l p = ground arith

module _ (k : ℕ) (bound : k < 64) where
  pub wrap_inc-place : (p : ℕ) → p < 2 ^ k → wrap_inc p (2 ^ k) ≡ place (2 ^ k) p 1
  unfolding wrap_inc
  wrap_inc-place p h =
      let most = power_bound k 63 (omega arith) in
      let whole : (p + 1) % 2 ^ 64 ≡ p + 1 = omega arith in
      elim (Bool-cases (ltb (p + 1) (2 ^ k))) [
        | inl inside ↦ rw (whole, inside) (mask-small k (p + 1) (ground arith))
        | inr last ↦
            let end : p + 1 ≡ 2 ^ k = ground arith in
            rw (whole, last) (ap (λ a. bit_and a (2 ^ k - 1)) end ∙ mask-power k ∙ omega arith)
      ]

  pub wrap_dec-place : (p : ℕ) → p < 2 ^ k → wrap_dec p (2 ^ k) ≡ place (2 ^ k) p (2 ^ k - 1)
  unfolding wrap_dec
  wrap_dec-place zero h =
      let some_place = power_positive k in
      let all : (0 + (2 ^ 64 - 1)) % 2 ^ 64 ≡ 2 ^ 64 - 1 = omega arith in
      let inside : ltb (0 + (2 ^ k - 1)) (2 ^ k) ≡ true = ground arith in
      rw (all, inside) (mask-ones k 64 (omega arith) ∙ omega arith)
  wrap_dec-place (suc p) h =
      let most = power_bound k 63 (omega arith) in
      let whole : (suc p + (2 ^ 64 - 1)) % 2 ^ 64 ≡ p = omega arith in
      let over : ltb (suc p + (2 ^ k - 1)) (2 ^ k) ≡ false = ground arith in
      rw (whole, over) (mask-small k p (omega arith) ∙ omega arith)

module _ (size rd i : ℕ) (h : rd < size) (l : i < size) where
  pub place-step : place size (place size rd i) 1 ≡ place size rd (i + 1)
  place-step = ground arith

  pub place-front : place size (place size rd 1) i ≡ place size rd (suc i)
  place-front = ground arith

  pub place-back : place size (place size rd (i + 1)) (size - 1) ≡ place size rd i
  place-back = ground arith

  pub place_apart : (j : ℕ) → j < i → place size rd i ≢ place size rd j
  place_apart j k e = ground arith

-- What a write behind a queue leaves in its places.
pub set-at :
    {A : Type 0} (size rd : ℕ) (buf xs : List A) (v : A) (wr : ℕ)
    → rd < size
    → length xs < size
    → length buf ≡ size
    → wr ≡ place size rd (length xs)
    → ((i : ℕ) → i < length xs → get_elem? buf (place size rd i) ≡ get_elem? xs i)
    → (i : ℕ) → i < length xs + 1
    → get_elem? (set buf wr v) (place size rd i) ≡ get_elem? (xs ++ v ∷ []) i
set-at size rd buf xs v wr s room total e at i h = elim (Bool-cases (ltb i (length xs))) [
  | inl old ↦
      let before : i < length xs = ground arith in
      let apart : wr ≢ place size rd i =
        λ q. place_apart size rd (length xs) s room i before (sym e ∙ q) in
      get_elem?-set_ne buf v apart ∙ at i before ∙ sym (get_elem?-append_left xs (v ∷ []) i before)
  | inr new ↦
      let last : i ≡ length xs = ground arith in
      let inside : wr < length buf =
        omega (arith, place_bound size rd (length xs) s (omega arith) (omega arith), e, total) in
      ap (λ j. get_elem? (set buf wr v) (place size rd j)) last
      ∙ ap (λ w. get_elem? (set buf wr v) w) (sym e)
      ∙ get_elem?-set_self buf wr v inside
      ∙ sym (get_elem?-append_self xs v)
      ∙ ap (λ j. get_elem? (xs ++ v ∷ []) j) (sym last)
]
