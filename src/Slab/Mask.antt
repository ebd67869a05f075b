-- ===== src/Slab/Mask.antt =====
-- The low binary digits of a number, which a mask of ones takes.
use mepl.Prelude.{ℕ, zero, suc, ◌+◌, ◌-◌, ◌*◌, ◌/◌, ◌%◌, ◌^◌, ◌≤◌, ◌<◌, ◌≡◌, refl, sym, ◌∙◌, arith}
use Prim.Native.Nat.{bit_and, min, digits, bit_and-bitwise}

-- The `k` low digits.
low : ℕ → ℕ → ℕ
low zero a = 0
low (suc k) a = low k (a / 2) * 2 + a % 2

low-zero : (k : ℕ) → low k 0 ≡ 0
unfolding low
low-zero zero = refl
low-zero (suc k) = omega (arith, low-zero k)

pub power_positive : (k : ℕ) → 0 < 2 ^ k
power_positive zero = omega arith
power_positive (suc k) = omega (arith, power_positive k)

-- bit_and(), with the fuel that its definition has.
abbrev ands : ℕ → ℕ → ℕ → ℕ
ands fuel a b = digits (λ k. zero) min fuel a b

ands-low : (fuel k a : ℕ) → a ≤ fuel → ands fuel a (2 ^ k - 1) ≡ low k a
unfolding low
ands-low zero k zero h = sym (low-zero k)
ands-low zero k (suc a) h = absurd (omega arith)
ands-low (suc fuel) k zero h = sym (low-zero k)
ands-low (suc fuel) zero (suc a) h = omega (arith, ands-low fuel 0 (suc a / 2) (omega arith))
ands-low (suc fuel) (suc k) (suc a) h =
    let half : (2 ^ suc k - 1) / 2 ≡ 2 ^ k - 1 = omega (arith, power_positive k) in
    let odd : (2 ^ suc k - 1) % 2 ≡ 1 = omega (arith, power_positive k) in
    rw (half, odd) (omega (arith, ands-low fuel k (suc a / 2) (omega arith)))

bit_and-low : (k a : ℕ) → bit_and a (2 ^ k - 1) ≡ low k a
bit_and-low k a = bit_and-bitwise a (2 ^ k - 1) ∙ ands-low a k a (omega arith)

low-small : (k a : ℕ) → a < 2 ^ k → low k a ≡ a
unfolding low
low-small zero a h = omega arith
low-small (suc k) a h = omega (arith, low-small k (a / 2) (omega arith))

low-power : (k : ℕ) → low k (2 ^ k) ≡ 0
unfolding low
low-power zero = refl
low-power (suc k) =
    let half : 2 ^ suc k / 2 ≡ 2 ^ k = omega arith in rw half (omega (arith, low-power k))

low-ones : (k m : ℕ) → k ≤ m → low k (2 ^ m - 1) ≡ 2 ^ k - 1
unfolding low
low-ones zero m h = refl
low-ones (suc k) zero h = absurd (omega arith)
low-ones (suc k) (suc m) h =
    let half : (2 ^ suc m - 1) / 2 ≡ 2 ^ m - 1 = omega (arith, power_positive m) in
    rw half (omega (arith, power_positive m, power_positive k, low-ones k m (omega arith)))

pub mask-small : (k a : ℕ) → a < 2 ^ k → bit_and a (2 ^ k - 1) ≡ a
mask-small k a h = bit_and-low k a ∙ low-small k a h

pub mask-power : (k : ℕ) → bit_and (2 ^ k) (2 ^ k - 1) ≡ 0
mask-power k = bit_and-low k (2 ^ k) ∙ low-power k

pub mask-ones : (k m : ℕ) → k ≤ m → bit_and (2 ^ m - 1) (2 ^ k - 1) ≡ 2 ^ k - 1
mask-ones k m h = bit_and-low k (2 ^ m - 1) ∙ low-ones k m h

mask_six : (a : ℕ) → low 6 a ≡ a % 64
unfolding low
mask_six a = omega arith

pub mask-six : (a : ℕ) → bit_and a 63 ≡ a % 64
mask-six a = bit_and-low 6 a ∙ mask_six a
