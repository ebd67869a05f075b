-- ===== src/Free/Word.antt =====
-- The binary digits of numbers.
use mepl.Prelude.{
  ℕ, zero, suc, ◌+◌, ◌-◌, ◌*◌, ◌/◌, ◌%◌, ◌^◌, ◌≤◌, ◌<◌, ◌≡◌, refl, sym, ap, ◌∙◌, subst, Bool, false,
  not, ◌&&◌, ◌||◌, arith, ◌==◌,
}
use Prim.Native.Nat.{bit_and, bit_or, min, max, digits, bit_and-bitwise, bit_or-bitwise}

-- Whether the digit with the place `j` is one.
abbrev pub bit : ℕ → ℕ → Bool
bit zero w = w % 2 == 1
bit (suc j) w = bit j (w / 2)

pub bit-zero : (j : ℕ) → bit j 0 ≡ false
bit-zero zero = refl
bit-zero (suc j) = bit-zero j

-- The digits of a number that is put together of its half and its last digit.
half : (x d : ℕ) → d < 2 → (x * 2 + d) / 2 ≡ x
half x d h = omega arith

last_digit : (x d : ℕ) → d < 2 → (x * 2 + d) % 2 ≡ d
last_digit x d h = omega arith

max-digits : (a b : ℕ) → a < 2 → b < 2 → (max a b < 2) × ((max a b == 1) ≡ (a == 1 || b == 1))
max-digits zero zero k l = (omega arith, refl)
max-digits zero (suc zero) k l = (omega arith, refl)
max-digits zero (suc (suc b)) k l = absurd (omega arith)
max-digits (suc zero) zero k l = (omega arith, refl)
max-digits (suc zero) (suc zero) k l = (omega arith, refl)
max-digits (suc zero) (suc (suc b)) k l = absurd (omega arith)
max-digits (suc (suc a)) b k l = absurd (omega arith)

min-digits : (a b : ℕ) → a < 2 → b < 2 → (min a b < 2) × ((min a b == 1) ≡ (a == 1 && b == 1))
min-digits zero zero k l = (omega arith, refl)
min-digits zero (suc zero) k l = (omega arith, refl)
min-digits zero (suc (suc b)) k l = absurd (omega arith)
min-digits (suc zero) zero k l = (omega arith, refl)
min-digits (suc zero) (suc zero) k l = (omega arith, refl)
min-digits (suc zero) (suc (suc b)) k l = absurd (omega arith)
min-digits (suc (suc a)) b k l = absurd (omega arith)

abbrev ors : ℕ → ℕ → ℕ → ℕ
ors fuel a b = digits (λ b. b) max fuel a b

abbrev ands : ℕ → ℕ → ℕ → ℕ
ands fuel a b = digits (λ b. zero) min fuel a b

bit-ors : (fuel j a b : ℕ) → a ≤ fuel → bit j (ors fuel a b) ≡ (bit j a || bit j b)
bit-ors zero j zero b h = rw (bit-zero j)
bit-ors zero j (suc a) b h = absurd (omega arith)
bit-ors (suc fuel) j zero b h = rw (bit-zero j)
bit-ors (suc fuel) zero (suc a) b h =
    let (small, same) = max-digits (suc a % 2) (b % 2) (omega arith) (omega arith) in
    rw (last_digit (ors fuel (suc a / 2) (b / 2)) (max (suc a % 2) (b % 2)) small) same
bit-ors (suc fuel) (suc j) (suc a) b h =
    let (small, same) = max-digits (suc a % 2) (b % 2) (omega arith) (omega arith) in
    rw (half (ors fuel (suc a / 2) (b / 2)) (max (suc a % 2) (b % 2)) small)
      (bit-ors fuel j (suc a / 2) (b / 2) (omega arith))

bit-ands : (fuel j a b : ℕ) → a ≤ fuel → bit j (ands fuel a b) ≡ (bit j a && bit j b)
bit-ands zero j zero b h = rw (bit-zero j)
bit-ands zero j (suc a) b h = absurd (omega arith)
bit-ands (suc fuel) j zero b h = rw (bit-zero j)
bit-ands (suc fuel) zero (suc a) b h =
    let (small, same) = min-digits (suc a % 2) (b % 2) (omega arith) (omega arith) in
    rw (last_digit (ands fuel (suc a / 2) (b / 2)) (min (suc a % 2) (b % 2)) small) same
bit-ands (suc fuel) (suc j) (suc a) b h =
    let (small, same) = min-digits (suc a % 2) (b % 2) (omega arith) (omega arith) in
    rw (half (ands fuel (suc a / 2) (b / 2)) (min (suc a % 2) (b % 2)) small)
      (bit-ands fuel j (suc a / 2) (b / 2) (omega arith))

pub bit-or : (j a b : ℕ) → bit j (bit_or a b) ≡ (bit j a || bit j b)
bit-or j a b = ap (bit j) (bit_or-bitwise a b) ∙ bit-ors a j a b (omega arith)

pub bit-and : (j a b : ℕ) → bit j (bit_and a b) ≡ (bit j a && bit j b)
bit-and j a b = ap (bit j) (bit_and-bitwise a b) ∙ bit-ands a j a b (omega arith)

ors-small : (fuel n a b : ℕ) → a ≤ fuel → a < 2 ^ n → b < 2 ^ n → ors fuel a b < 2 ^ n
ors-small zero n a b h k l = l
ors-small (suc fuel) n zero b h k l = l
ors-small (suc fuel) zero (suc a) b h k l = absurd (omega arith)
ors-small (suc fuel) (suc n) (suc a) b h k l =
    let (small, same) = max-digits (suc a % 2) (b % 2) (omega arith) (omega arith) in
    let rest = ors-small fuel n (suc a / 2) (b / 2) (omega arith) (omega arith) (omega arith) in
    omega (arith, small, rest)

pub or-small : (n a b : ℕ) → a < 2 ^ n → b < 2 ^ n → bit_or a b < 2 ^ n
or-small n a b k l =
    subst (λ x. x < 2 ^ n) (sym (bit_or-bitwise a b)) (ors-small a n a b (omega arith) k l)

ands-small : (fuel n a b : ℕ) → a ≤ fuel → a < 2 ^ n → ands fuel a b < 2 ^ n
ands-small zero n zero b h k = k
ands-small zero n (suc a) b h k = absurd (omega arith)
ands-small (suc fuel) n zero b h k = k
ands-small (suc fuel) zero (suc a) b h k = absurd (omega arith)
ands-small (suc fuel) (suc n) (suc a) b h k =
    let (small, same) = min-digits (suc a % 2) (b % 2) (omega arith) (omega arith) in
    let rest = ands-small fuel n (suc a / 2) (b / 2) (omega arith) (omega arith) in
    omega (arith, small, rest)

pub and-small : (n a b : ℕ) → a < 2 ^ n → bit_and a b < 2 ^ n
and-small n a b k =
    subst (λ x. x < 2 ^ n) (sym (bit_and-bitwise a b)) (ands-small a n a b (omega arith) k)

pub bit-power : (j k : ℕ) → bit j (2 ^ k) ≡ (k == j)
bit-power zero zero = refl
bit-power (suc j) zero = bit-zero j ∙ ground arith
bit-power zero (suc k) = let even : 2 ^ suc k % 2 ≡ 0 = omega arith in rw even (ground arith)
bit-power (suc j) (suc k) =
    let back : 2 ^ suc k / 2 ≡ 2 ^ k = omega arith in rw back (bit-power j k ∙ ground arith)

-- ~w for a number of `n` digits.
pub bit-not : (n j w : ℕ) → w < 2 ^ n → j < n → bit j (2 ^ n - 1 - w) ≡ not (bit j w)
bit-not zero j w h l = absurd (omega arith)
bit-not (suc n) zero w h l = ground arith
bit-not (suc n) (suc j) w h l =
    let back : (2 ^ suc n - 1 - w) / 2 ≡ 2 ^ n - 1 - w / 2 = omega arith in
    rw back (bit-not n j (w / 2) (omega arith) (omega arith))
