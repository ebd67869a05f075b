-- ===== src/Memory/Text.antt =====
-- Bytes without a nil, and the strings that blocks hold.
use mepl.Prelude.{ℕ, zero, suc, ◌<◌, ◌≡◌, refl, List, [], ◌∷◌, ◌++◌, arith, length, ok}
use mepl.Memory.{strhash, hash_bytes, str_is, same_bytes, cstring, strlen, from_char, to_char}

abbrev pub NoNul : List ℕ → Type 0
NoNul [] = Unit
NoNul (x ∷ xs) = (0 < x) × NoNul xs

-- 7-bit text with no nil
abbrev pub Ascii : List ℕ → Type 0
Ascii [] = Unit
Ascii (x ∷ xs) = (0 < x) × (x < 128) × Ascii xs

pub Ascii-NoNul : (xs : List ℕ) → Ascii xs → NoNul xs
Ascii-NoNul [] h = tt
Ascii-NoNul (x ∷ xs) h = (h.0, Ascii-NoNul xs h.2)

pub NoNul-append : (xs ys : List ℕ) → NoNul xs → NoNul ys → NoNul (xs ++ ys)
NoNul-append [] ys h k = k
NoNul-append (x ∷ xs) ys h k = (h.0, NoNul-append xs ys h.1 k)

pub cstring-append : (xs post : List ℕ) → NoNul xs → cstring (xs ++ 0 ∷ post) ≡ ok xs
unfolding cstring
cstring-append [] post h = refl
cstring-append (zero ∷ xs) post h = absurd (omega arith)
cstring-append (suc x ∷ xs) post h = rw (cstring-append xs post h.1)

pub strlen-append : (xs post : List ℕ) → NoNul xs → strlen (xs ++ 0 ∷ post) ≡ ok (length xs)
unfolding strlen
strlen-append xs post h = rw (cstring-append xs post h)

-- What is read from a byte is stored as that byte.
pub to_char-from_char : (b : ℕ) → b < 256 → to_char (from_char b) ≡ b
unfolding to_char from_char
to_char-from_char b h = ground arith

pub NoNul-parts : (xs ys : List ℕ) → NoNul (xs ++ ys) → NoNul xs × NoNul ys
NoNul-parts [] ys h = (tt, h)
NoNul-parts (x ∷ xs) ys h = let (l, r) = NoNul-parts xs ys h.1 in ((h.0, l), r)

pub strhash-append : (xs post : List ℕ) → NoNul xs → strhash (xs ++ 0 ∷ post) ≡ ok (hash_bytes 0 xs)
unfolding strhash
strhash-append xs post h = rw (cstring-append xs post h)

pub str_is-append :
    (xs post s : List ℕ) → NoNul xs → str_is (xs ++ 0 ∷ post) s ≡ ok (same_bytes xs s)
unfolding str_is
str_is-append xs post s h = rw (cstring-append xs post h)
