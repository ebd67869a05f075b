-- ===== src/Memory.antt =====
-- Byte arrays, `char` and `int`, and the functions of <string.h> and <ctype.h> that the code calls.
-- A block is the list of its bytes (each below 256), and a pointer into it is an offset. `char` is
-- signed and has 8 bits, as gcc has it on x86-64; <ctype.h> is that of the C locale.
pub mod Blocks
pub mod Text
use mepl.Prelude.{
  ℕ, zero, suc, ◌+◌, ◌*◌, ◌^◌, ◌-◌, ◌%◌, Bool, true, false, ◌&&◌, ◌||◌, Option, none, some, List,
  [], ◌∷◌, ◌++◌, ltb, leb, ◌==◌, if◌then◌else◌, length, get_elem?, set, Outcome, ok, fault, ◌>>=◌,
}

abbrev pub Block : Type 0
Block = List ℕ

-- `negsuc n` is -(n + 1).
pub data ℤ : Type 0 where
  pos : ℕ → ℤ
  negsuc : ℕ → ℤ

-- `int c = *p` for a `char *p`: the byte is sign-extended.
unfoldable pub from_char : ℕ → ℤ
from_char b = if ltb b 128 then pos b else negsuc (255 - b)

-- `*p = c` for an `int c`: the low 8 bits.
unfoldable pub to_char : ℤ → ℕ
to_char (pos n) = n % 256
to_char (negsuc n) = 255 - n % 256

-- `c == n` for a character constant `n`.
abbrev pub is_char : ℤ → ℕ → Bool
is_char (pos m) n = m == n
is_char (negsuc m) n = false

unfoldable pub load : Block → ℕ → Outcome ℕ
load b i = elim (get_elem? b i) [ none ↦ fault | some x ↦ ok x ]

unfoldable pub store : Block → ℕ → ℕ → Outcome Block
store b i x = if ltb i (length b) then ok (set b i x) else fault

-- The bytes from the start of the block up to its first nil.
unfoldable pub cstring : Block → Outcome (List ℕ)
cstring [] = fault
cstring (zero ∷ b) = ok []
cstring (suc x ∷ b) = do s ← cstring b; ok (suc x ∷ s)

unfoldable pub strlen : Block → Outcome ℕ
strlen b = do s ← cstring b; ok (length s)

abbrev pub same_bytes : List ℕ → List ℕ → Bool
same_bytes [] [] = true
same_bytes (x ∷ xs) (y ∷ ys) = x == y && same_bytes xs ys
same_bytes _ _ = false

-- strcmp(a, s) == 0, for a literal with the bytes `s`.
unfoldable pub str_is : Block → List ℕ → Outcome Bool
str_is a s = do t ← cstring a; ok (same_bytes t s)

-- Writes `s` over the front of the block `b`, for as far as it reaches.
abbrev pub blit : List ℕ → Block → Block
blit [] b = b
blit (x ∷ s) [] = []
blit (x ∷ s) (y ∷ b) = x ∷ blit s b

-- strcpy(dst, src)
unfoldable pub strcpy : Block → Block → Outcome Block
strcpy dst src = do
  s ← cstring src
  if ltb (length s) (length dst) then ok (blit (s ++ 0 ∷ []) dst) else fault

unfoldable pub isspace : ℤ → Bool
isspace (pos n) = n == 32 || (leb 9 n && leb n 13)
isspace (negsuc n) = false

unfoldable pub isalpha : ℤ → Bool
isalpha (pos n) = (leb b'a' n && leb n b'z') || (leb b'A' n && leb n b'Z')
isalpha (negsuc n) = false

-- A read through a pointer that may be NULL.
abbrev pub deref {ℓ} : {A : Type ℓ} → Option A → Outcome A
deref none = fault
deref (some a) = ok a

abbrev pub is_null {ℓ} : {A : Type ℓ} → Option A → Bool
is_null none = true
is_null (some _) = false

-- RANGE(b, b + n, p) of lib/include/lib.h for a pointer `p` into the block `b`: not in the range.
abbrev pub beyond : ℕ → Option ℕ → Bool
beyond n none = true
beyond n (some p) = ltb n p

-- strhash() of lib/include/lib.h; `size_t` wraps at 2 ^ 64, and a negative `char` is sign-extended.
unfoldable pub hash_bytes : ℕ → List ℕ → ℕ
hash_bytes hash [] = hash
hash_bytes hash (x ∷ s) =
    hash_bytes ((hash * 31 + (if ltb x 128 then x else x + 2 ^ 64 - 256)) % 2 ^ 64) s

unfoldable pub strhash : Block → Outcome ℕ
unfolding hash_bytes
strhash b = do s ← cstring b; ok (hash_bytes 0 s)
