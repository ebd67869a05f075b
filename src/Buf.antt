-- ===== src/Buf.antt =====
-- buf/include/buf.h: a source of characters, as its callers see it, and what they rely on.
pub mod Cursor
pub mod Cstr
pub mod Nstr
pub mod Unix
pub mod Stdio
pub mod Copy
use mepl.Prelude.{ℕ, ◌≡◌, Bool, true, false, ◌==◌, List, [], ◌∷◌, Outcome, ok}
use mepl.Memory.{ℤ, pos, negsuc, from_char}

-- The functions that `b_getc` may point at; `unset` is NULL.
pub data Getc : Type 0 where
  unset cstr_getc nstr_getc stdio_getc unix_getc : Getc

-- BUF_EOF, which is -1
abbrev pub buf_eof : ℤ
buf_eof = negsuc 0

-- `struct buf` with the struct that it stands in and the input behind that: `has_getc` is
-- `b_getc != NULL`, and `b_getc` is the call through the pointer.
pub record Buf : Type 1 where
  pub State : Type 0
  pub has_getc : State → Bool
  pub b_getc : State → Outcome (ℤ × State)

-- The contract of `b_getc`: a state that gives the bytes `cs` hands them out in order, and then
-- BUF_EOF for ever.
pub record IsStream (b : Buf) : Type 1 where
  pub Gives : b.State → List ℕ → Type 0
  pub ready : (s : b.State) (cs : List ℕ) → Gives s cs → b.has_getc s ≡ true
  pub at_end :
      (s : b.State) → Gives s [] → (s' : b.State) × (b.b_getc s ≡ ok (buf_eof, s')) × Gives s' []
  pub next :
      (s : b.State) (c : ℕ) (cs : List ℕ)
      → Gives s (c ∷ cs)
      → (s' : b.State) × (b.b_getc s ≡ ok (from_char c, s')) × Gives s' cs

abbrev pub is_eof : ℤ → Bool
is_eof (pos n) = false
is_eof (negsuc n) = n == 0

-- What a call of `b_getc` is to return in front of the bytes `cs`, and the bytes behind that.
abbrev pub first : List ℕ → ℤ
first [] = buf_eof
first (x ∷ cs) = from_char x

abbrev pub behind : List ℕ → List ℕ
behind [] = []
behind (x ∷ cs) = cs
