-- ===== src/Buf/Copy.antt =====
-- buf_test() of buf/test/main.c: the loop that copies a buf to a file, byte by byte. Opening and
-- closing the file, and an error of fputc(), are not modelled; `fuel` bounds the rounds.
use mepl.Prelude.{
  ℕ, zero, suc, ◌<◌, ◌≡◌, true, false, List, [], ◌∷◌, arith, length, Outcome, ok, spin, ◌>>=◌,
}
use mepl.Memory.{to_char, from_char}
use mepl.Memory.Text.{to_char-from_char}
use mepl.Buf.{Buf, IsStream, is_eof, buf_eof}

-- The bytes that are written.
unfoldable pub buf_test : (b : Buf) → ℕ → b.State → Outcome (List ℕ)
buf_test b zero s = spin
buf_test b (suc fuel) s = do
  (c, s') ← b.b_getc s
  elim (is_eof c) [ true ↦ ok [] | false ↦ do copy ← buf_test b fuel s'; ok (to_char c ∷ copy) ]

-- Bytes other than 0xFF, which is read as BUF_EOF.
abbrev pub NoEof : List ℕ → Type 0
NoEof [] = Unit
NoEof (x ∷ xs) = (x < 255) × NoEof xs

from_char-some : (x : ℕ) → x < 255 → is_eof (from_char x) ≡ false
unfolding from_char
from_char-some x h = ground arith

module _ {b : Buf} (str : IsStream b) where
  buf_test-byte :
      (fuel : ℕ) (s : b.State) (x : ℕ) {s' : b.State} {copy : List ℕ}
      → x < 255
      → b.b_getc s ≡ ok (from_char x, s')
      → buf_test b fuel s' ≡ ok copy
      → buf_test b (suc fuel) s ≡ ok (x ∷ copy)
  unfolding buf_test
  buf_test-byte fuel s x h read rest =
      let going = from_char-some x h in let same = to_char-from_char x (omega arith) in ground arith

  buf_test-eof :
      (fuel : ℕ) (s : b.State) {s' : b.State}
      → b.b_getc s ≡ ok (buf_eof, s')
      → buf_test b (suc fuel) s ≡ ok []
  unfolding buf_test
  buf_test-eof fuel s read = rw read

  -- For any buf that keeps the contract of `b_getc` and still gives the bytes `cs`, none of them
  -- 0xFF, the loop of buf_test() ends, and what it has written is `cs`; the fuel is to exceed the
  -- number of bytes.
  pub buf_test-Gives :
      (fuel : ℕ) (s : b.State) (cs : List ℕ)
      → NoEof cs
      → length cs < fuel
      → str.Gives s cs
      → buf_test b fuel s ≡ ok cs
  buf_test-Gives zero s cs n h g = absurd (omega arith)
  buf_test-Gives (suc fuel) s [] n h g =
      let (s', read, g') = str.at_end s g in buf_test-eof fuel s read
  buf_test-Gives (suc fuel) s (x ∷ cs) n h g =
      let (s', read, g') = str.next s x cs g in
      buf_test-byte fuel s x n.0 read (buf_test-Gives fuel s' cs n.1 (omega arith) g')
