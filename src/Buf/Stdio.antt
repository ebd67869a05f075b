-- ===== src/Buf/Stdio.antt =====
-- buf/include/buf_stdio.h and buf/src/stdio.c: a stdio stream as a buf. `debug` says whether the
-- build has DBUG, and `data_size` is BUF_STDIO_DATA_SIZE, which the build sets. fgets() and
-- ferror() are those of the C library, on a stream that holds the bytes which are left.
pub mod Fgets
pub mod Stream
use mepl.Prelude.{
  ℕ, zero, suc, ◌+◌, ◌-◌, Bool, true, false, not, ◌&&◌, Option, none, some, List, [], ◌∷◌, ◌++◌,
  ◌==◌, if◌then◌else◌, replicate, died, Outcome, ok, exit, ◌>>=◌, ◌>>◌, dbug,
}
use mepl.Memory.{deref, beyond, Block, ℤ, from_char, load, store, blit}
use mepl.Buf.{Buf, Getc, unset, stdio_getc, buf_eof}

-- A stream: the bytes that are left, whether reading past them is an error (and no end of file),
-- and its error indicator.
pub record File : Type 0 where
  pub left : List ℕ
  pub broken : Bool
  pub error : Bool

-- Up to `n` bytes, through the first newline: those read, those left, and whether the end of the
-- stream was met.
unfoldable pub take_line : ℕ → List ℕ → List ℕ × List ℕ × Bool
take_line zero left = ([], left, false)
take_line (suc n) [] = ([], [], true)
take_line (suc n) (c ∷ left) =
    let (line, rest, ended) = take_line n left in
    if c == b'\n' then (c ∷ [], left, false) else (c ∷ line, rest, ended)

abbrev pub is_nil : List ℕ → Bool
is_nil [] = true
is_nil (_ ∷ _) = false

-- fgets(s, n, fp): whether it returns `s` (and not NULL), the array and the stream.
unfoldable pub fgets : Block → ℕ → File → Bool × Block × File
fgets s n f =
    let (line, rest, ended) = take_line (n - 1) f.left in
    if ended && f.broken
    then (false, s, record f { left = rest; error = true })
    else if is_nil line
    then (false, s, record f { left = rest })
    else (true, blit (line ++ 0 ∷ []) s, record f { left = rest })

-- `s_fp` is NULL where `s_open` is false.
pub record BufStdio : Type 0 where
  pub s_buf : Getc
  pub s_p : Option ℕ
  pub s_open : Bool
  pub s_data : Block

abbrev pub is_stdio_getc : Getc → Bool
is_stdio_getc stdio_getc = true
is_stdio_getc _ = false

unfoldable pub buf_stdio_empty : BufStdio → Outcome Bool
buf_stdio_empty b = do p ← deref b.s_p; x ← load b.s_data p; ok (x == 0)

abbrev pub State : Type 0
State = BufStdio × File

unfoldable pub buf_stdio_next : State → Outcome (ℤ × State)
buf_stdio_next (b, f) = do
  p ← deref b.s_p
  x ← load b.s_data p
  ok (from_char x, (record b { s_p = some (p + 1) }, f))

module _ (debug : Bool) (data_size : ℕ) where
  unfoldable pub buf_stdio_ok : BufStdio → Outcome (Unit {0})
  buf_stdio_ok b =
      if debug
      then (do
        dbug true (not (is_stdio_getc b.s_buf))
        dbug true (not b.s_open)
        dbug true (beyond data_size b.s_p))
      else ok tt

  -- `fp_open` is `fp != NULL`.
  unfoldable pub buf_stdio_init : Bool → Outcome BufStdio
  buf_stdio_init fp_open = do
    dbug debug (not fp_open)
    ok (record {
      s_buf = stdio_getc;
      s_p = some 0;
      s_open = fp_open;
      s_data = replicate (data_size + 1) 0;
    })

  unfoldable pub buf_stdio_free : BufStdio → Outcome BufStdio
  buf_stdio_free b = do
    buf_stdio_ok b
    ok (record { s_buf = unset; s_p = none; s_open = false; s_data = replicate (data_size + 1) 0 })

  unfoldable pub buf_stdio_read : State → Outcome (Bool × State)
  buf_stdio_read (b, f) =
      let (stored, s_data, f') = fgets b.s_data data_size f in
      if f'.error then exit died else ok (stored, (record b { s_data = s_data }, f'))

  unfoldable pub buf_stdio_fill : State → Outcome (Bool × State)
  unfolding buf_stdio_read
  buf_stdio_fill s = do
    (stored, (b, f)) ← buf_stdio_read s
    if not stored then ok (false, (b, f)) else (do
      s_data ← store b.s_data data_size 0
      ok (true, (record b { s_data = s_data; s_p = some 0 }, f)))

  unfoldable pub buf_stdio_getc : State → Outcome (ℤ × State)
  buf_stdio_getc (b, f) = do
    buf_stdio_ok b
    none_left ← buf_stdio_empty b
    if not none_left then buf_stdio_next (b, f) else (do
      (filled, s) ← buf_stdio_fill (b, f)
      if filled then buf_stdio_next s else ok (buf_eof, s))

  abbrev pub stdio_buf : Buf
  stdio_buf = record {
    State = State;
    has_getc = λ s. is_stdio_getc s.0.s_buf;
    b_getc = buf_stdio_getc;
  }
