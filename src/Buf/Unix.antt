-- ===== src/Buf/Unix.antt =====
-- buf/include/buf_unix.h and buf/src/unix.c: a file descriptor as a buf. `debug` says whether the
-- build has DBUG, and `data_size` is BUF_UNIX_DATA_SIZE, which the build sets. The kernel's side is
-- the list of the results that the calls of read() get, one after the other.
pub mod Stream
use mepl.Prelude.{
  ℕ, ◌+◌, Bool, true, false, not, Option, none, some, List, [], ◌∷◌, ◌==◌, if◌then◌else◌, length,
  replicate, died, Outcome, ok, exit, ◌>>=◌, ◌>>◌, dbug,
}
use mepl.Memory.{deref, beyond, Block, ℤ, pos, negsuc, from_char, load, store, blit}
use mepl.Buf.{Buf, Getc, unset, unix_getc, buf_eof}

pub record BufUnix : Type 0 where
  pub u_buf : Getc
  pub u_p : Option ℕ
  pub u_data : Block
  pub u_fd : ℤ

-- A result of read(): the bytes that it stored, or -1.
pub data Read : Type 0 where
  got : List ℕ → Read
  failed : Read

abbrev pub is_unix_getc : Getc → Bool
is_unix_getc unix_getc = true
is_unix_getc _ = false

abbrev pub is_negative : ℤ → Bool
is_negative (pos n) = false
is_negative (negsuc n) = true

-- The next result of read(), `failed` ending the process as its caller does; at the end of the
-- list every call reads nothing.
abbrev pub next_read : List Read → Outcome (List ℕ × List Read)
next_read [] = ok ([], [])
next_read (got chunk ∷ reads) = ok (chunk, reads)
next_read (failed ∷ reads) = exit died

unfoldable pub buf_unix_empty : BufUnix → Outcome Bool
buf_unix_empty b = do p ← deref b.u_p; x ← load b.u_data p; ok (x == 0)

abbrev pub State : Type 0
State = BufUnix × List Read

unfoldable pub buf_unix_next : State → Outcome (ℤ × State)
buf_unix_next (b, reads) = do
  p ← deref b.u_p
  x ← load b.u_data p
  ok (from_char x, (record b { u_p = some (p + 1) }, reads))

unfoldable pub buf_unix_read : State → Outcome (Bool × State)
buf_unix_read (b, reads) = do
  (chunk, reads') ← next_read reads
  stored ← store (blit chunk b.u_data) (length chunk) 0
  let b' = record b { u_data = stored; u_p = some 0 }
  none_left ← buf_unix_empty b'
  ok (not none_left, (b', reads'))

unfoldable pub buf_unix_fill : State → Outcome (Bool × State)
unfolding buf_unix_read
buf_unix_fill s = buf_unix_read s

module _ (debug : Bool) (data_size : ℕ) where
  unfoldable pub buf_unix_ok : BufUnix → Outcome (Unit {0})
  buf_unix_ok b =
      if debug
      then (do
        dbug true (not (is_unix_getc b.u_buf))
        dbug true (is_negative b.u_fd)
        dbug true (beyond data_size b.u_p))
      else ok tt

  unfoldable pub buf_unix_init : ℤ → Outcome BufUnix
  buf_unix_init fd = do
    dbug debug (is_negative fd)
    ok (record { u_buf = unix_getc; u_p = some 0; u_data = replicate (data_size + 1) 0; u_fd = fd })

  unfoldable pub buf_unix_free : BufUnix → Outcome BufUnix
  buf_unix_free b = do
    buf_unix_ok b
    ok (record { u_buf = unset; u_p = none; u_data = replicate (data_size + 1) 0; u_fd = pos 0 })

  unfoldable pub buf_unix_getc : State → Outcome (ℤ × State)
  buf_unix_getc (b, reads) = do
    buf_unix_ok b
    none_left ← buf_unix_empty b
    if not none_left then buf_unix_next (b, reads) else (do
      (filled, s) ← buf_unix_fill (b, reads)
      if filled then buf_unix_next s else ok (buf_eof, s))

  abbrev pub unix_buf : Buf
  unix_buf = record {
    State = State;
    has_getc = λ s. is_unix_getc s.0.u_buf;
    b_getc = buf_unix_getc;
  }
