-- ===== src/Buf/Cstr.antt =====
-- buf/include/buf_cstr.h and buf/src/cstr.c: a nil-terminated string as a buf. `debug` says whether
-- the build has DBUG. The pointers to the struct and to the caller's variable are not NULL here.
pub mod Stream
use mepl.Prelude.{
  ℕ, ◌+◌, Bool, true, false, not, Option, none, some, map, ◌==◌, if◌then◌else◌, Outcome, ok, ◌>>=◌,
  ◌>>◌, dbug,
}
use mathlib.Core.Option
use mepl.Memory.{deref, is_null, beyond, Block, ℤ, from_char, load, strlen}
use mepl.Buf.{Buf, Getc, unset, cstr_getc, buf_eof}

pub record BufCstr : Type 0 where
  pub c_buf : Getc
  pub c_p : Option ℕ
  pub c_str : Option Block

abbrev pub is_cstr_getc : Getc → Bool
is_cstr_getc cstr_getc = true
is_cstr_getc _ = false

unfoldable pub zeroed : BufCstr
zeroed = record { c_buf = unset; c_p = none; c_str = none }

unfoldable pub buf_cstr_ok : Bool → BufCstr → Outcome (Unit {0})
buf_cstr_ok false b = ok tt
buf_cstr_ok true b = do
  dbug true (not (is_cstr_getc b.c_buf))
  dbug true (is_null b.c_str)
  str ← deref b.c_str
  n ← strlen str
  dbug true (beyond n b.c_p)

unfoldable pub buf_cstr_empty : BufCstr → Outcome Bool
buf_cstr_empty b = do str ← deref b.c_str; p ← deref b.c_p; x ← load str p; ok (x == 0)

module _ (debug : Bool) where
  -- The string that the caller's variable points at; the variable is NULL afterwards.
  unfoldable pub buf_cstr_init : Option Block → Outcome (BufCstr × Option Block)
  buf_cstr_init str = do
    dbug debug (is_null str)
    ok (record { c_buf = cstr_getc; c_p = Option.map (λ _. 0) str; c_str = str }, none)

  -- `strpp` is NULL or points at a variable, which is given the string.
  unfoldable pub buf_cstr_free :
      BufCstr → Option (Option Block) → Outcome (BufCstr × Option (Option Block))
  buf_cstr_free b strpp = do buf_cstr_ok debug b; ok (zeroed, Option.map (λ _. b.c_str) strpp)

  unfoldable pub buf_cstr_getc : BufCstr → Outcome (ℤ × BufCstr)
  buf_cstr_getc b = do
    buf_cstr_ok debug b
    none_left ← buf_cstr_empty b
    if none_left then ok (buf_eof, b) else (do
      str ← deref b.c_str
      p ← deref b.c_p
      x ← load str p
      ok (from_char x, record b { c_p = some (p + 1) }))

  abbrev pub cstr_buf : Buf
  cstr_buf = record {
    State = BufCstr;
    has_getc = λ b. is_cstr_getc b.c_buf;
    b_getc = buf_cstr_getc;
  }
