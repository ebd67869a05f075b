-- ===== src/Buf/Nstr.antt =====
-- buf/include/buf_nstr.h and buf/src/nstr.c: a string with a length, which may hold nils, as a buf.
-- `debug` says whether the build has DBUG. The pointers to the struct and to the caller's variable
-- are not NULL here.
pub mod Stream
use mepl.Prelude.{
  ℕ, ◌+◌, Bool, true, false, not, Option, none, some, map, ◌==◌, if◌then◌else◌, Outcome, ok, ◌>>=◌,
  ◌>>◌, dbug,
}
use mathlib.Core.Option
use mepl.Memory.{deref, is_null, beyond, Block, ℤ, from_char, load}
use mepl.Buf.{Buf, Getc, unset, nstr_getc, buf_eof}

pub record BufNstr : Type 0 where
  pub n_buf : Getc
  pub n_len : ℕ
  pub n_str : Option Block
  pub n_p : Option ℕ

abbrev pub is_nstr_getc : Getc → Bool
is_nstr_getc nstr_getc = true
is_nstr_getc _ = false

unfoldable pub zeroed : BufNstr
zeroed = record { n_buf = unset; n_len = 0; n_str = none; n_p = none }

unfoldable pub buf_nstr_ok : Bool → BufNstr → Outcome (Unit {0})
buf_nstr_ok false b = ok tt
buf_nstr_ok true b = do
  dbug true (not (is_nstr_getc b.n_buf))
  dbug true (is_null b.n_str)
  dbug true (beyond b.n_len b.n_p)

-- `n_p == n_str + n_len`
unfoldable pub buf_nstr_empty : BufNstr → Bool
buf_nstr_empty b = elim b.n_p [ none ↦ false | some p ↦ p == b.n_len ]

module _ (debug : Bool) where
  -- The string that the caller's variable points at; the variable is NULL afterwards.
  unfoldable pub buf_nstr_init : Option Block → ℕ → Outcome (BufNstr × Option Block)
  buf_nstr_init str len = do
    dbug debug (is_null str)
    ok (record { n_buf = nstr_getc; n_len = len; n_str = str; n_p = Option.map (λ _. 0) str }, none)

  -- `strpp` is NULL or points at a variable, which is given the string.
  unfoldable pub buf_nstr_free :
      BufNstr → Option (Option Block) → Outcome (BufNstr × Option (Option Block))
  buf_nstr_free b strpp = do buf_nstr_ok debug b; ok (zeroed, Option.map (λ _. b.n_str) strpp)

  unfoldable pub buf_nstr_getc : BufNstr → Outcome (ℤ × BufNstr)
  buf_nstr_getc b = do
    buf_nstr_ok debug b
    if buf_nstr_empty b then ok (buf_eof, b) else (do
      str ← deref b.n_str
      p ← deref b.n_p
      x ← load str p
      ok (from_char x, record b { n_p = some (p + 1) }))

  abbrev pub nstr_buf : Buf
  nstr_buf = record {
    State = BufNstr;
    has_getc = λ b. is_nstr_getc b.n_buf;
    b_getc = buf_nstr_getc;
  }
