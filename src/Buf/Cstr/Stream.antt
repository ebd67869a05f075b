-- ===== src/Buf/Cstr/Stream.antt =====
-- A buf over a C string gives the bytes of the string.
use mepl.Prelude.{
  ℕ, ◌+◌, ◌≡◌, refl, Bool, true, false, none, some, List, [], ◌∷◌, ◌++◌, arith, ltb, length, ok,
  dbug-false,
}
use mepl.Memory.{Block, from_char}
use mepl.Memory.Text.{NoNul}
use mepl.Buf.{IsStream, first, behind, cstr_getc, buf_eof}
use mepl.Buf.Cursor.{Cursor, Cursor-start, Cursor-next, load-next, load-end, strlen-Cursor, not_nil}
use mepl.Buf.Cstr.{BufCstr, buf_cstr_ok, buf_cstr_empty, buf_cstr_init, buf_cstr_getc, cstr_buf}

pub data Gives : BufCstr → List ℕ → Type 0 where
  gives :
      (str : Block) (p : ℕ) {cs : List ℕ}
      → Cursor str p cs
      → Gives (record { c_buf = cstr_getc; c_p = some p; c_str = some str }) cs

-- The tests of a DBUG build pass.
pub buf_cstr_ok-Gives :
    (debug : Bool) {b : BufCstr} {cs : List ℕ} → Gives b cs → buf_cstr_ok debug b ≡ ok tt
unfolding buf_cstr_ok
buf_cstr_ok-Gives false h = refl
buf_cstr_ok-Gives true (gives str p {cs} c) =
    let inside : ltb (p + length cs) p ≡ false = ground arith in rw (strlen-Cursor c, inside)

module _ (debug : Bool) where
  pub getc-nil : {b : BufCstr} → Gives b [] → buf_cstr_getc debug b ≡ ok (buf_eof, b)
  unfolding buf_cstr_getc buf_cstr_empty
  getc-nil (gives str p c) = rw (buf_cstr_ok-Gives debug (gives str p c), load-end c)

  pub getc-cons :
      {b : BufCstr} {x : ℕ} {cs : List ℕ}
      → Gives b (x ∷ cs)
      → (b' : BufCstr) × (buf_cstr_getc debug b ≡ ok (from_char x, b')) × Gives b' cs
  unfolding buf_cstr_getc buf_cstr_empty
  getc-cons (gives str p c) = (
    _,
    rw (buf_cstr_ok-Gives debug (gives str p c), load-next c, not_nil c),
    gives str (p + 1) (Cursor-next c),
  )

  -- buf_cstr_getc(), on a
  -- buf that still gives the bytes `cs`, returns the first of them, or BUF_EOF where there is none,
  -- and leaves one that gives those behind.
  pub buf_cstr_getc-Gives :
      {s : BufCstr} (cs : List ℕ)
      → Gives s cs
      → (s' : BufCstr) × (buf_cstr_getc debug s ≡ ok (first cs, s')) × Gives s' (behind cs)
  buf_cstr_getc-Gives [] g = (_, getc-nil g, g)
  buf_cstr_getc-Gives (x ∷ cs) g = getc-cons g

  pub ready-Gives : (b : BufCstr) (cs : List ℕ) → Gives b cs → (cstr_buf debug).has_getc b ≡ true
  ready-Gives _ cs (gives str p c) = refl

  -- buf_cstr_getc() hands out the bytes up to the nil, and then BUF_EOF.
  abbrev pub cstr_stream : IsStream (cstr_buf debug)
  cstr_stream = record {
    Gives = Gives;
    ready = ready-Gives;
    at_end = λ s g. buf_cstr_getc-Gives [] g;
    next = λ s x cs g. buf_cstr_getc-Gives (x ∷ cs) g;
  }

  -- For a string with the bytes `cs`, none of them nil, in front of its first nil, buf_cstr_init()
  -- succeeds, sets the caller's variable to NULL, and the buf gives `cs`.
  pub buf_cstr_init-Gives :
      (cs post : List ℕ)
      → NoNul cs
      → (b : BufCstr) × (buf_cstr_init debug (some (cs ++ 0 ∷ post)) ≡ ok (b, none)) × Gives b cs
  unfolding buf_cstr_init
  buf_cstr_init-Gives cs post clean =
      (_, rw (dbug-false debug), gives (cs ++ 0 ∷ post) 0 (Cursor-start cs post clean))
