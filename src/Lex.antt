-- ===== src/Lex.antt =====
-- c/include/lex.h and c/src/lex.c: the lexer, over any buf. `debug` says whether the build has DBUG
-- and `realloc` is the allocator's. A pointer to the lexer is not NULL here. A loop is given fuel,
-- a bound on its rounds; a call that is given too little of it ends in `spin`.
pub mod Scan
pub mod State
pub mod Loops
pub mod Next
pub mod Tables
use mepl.Prelude.{
  ℕ, zero, suc, ◌%◌, Bool, true, false, not, ◌||◌, Option, none, some, List, [], ◌∷◌, ◌++◌, leb,
  if◌then◌else◌, length, get_elem?, replicate, misused, Outcome, ok, exit, fault, spin, ◌>>=◌, ◌>>◌,
  dbug,
}
use mepl.Memory.{deref, is_null, is_char, Block, ℤ, pos, negsuc, isspace, isalpha, str_is, strhash}
use mepl.Dstr.{Dstr, cur, dstr_init, dstr_free, zeroed, dstr_push, dstr_clear}
use mepl.Buf.{Buf, is_eof}

-- The token types, and TT_COUNT.
abbrev pub tt_eof : ℕ
tt_eof = 0

abbrev pub tt_str : ℕ
tt_str = 1

abbrev pub tt_id : ℕ
tt_id = 2

abbrev pub tt_assign : ℕ
tt_assign = 3

abbrev pub tt_str_lit : ℕ
tt_str_lit = 4

abbrev pub tt_count : ℕ
tt_count = 5

-- `l_buf` is NULL where it is `none`.
pub record Lex (b : Buf) : Type 0 where
  pub l_lex : Dstr
  pub l_buf : Option b.State
  pub l_type : ℕ
  pub l_putback : ℤ

pub data CharFn : Type 0 where
  err_fn id_fn str_fn single_fn : CharFn

-- The first half of CHAR_FN: '"' is 34, '=' is 61, 'a' is 97.
unfoldable pub ascii_fns : List CharFn
ascii_fns =
    replicate 34 err_fn
    ++ (str_fn ∷ replicate 26 err_fn)
    ++ (single_fn ∷ replicate 35 err_fn)
    ++ (replicate 26 id_fn ++ replicate 5 err_fn)

-- The entries from 128 on.
unfoldable pub high_fns : List CharFn
high_fns = replicate 128 err_fn

unfoldable pub char_fns : List CharFn
unfolding ascii_fns high_fns
char_fns = ascii_fns ++ high_fns

-- `CHAR_FN[c]`
unfoldable pub char_fn : ℤ → Outcome CharFn
char_fn (pos n) = deref (get_elem? char_fns n)
char_fn (negsuc n) = fault

unfoldable pub tt_names : List (List ℕ)
tt_names =
    (b'T' ∷ b'T' ∷ b'_' ∷ b'E' ∷ b'O' ∷ b'F' ∷ [])
    ∷ (b'T' ∷ b'T' ∷ b'_' ∷ b'S' ∷ b'T' ∷ b'R' ∷ [])
    ∷ (b'T' ∷ b'T' ∷ b'_' ∷ b'I' ∷ b'D' ∷ [])
    ∷ (b'T' ∷ b'T' ∷ b'_' ∷ b'A' ∷ b'S' ∷ b'S' ∷ b'I' ∷ b'G' ∷ b'N' ∷ [])
    ∷ (b'T' ∷ b'T' ∷ b'_' ∷ b'S' ∷ b'T' ∷ b'R' ∷ b'_' ∷ b'L' ∷ b'I' ∷ b'T' ∷ [])
    ∷ []

-- SINGLE: every other entry is 0.
unfoldable pub singles : List ℕ
singles = replicate 61 0 ++ tt_assign ∷ replicate 194 0

unfoldable pub single_type : ℤ → Outcome ℕ
single_type (pos n) = deref (get_elem? singles n)
single_type (negsuc n) = fault

-- `struct kword`
pub record Kword : Type 0 where
  pub k_id : List ℕ
  pub k_type : ℕ

unfoldable pub kwords : List Kword
kwords = record { k_id = b's' ∷ b't' ∷ b'r' ∷ []; k_type = tt_str } ∷ []

abbrev pub is_uchar : ℤ → Bool
is_uchar (pos n) = leb n 255
is_uchar (negsuc n) = false

module _ {b : Buf} where
  -- A putback of nil means that there is none.
  unfoldable pub lex_getc : Lex b → Outcome (ℤ × Lex b)
  lex_getc lp =
      if is_char lp.l_putback 0
      then (do s ← deref lp.l_buf; (c, s') ← b.b_getc s; ok (c, record lp { l_buf = some s' }))
      else ok (lp.l_putback, record lp { l_putback = pos 0 })

  -- `while (isspace(c)) c = lex_getc(lp)`, with the call that comes before it
  unfoldable pub skip : ℕ → Lex b → Outcome (ℤ × Lex b)
  skip zero lp = spin
  skip (suc fuel) lp = do
    (c, lp') ← lex_getc lp
    elim (isspace c) [ true ↦ skip fuel lp' | false ↦ ok (c, lp') ]

  unfoldable pub single : Lex b → ℤ → Outcome (Lex b)
  single lp c = do t ← single_type c; ok (record lp { l_type = t })

  unfoldable pub err : Lex b → ℤ → Outcome (Lex b)
  err lp c = exit misused

  unfoldable pub lookup_kword : Lex b → Outcome (Lex b)
  lookup_kword lp = do
    text ← cur lp.l_lex
    hash ← strhash text
    kword ← deref (get_elem? kwords (hash % length kwords))
    same ← str_is text kword.k_id
    ok (record lp { l_type = if same then kword.k_type else tt_id })

module _ (debug : Bool) {b : Buf} where
  unfoldable pub lex_ok : Lex b → Outcome (Unit {0})
  lex_ok lp =
      if debug
      then (do
        dbug true (leb tt_count lp.l_type)
        dbug true (is_null lp.l_buf)
        s ← deref lp.l_buf
        dbug true (not (b.has_getc s))
        dbug true (not (is_uchar lp.l_putback)))
      else ok tt

  -- `lex_free()`: the string, and the buf that the lexer pointed at, stay behind.
  unfoldable pub lex_free : Lex b → Outcome (Lex b)
  lex_free lp = do
    lex_ok lp
    _ ← dstr_free debug lp.l_lex
    ok (record { l_lex = zeroed; l_buf = none; l_type = 0; l_putback = pos 0 })

  unfoldable pub lex_name : Lex b → Outcome (List ℕ)
  lex_name lp = do lex_ok lp; deref (get_elem? tt_names lp.l_type)

module _ (debug : Bool) (realloc : Option Block → ℕ → Option Block) {b : Buf} where
  unfoldable pub push : Lex b → ℤ → Outcome (Lex b)
  push lp c = do d ← dstr_push debug realloc lp.l_lex c; ok (record lp { l_lex = d })

  unfoldable pub id_loop : ℕ → Lex b → ℤ → Outcome (Lex b)
  id_loop zero lp c = spin
  id_loop (suc fuel) lp c = elim (isalpha c) [
    | true ↦ do lp' ← push lp c; (c', lp'') ← lex_getc lp'; id_loop fuel lp'' c'
    | false ↦ ok lp
  ]

  unfoldable pub id : ℕ → Lex b → ℤ → Outcome (Lex b)
  id fuel lp c = do lp' ← id_loop fuel lp c; lookup_kword lp'

  unfoldable pub str_loop : ℕ → Lex b → Outcome (ℤ × Lex b)
  str_loop zero lp = spin
  str_loop (suc fuel) lp = do
    (c, lp') ← lex_getc lp
    elim (is_eof c || is_char c b'"') [
      | true ↦ ok (c, lp')
      | false ↦ do lp'' ← push lp' c; str_loop fuel lp''
    ]

  unfoldable pub str : ℕ → Lex b → Outcome (Lex b)
  str fuel lp = do
    (c, lp') ← str_loop fuel lp
    if is_char c b'"' then ok (record lp' { l_type = tt_str_lit }) else exit misused

  -- `CHAR_FN[c](lp, c)`
  unfoldable pub run_char_fn : CharFn → ℕ → Lex b → ℤ → Outcome (Lex b)
  run_char_fn err_fn fuel lp c = err lp c
  run_char_fn id_fn fuel lp c = id fuel lp c
  run_char_fn str_fn fuel lp c = str fuel lp
  run_char_fn single_fn fuel lp c = single lp c

  unfoldable pub lex_next : ℕ → Lex b → Outcome (Lex b)
  lex_next fuel lp = do
    lex_ok debug lp
    (c, lp') ← skip fuel lp
    d ← dstr_clear debug lp'.l_lex
    let cleared = record lp' { l_lex = d }
    if is_eof c
        then ok (record cleared { l_type = tt_eof })
        else (do fn ← char_fn c; run_char_fn fn fuel cleared c)

  unfoldable pub lex_init : ℕ → b.State → Outcome (Lex b)
  lex_init fuel s = do
    dbug debug (not (b.has_getc s))
    lex_next fuel (record { l_lex = dstr_init; l_buf = some s; l_type = tt_eof; l_putback = pos 0 })
