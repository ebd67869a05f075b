-- ===== src/Lex/Next.antt =====
-- lex_next() reads the token that the text begins with.
use mepl.Prelude.{
  ℕ, ◌+◌, ◌%◌, ◌≤◌, ◌<◌, ◌≡◌, refl, ap, ◌∙◌, inl, inr, Bool, true, Option, none, some, List, [],
  ◌∷◌, arith, ◌==◌, if◌then◌else◌, Bool-cases, length, misused, Outcome, ok, exit, dbug-false,
}
use mepl.Memory.{Block, ℤ, pos, strhash, str_is}
use mepl.Memory.Text.{Ascii, strhash-append, str_is-append}
use mepl.Dstr.{Dstr, dstr_init, dstr_clear, cur}
use mepl.Dstr.Content.{Holds, init-Holds, cur-Holds, Holds-NoNul}
use mepl.Dstr.Check.{dstr_clear-Holds}
use mepl.Dstr.Put.{IsRealloc}
use mepl.Dstr.Push.{Room}
use mepl.Buf.{Buf, IsStream, buf_eof}
use mepl.Lex.{
  Lex, lex_ok, lex_next, lex_init, run_char_fn, skip, id, id_loop, str, str_loop, single, err,
  lookup_kword, kwords, tt_eof, tt_str, tt_id, tt_assign, tt_str_lit, tt_count,
}
use mepl.Lex.Scan.{
  Scan, token, malformed, scan, scan_char, is_space, is_lower, is_str, quoted, literal, tail,
}
use mepl.Lex.State.{Ready, ready, lex_ok-Ready}
use mepl.Lex.Loops.{char_of, behind_spaces, skip-Ready, id_loop-Ready, str_loop-Quoted, Quoted}
use mepl.Lex.Tables.{fn_for, char_fn_entry, single_type-assign}

abbrev pub scan_first : List ℕ → Scan
scan_first [] = token tt_eof [] []
scan_first (x ∷ xs) = scan_char x xs

scan-behind_spaces : (cs : List ℕ) → scan cs ≡ scan_first (behind_spaces cs)
unfolding scan behind_spaces
scan-behind_spaces [] = refl
scan-behind_spaces (x ∷ cs) = ground (arith, scan-behind_spaces cs)

Ascii-behind_spaces : (cs : List ℕ) → Ascii cs → Ascii (behind_spaces cs)
unfolding behind_spaces
Ascii-behind_spaces [] a = tt
Ascii-behind_spaces (x ∷ cs) a = elim (Bool-cases (is_space x)) [
  | inl space ↦ rw space (Ascii-behind_spaces cs a.2)
  | inr other ↦ rw other a
]

length-behind_spaces : (cs : List ℕ) → length (behind_spaces cs) ≤ length cs
unfolding behind_spaces
length-behind_spaces [] = omega arith
length-behind_spaces (x ∷ cs) = ground (arith, length-behind_spaces cs)

module _ {b : Buf} (strm : IsStream b) where
  -- A call ends as the scan says: with the lexer at the token and its buf behind it, or by usage().
  abbrev pub Matches : Outcome (Lex b) → Scan → Type 0
  Matches o (token t w rest) = (lp : Lex b) × (o ≡ ok lp) × Ready strm lp t w rest
  Matches o malformed = o ≡ exit misused

  retype :
      {lp : Lex b} {t : ℕ} {w cs : List ℕ} (t' : ℕ)
      → t' < tt_count
      → Ready strm lp t w cs
      → Ready strm (record lp { l_type = t' }) t' w cs
  retype t' l' (ready d s t h g l) = ready d s t' h g l'

  cleared :
      (debug : Bool) {lp : Lex b} {t : ℕ} {w cs : List ℕ}
      → Ready strm lp t w cs
      → (dstr_clear debug lp.l_lex ≡ ok dstr_init)
        × Ready strm (record lp { l_lex = dstr_init }) t [] cs
  cleared debug (ready d s t h g l) = (dstr_clear-Holds debug h, ready dstr_init s t init-Holds g l)

  text_of :
      {lp : Lex b} {t : ℕ} {w cs : List ℕ}
      → Ready strm lp t w cs
      → (d : Dstr) × (lp.l_lex ≡ d) × Holds d w
  text_of (ready d s t h g l) = (d, refl, h)

  lookup-of :
      (lp : Lex b) (text : Block) (hash : ℕ) (same : Bool)
      → cur lp.l_lex ≡ ok text
      → strhash text ≡ ok hash
      → str_is text (b's' ∷ b't' ∷ b'r' ∷ []) ≡ ok same
      → lookup_kword lp ≡ ok (record lp { l_type = if same then tt_str else tt_id })
  unfolding lookup_kword kwords
  lookup-of lp text hash same e f g =
      let none_other : hash % 1 ≡ 0 = omega arith in rw (e, f, none_other, g)

  lookup-Ready :
      {lp : Lex b} {t : ℕ} {w cs : List ℕ}
      → Ready strm lp t w cs
      → Matches (lookup_kword lp) (token (if is_str w then tt_str else tt_id) w cs)
  lookup-Ready {lp} {w} r =
      let (d, e, h) = text_of r in
      let (post, at) = cur-Holds h in
      let clean = Holds-NoNul h in
      (
        _,
        lookup-of lp _ _ _ (ap cur e ∙ at) (strhash-append w post clean)
            (str_is-append w post _ clean),
        retype _ (ground arith) r,
      )

module _ (debug : Bool) (realloc : Option Block → ℕ → Option Block) {limit : ℕ}
    (is : IsRealloc realloc limit) {b : Buf} (strm : IsStream b) (fuel : ℕ) where
  str-some :
      (lp : Lex b) {lp' : Lex b}
      → str_loop debug realloc fuel lp ≡ ok (pos b'"', lp')
      → str debug realloc fuel lp ≡ ok (record lp' { l_type = tt_str_lit })
  unfolding str
  str-some lp e = rw e

  str-none :
      (lp : Lex b) {lp' : Lex b}
      → str_loop debug realloc fuel lp ≡ ok (buf_eof, lp')
      → str debug realloc fuel lp ≡ exit misused
  unfolding str
  str-none lp e = rw e

  str-Matches :
      (lp : Lex b) (t : ℕ) (q : Option (List ℕ × List ℕ))
      → Quoted debug realloc is strm (str_loop debug realloc fuel lp) t [] q
      → Matches strm (str debug realloc fuel lp) (literal q)
  str-Matches lp t none (lp', e) = str-none lp e
  str-Matches lp t (some (v, rest)) (lp', e, r) =
      (_, str-some lp e, retype strm tt_str_lit (omega arith) r)

  id-of :
      (lp : Lex b) (c : ℤ) {lp' lp'' : Lex b}
      → id_loop debug realloc fuel lp c ≡ ok lp'
      → lookup_kword lp' ≡ ok lp''
      → id debug realloc fuel lp c ≡ ok lp''
  unfolding id
  id-of lp c e f = rw e f

  single-of :
      (lp : Lex b) (x : ℕ) → x ≡ b'=' → single lp (pos x) ≡ ok (record lp { l_type = tt_assign })
  unfolding single
  single-of lp x e = rw (e, single_type-assign)

  -- The function that CHAR_FN has for the character reads the token.
  run-Matches :
      {lp : Lex b} {t : ℕ} (x : ℕ) (xs : List ℕ)
      → Ascii (x ∷ xs)
      → length xs + 1 < fuel
      → Room limit (length xs + 1)
      → Ready strm lp t [] xs
      → Matches strm (run_char_fn debug realloc (fn_for x) fuel lp (pos x)) (scan_char x xs)
  unfolding scan_char fn_for run_char_fn err
  run-Matches {lp} {t} x xs a f room r =
      let (lp', ran, r') =
        id_loop-Ready debug realloc is strm fuel [] (x ∷ xs) a (omega arith) (omega arith) r in
      let (lp'', found, r'') = lookup-Ready strm r' in
      elim (Bool-cases (x == b'"')) [
        | inl quote ↦ rw quote (
            str-Matches lp t (quoted xs)
              (str_loop-Quoted debug realloc is strm fuel [] xs a.2 (omega arith) (omega arith) r))
        | inr no_quote ↦ elim (Bool-cases (x == b'=')) [
          | inl assign ↦
              rw (no_quote, assign)
                (_, single-of lp x (ground arith), retype strm tt_assign (omega arith) r)
          | inr no_assign ↦ elim (Bool-cases (is_lower x)) [
            | inl lower ↦ rw (no_quote, no_assign, lower) (lp'', id-of lp (pos x) ran found, r'')
            | inr other ↦ rw (no_quote, no_assign, other) refl
          ]
        ]
      ]

  lex_next-of :
      (lp lp' : Lex b) (x : ℕ)
      → x < 256
      → lex_ok debug lp ≡ ok tt
      → skip fuel lp ≡ ok (pos x, lp')
      → dstr_clear debug lp'.l_lex ≡ ok dstr_init
      → lex_next debug realloc fuel lp
        ≡ run_char_fn debug realloc (fn_for x) fuel (record lp' { l_lex = dstr_init }) (pos x)
  unfolding lex_next
  lex_next-of lp lp' x h e f g = rw (e, f, g, char_fn_entry x h)

  lex_next-end :
      (lp lp' : Lex b)
      → lex_ok debug lp ≡ ok tt
      → skip fuel lp ≡ ok (buf_eof, lp')
      → dstr_clear debug lp'.l_lex ≡ ok dstr_init
      → lex_next debug realloc fuel lp ≡ ok (record lp' { l_lex = dstr_init; l_type = tt_eof })
  unfolding lex_next
  lex_next-end lp lp' e f g = rw (e, f, g)

  lex_init-of :
      (s : b.State)
      → b.has_getc s ≡ true
      → lex_init debug realloc {b = b} fuel s
        ≡ lex_next debug realloc fuel
            (record { l_lex = dstr_init; l_buf = some s; l_type = tt_eof; l_putback = pos 0 })
  unfolding lex_init
  lex_init-of s e = rw (e, dbug-false debug)

  Matches-eq : {m o : Outcome (Lex b)} (s : Scan) → m ≡ o → Matches strm o s → Matches strm m s
  Matches-eq (token t w rest) e (lp, f, r) = (lp, e ∙ f, r)
  Matches-eq malformed e f = e ∙ f

  next-first :
      (lp : Lex b) {lp' : Lex b} {t : ℕ} {w : List ℕ} (ys : List ℕ)
      → Ascii ys
      → length ys < fuel
      → Room limit (length ys)
      → lex_ok debug lp ≡ ok tt
      → skip fuel lp ≡ ok (char_of ys, lp')
      → Ready strm lp' t w (tail ys)
      → Matches strm (lex_next debug realloc fuel lp) (scan_first ys)
  next-first lp {lp'} [] a f room e read r =
      let (clear, r') = cleared strm debug r in
      (_, lex_next-end lp lp' e read clear, retype strm tt_eof (omega arith) r')
  next-first lp {lp'} (x ∷ xs) a f room e read r =
      let (clear, r') = cleared strm debug r in
      Matches-eq (scan_char x xs) (lex_next-of lp lp' x (omega arith) e read clear)
        (run-Matches x xs a (omega arith) (omega arith) r')

  -- With an allocator that grants `limit` bytes, for a lexer over any buf that keeps its contract
  -- and still gives the 7-bit text `cs` without a nil, with more fuel than `cs` has characters and
  -- room for it in `limit`: lex_next() ends as the scan of `cs` says, either with the token's type
  -- and lexeme and the buf behind the token, or by usage().
  pub lex_next-scan :
      {lp : Lex b} {t : ℕ} {w : List ℕ} (cs : List ℕ)
      → Ascii cs
      → length cs < fuel
      → Room limit (length cs)
      → Ready strm lp t w cs
      → Matches strm (lex_next debug realloc fuel lp) (scan cs)
  lex_next-scan {lp} cs a f room r =
      let (lp', read, r') = skip-Ready strm fuel cs a f r in
      let short = length-behind_spaces cs in
      rw scan-behind_spaces (
        next-first lp (behind_spaces cs) (Ascii-behind_spaces cs a) (omega arith) (omega arith)
          (lex_ok-Ready strm debug r) read r')

  -- With an allocator that grants `limit` bytes, for any buf that keeps its contract and gives the
  -- 7-bit text `cs` without a nil, with more fuel than `cs` has characters and room for it in
  -- `limit`: lex_init() makes a lexer at the first token that the scan of `cs` finds, with the buf
  -- behind it, or ends by usage() where the scan finds none.
  pub lex_init-scan :
      (s : b.State) (cs : List ℕ)
      → Ascii cs
      → length cs < fuel
      → Room limit (length cs)
      → strm.Gives s cs
      → Matches strm (lex_init debug realloc {b = b} fuel s) (scan cs)
  lex_init-scan s cs a f room g =
      Matches-eq (scan cs) (lex_init-of s (strm.ready s cs g))
        (lex_next-scan cs a f room (ready dstr_init s tt_eof init-Holds g (omega arith)))
