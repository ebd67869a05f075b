-- ===== src/Lex/Loops.antt =====
-- The loops of the lexer: over white space, an identifier and a string literal.
use mepl.Prelude.{
  ℕ, zero, suc, ◌+◌, ◌<◌, ◌≡◌, refl, ap, ◌∙◌, inl, inr, Bool, true, false, Option, none, some, List,
  [], ◌∷◌, ◌++◌, arith, ◌==◌, if◌then◌else◌, Bool-cases, length, length-append, Outcome, ok, subst,
}
use mathlib.Core.List.{append-nil, append_assoc}
use mepl.Memory.{Block, ℤ, pos, isspace, isalpha}
use mepl.Memory.Text.{Ascii}
use mepl.Dstr.Put.{IsRealloc}
use mepl.Dstr.Push.{Room}
use mepl.Buf.{Buf, IsStream, buf_eof}
use mepl.Lex.{Lex, lex_getc, skip, push, id_loop, str_loop}
use mepl.Lex.Scan.{is_space, is_letter, letters, behind_letters, quoted, tail}
use mepl.Lex.State.{Ready, getc-eof, getc-cons, push-Ready}

-- What lex_getc() returns in front of a text.
abbrev pub char_of : List ℕ → ℤ
char_of [] = buf_eof
char_of (x ∷ xs) = pos x

-- The text behind the white space in front.
unfoldable pub behind_spaces : List ℕ → List ℕ
behind_spaces [] = []
behind_spaces (x ∷ xs) = if is_space x then behind_spaces xs else x ∷ xs

module _ {b : Buf} (strm : IsStream b) where
  pub getc-Ready :
      {lp : Lex b} {t : ℕ} {w : List ℕ} (cs : List ℕ)
      → Ascii cs
      → Ready strm lp t w cs
      → (lp' : Lex b) × (lex_getc lp ≡ ok (char_of cs, lp')) × Ready strm lp' t w (tail cs)
  getc-Ready [] a r = getc-eof strm r
  getc-Ready (x ∷ cs) a r = getc-cons strm a.1 r

  module _ (fuel : ℕ) (lp : Lex b) {lp' : Lex b} (x : ℕ)
      (read : lex_getc lp ≡ ok (pos x, lp')) where
    skip-space : is_space x ≡ true → skip (suc fuel) lp ≡ skip fuel lp'
    unfolding skip isspace
    skip-space h = ground arith

    skip-other : is_space x ≡ false → skip (suc fuel) lp ≡ ok (pos x, lp')
    unfolding skip isspace
    skip-other h = ground arith

  skip-eof :
      (fuel : ℕ) (lp : Lex b) {lp' : Lex b}
      → lex_getc lp ≡ ok (buf_eof, lp')
      → skip (suc fuel) lp ≡ ok (buf_eof, lp')
  unfolding skip isspace
  skip-eof fuel lp read = rw read

  -- The white space is read, and the first character behind it.
  pub skip-Ready :
      (fuel : ℕ) {lp : Lex b} {t : ℕ} {w : List ℕ} (cs : List ℕ)
      → Ascii cs
      → length cs < fuel
      → Ready strm lp t w cs
      → (lp' : Lex b) × (skip fuel lp ≡ ok (char_of (behind_spaces cs), lp'))
        × Ready strm lp' t w (tail (behind_spaces cs))
  unfolding behind_spaces
  skip-Ready zero cs a h r = absurd (omega arith)
  skip-Ready (suc fuel) [] a h r =
      let (lp', read, r') = getc-eof strm r in (lp', skip-eof fuel _ read, r')
  skip-Ready (suc fuel) (x ∷ cs) a h r =
      let (lp', read, r') = getc-cons strm a.1 r in
      elim (Bool-cases (is_space x)) [
        | inl space ↦
            let (lp'', rest, r'') = skip-Ready fuel cs a.2 (omega arith) r' in
            rw space (lp'', skip-space fuel _ x read space ∙ rest, r'')
        | inr other ↦ rw other (lp', skip-other fuel _ x read other, r')
      ]

module _ (debug : Bool) (realloc : Option Block → ℕ → Option Block) {limit : ℕ}
    (is : IsRealloc realloc limit) {b : Buf} (strm : IsStream b) where
  id_loop-letter :
      (fuel : ℕ) (lp : Lex b) {lp' lp'' : Lex b} (x : ℕ) (c : ℤ)
      → is_letter x ≡ true
      → push debug realloc lp (pos x) ≡ ok lp'
      → lex_getc lp' ≡ ok (c, lp'')
      → id_loop debug realloc (suc fuel) lp (pos x) ≡ id_loop debug realloc fuel lp'' c
  unfolding id_loop isalpha
  id_loop-letter fuel lp x c h pushed read = ground arith

  id_loop-other :
      (fuel : ℕ) (lp : Lex b) (x : ℕ)
      → is_letter x ≡ false
      → id_loop debug realloc (suc fuel) lp (pos x) ≡ ok lp
  unfolding id_loop isalpha
  id_loop-other fuel lp x h = ground arith

  id_loop-eof : (fuel : ℕ) (lp : Lex b) → id_loop debug realloc (suc fuel) lp buf_eof ≡ ok lp
  unfolding id_loop isalpha
  id_loop-eof fuel lp = refl

  -- The letters are pushed, and the character behind them is read.
  pub id_loop-Ready :
      (fuel : ℕ) {lp : Lex b} {t : ℕ} (w cs : List ℕ)
      → Ascii cs
      → length cs < fuel
      → Room limit (length w + length cs)
      → Ready strm lp t w (tail cs)
      → (lp' : Lex b) × (id_loop debug realloc fuel lp (char_of cs) ≡ ok lp')
        × Ready strm lp' t (w ++ letters cs) (tail (behind_letters cs))
  unfolding letters behind_letters
  id_loop-Ready zero w cs a h room r = absurd (omega arith)
  id_loop-Ready (suc fuel) {lp} w [] a h room r = (lp, id_loop-eof fuel lp, rw (append-nil w) r)
  id_loop-Ready (suc fuel) {lp} {t} w (x ∷ cs) a h room r = elim (Bool-cases (is_letter x)) [
    | inl letter ↦
        let (lp', pushed, r') = push-Ready strm debug is a.0 a.1 (omega arith) r in
        let (lp'', read, r'') = getc-Ready strm cs a.2 r' in
        let longer = length-append w (x ∷ []) in
        let (lp3, rest, r3) =
          id_loop-Ready fuel (w ++ x ∷ []) cs a.2 (omega arith) (omega arith) r'' in
        rw letter (
          lp3,
          id_loop-letter fuel _ x (char_of cs) letter pushed read ∙ rest,
          subst (λ v. Ready strm lp3 t v (tail (behind_letters cs)))
              (append_assoc w (x ∷ []) (letters cs)) r3,
        )
    | inr other ↦ rw (other, append-nil w) (lp, id_loop-other fuel lp x other, r)
  ]

  str_loop-char :
      (fuel : ℕ) (lp : Lex b) {lp' lp'' : Lex b} (x : ℕ)
      → (x == b'"') ≡ false
      → lex_getc lp ≡ ok (pos x, lp')
      → push debug realloc lp' (pos x) ≡ ok lp''
      → str_loop debug realloc (suc fuel) lp ≡ str_loop debug realloc fuel lp''
  unfolding str_loop
  str_loop-char fuel lp x h read pushed = ground arith

  str_loop-quote :
      (fuel : ℕ) (lp : Lex b) {lp' : Lex b} (x : ℕ)
      → (x == b'"') ≡ true
      → lex_getc lp ≡ ok (pos x, lp')
      → str_loop debug realloc (suc fuel) lp ≡ ok (pos x, lp')
  unfolding str_loop
  str_loop-quote fuel lp x h read = ground arith

  str_loop-eof :
      (fuel : ℕ) (lp : Lex b) {lp' : Lex b}
      → lex_getc lp ≡ ok (buf_eof, lp')
      → str_loop debug realloc (suc fuel) lp ≡ ok (buf_eof, lp')
  unfolding str_loop
  str_loop-eof fuel lp read = rw read

  -- How str_loop() ends, by the text up to the next quote.
  abbrev pub Quoted : Outcome (ℤ × Lex b) → ℕ → List ℕ → Option (List ℕ × List ℕ) → Type 0
  Quoted o t w none = (lp' : Lex b) × (o ≡ ok (buf_eof, lp'))
  Quoted o t w (some (v, rest)) =
      (lp' : Lex b) × (o ≡ ok (pos b'"', lp')) × Ready strm lp' t (w ++ v) rest

  Quoted-cons :
      (m o : Outcome (ℤ × Lex b)) (t : ℕ) (w : List ℕ) (x : ℕ) (q : Option (List ℕ × List ℕ))
      → m ≡ o
      → Quoted o t (w ++ x ∷ []) q
      → Quoted m t w (elim q [ none ↦ none | some (v, ys) ↦ some (x ∷ v, ys) ])
  Quoted-cons m o t w x none e (lp', done) = (lp', e ∙ done)
  Quoted-cons m o t w x (some (v, ys)) e (lp', done, r) =
      (lp', e ∙ done, subst (λ u. Ready strm lp' t u ys) (append_assoc w (x ∷ []) v) r)

  pub str_loop-Quoted :
      (fuel : ℕ) {lp : Lex b} {t : ℕ} (w cs : List ℕ)
      → Ascii cs
      → length cs < fuel
      → Room limit (length w + length cs)
      → Ready strm lp t w cs
      → Quoted (str_loop debug realloc fuel lp) t w (quoted cs)
  unfolding quoted
  str_loop-Quoted zero w cs a h room r = absurd (omega arith)
  str_loop-Quoted (suc fuel) w [] a h room r =
      let (lp', read, r') = getc-eof strm r in (lp', str_loop-eof fuel _ read)
  str_loop-Quoted (suc fuel) {t} w (x ∷ cs) a h room r =
      let (lp', read, r') = getc-cons strm a.1 r in
      elim (Bool-cases (x == b'"')) [
        | inl quote ↦
            let e : x ≡ b'"' = ground arith in
            rw (quote, append-nil w)
              (lp', str_loop-quote fuel _ x quote read ∙ ap (λ k. ok (pos k, lp')) e, r')
        | inr other ↦
            let (lp'', pushed, r'') = push-Ready strm debug is a.0 a.1 (omega arith) r' in
            let longer = length-append w (x ∷ []) in
            let rest = str_loop-Quoted fuel (w ++ x ∷ []) cs a.2 (omega arith) (omega arith) r'' in
            rw other
              (Quoted-cons _ _ t w x (quoted cs) (str_loop-char fuel _ x other read pushed) rest)
      ]
