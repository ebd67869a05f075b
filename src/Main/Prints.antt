-- ===== src/Main/Prints.antt =====
-- The program prints the tokens of its input.
use mepl.Prelude.{
  ℕ, zero, suc, ◌<◌, ◌≡◌, refl, sym, ap, ◌∙◌, ◌≢◌, inl, inr, Bool, true, false, Option, some, List,
  [], ◌∷◌, ◌++◌, arith, ◌==◌, if◌then◌else◌, ==_iff, Bool-cases, length, get_elem?,
  get_elem?-eq-get_or, misused, Outcome, ok, exit, ◌>>=◌, after, subst,
}
use mepl.Memory.{Block, deref, cstring}
use mepl.Memory.Text.{Ascii, Ascii-NoNul, cstring-append}
use mepl.Dstr.{cur}
use mepl.Dstr.Content.{cur-Holds, Holds-NoNul}
use mepl.Dstr.Put.{IsRealloc}
use mepl.Dstr.Push.{Room}
use mepl.Buf.{Buf, IsStream}
use mepl.Buf.Stdio.{File, BufStdio, buf_stdio_init, buf_stdio_free, stdio_buf}
use mepl.Buf.Stdio.Fgets.{sound}
use mepl.Buf.Stdio.Stream.{stdio_stream, buf_stdio_init-Gives, buf_stdio_free-Gives}
use mepl.Lex.{Lex, lex_init, lex_next, lex_name, lex_ok, tt_eof, tt_count, tt_names}
use mepl.Lex.Scan.{Scan, token, malformed, scan}
use mepl.Lex.State.{Ready, ready, lex_ok-Ready}
use mepl.Lex.Next.{Matches, lex_next-scan, lex_init-scan}
use mepl.Main.{Line, Run, has_lexeme, print_token, silent, then_run, after_line, token_loop, main}
use mepl.Main.Tokens.{Tokens, ended, broken, more, Leaves, scan-Leaves, line_of, name_of}

name_entry : (t : ℕ) → t < tt_count → get_elem? tt_names t ≡ some (name_of t)
unfolding tt_names
name_entry t h = get_elem?-eq-get_or tt_names t [] h

module _ {b : Buf} (strm : IsStream b) (debug : Bool) where
  print_token-of :
      (lp : Lex b) (t : ℕ) (w : List ℕ) (text : Block)
      → lex_ok debug lp ≡ ok tt
      → lp.l_type ≡ t
      → get_elem? tt_names t ≡ some (name_of t)
      → cur lp.l_lex ≡ ok text
      → cstring text ≡ ok w
      → print_token debug lp ≡ ok (line_of t w)
  unfolding print_token lex_name
  print_token-of lp t w text checked e n c s = elim (Bool-cases (has_lexeme t)) [
    | inl shown ↦ rw (checked, e, n, shown, c, s)
    | inr hidden ↦ rw (checked, e, n, hidden)
  ]

  print_token-Ready :
      {lp : Lex b} {t : ℕ} {w cs : List ℕ}
      → Ready strm lp t w cs
      → print_token debug lp ≡ ok (line_of t w)
  print_token-Ready {w} (ready d s t h g l) =
      let (post, at) = cur-Holds h in
      print_token-of _ t w (w ++ 0 ∷ post) (lex_ok-Ready strm debug (ready d s t h g l)) refl
        (name_entry t l) at (cstring-append w post (Holds-NoNul h))

  type_of : {lp : Lex b} {t : ℕ} {w cs : List ℕ} → Ready strm lp t w cs → lp.l_type ≡ t
  type_of (ready d s t h g l) = refl

module _ (debug : Bool) (realloc : Option Block → ℕ → Option Block) {limit : ℕ}
    (is : IsRealloc realloc limit) {b : Buf} (strm : IsStream b) (fuel : ℕ) where
  -- How the loop ends: with a lexer in a good state, or by usage().
  abbrev pub Ends : Bool → Outcome (Lex b) → Type 0
  Ends true o =
      (lp : Lex b) × (o ≡ ok lp) × (t : ℕ) × (w : List ℕ) × (rest : List ℕ) × Ready strm lp t w rest
  Ends false o = o ≡ exit misused

  abbrev pub Prints : List ℕ → Run (Lex b) → Type 0
  Prints cs r = (whole : Bool) × Tokens cs r.out whole × Ends whole r.ended

  token_loop-eof :
      (rounds : ℕ) (lp : Lex b)
      → lp.l_type ≡ tt_eof
      → token_loop debug realloc fuel (suc rounds) lp ≡ silent (ok lp)
  unfolding token_loop
  token_loop-eof rounds lp e = ground arith

  token_loop-line :
      (rounds : ℕ) (lp : Lex b) (line : Line)
      → lp.l_type ≢ tt_eof
      → print_token debug lp ≡ ok line
      → token_loop debug realloc fuel (suc rounds) lp
        ≡ after_line line
            (then_run (lex_next debug realloc fuel lp) (token_loop debug realloc fuel rounds))
  unfolding token_loop
  token_loop-line rounds lp line ne e =
      let going : (lp.l_type == tt_eof) ≡ false = ground arith in rw (token_loop, going, e) refl

  Prints-eq : (cs : List ℕ) {r r' : Run (Lex b)} → r ≡ r' → Prints cs r' → Prints cs r
  Prints-eq cs e h = subst (Prints cs) (sym e) h

  Prints-eof :
      (rounds : ℕ) {cs : List ℕ} {lp : Lex b} {t : ℕ} {w rest : List ℕ}
      → scan cs ≡ token t w rest
      → t ≡ tt_eof
      → Ready strm lp t w rest
      → Prints cs (token_loop debug realloc fuel (suc rounds) lp)
  Prints-eof rounds {cs} {lp} {t} {w} {rest} e end r =
      Prints-eq cs (token_loop-eof rounds lp (type_of strm debug r ∙ end))
        (true, ended (e ∙ ap (λ k. token k w rest) end), (lp, refl, t, w, rest, r))

  after_line-Prints :
      {cs : List ℕ} {t : ℕ} {w rest : List ℕ} {r : Run (Lex b)}
      → scan cs ≡ token t w rest
      → t ≢ tt_eof
      → Prints rest r
      → Prints cs (after_line (line_of t w) r)
  after_line-Prints e ne (whole, lines, end) = (whole, more e ne lines, end)

  Prints-more :
      (rounds : ℕ) {cs : List ℕ} {lp : Lex b} {t : ℕ} {w rest : List ℕ}
      → scan cs ≡ token t w rest
      → t ≢ tt_eof
      → Ready strm lp t w rest
      → Prints rest
          (then_run (lex_next debug realloc fuel lp) (token_loop debug realloc fuel rounds))
      → Prints cs (token_loop debug realloc fuel (suc rounds) lp)
  Prints-more rounds {cs} {lp} {t} {w} e ne r h =
      let other : lp.l_type ≢ tt_eof = λ q. ne (sym (type_of strm debug r) ∙ q) in
      Prints-eq cs (token_loop-line rounds lp (line_of t w) other (print_token-Ready strm debug r))
        (after_line-Prints e ne h)

  loop-Prints :
      (rounds : ℕ) (cs : List ℕ) (o : Outcome (Lex b)) (s : Scan)
      → scan cs ≡ s
      → Matches strm o s
      → Leaves (length cs) s
      → length cs < rounds
      → length cs < fuel
      → Room limit (length cs)
      → Prints cs (then_run o (token_loop debug realloc fuel rounds))
  loop-Prints zero cs o s e m l f g room = absurd (omega arith)
  loop-Prints (suc rounds) cs o malformed e m l f g room = rw m (false, broken e, refl)
  loop-Prints (suc rounds) cs o (token t w rest) e (lp, now, r) (a, low, shorter) f g room =
      Prints-eq cs (ap (λ o. then_run o (token_loop debug realloc fuel (suc rounds))) now)
        (elim (Bool-cases (t == tt_eof)) [
          | inl end ↦ Prints-eof rounds e ((==_iff t tt_eof).0 end) r
          | inr other ↦
              let ne : t ≢ tt_eof = ground arith in
              let left = shorter ne in
              Prints-more rounds e ne r (
                loop-Prints rounds rest _ (scan rest) refl
                  (lex_next-scan debug realloc is strm fuel rest a (omega arith) (omega arith) r)
                  (scan-Leaves rest a) (omega arith) (omega arith) (omega arith))
        ])

  -- The rounds of the loop print the tokens of a text.
  pub tokens-Prints :
      (s : b.State) (cs : List ℕ)
      → Ascii cs
      → length cs < fuel
      → Room limit (length cs)
      → strm.Gives s cs
      → Prints cs
          (then_run (lex_init debug realloc {b = b} fuel s) (token_loop debug realloc fuel fuel))
  tokens-Prints s cs a f room g =
      loop-Prints fuel cs _ (scan cs) refl
        (lex_init-scan debug realloc is strm fuel s cs a f room g) (scan-Leaves cs a) f f room

  buf_of :
      {lp : Lex b} {t : ℕ} {w cs : List ℕ}
      → Ready strm lp t w cs
      → (s : b.State) × (lp.l_buf ≡ some s) × strm.Gives s cs
  buf_of (ready d s t h g l) = (s, refl, g)

module _ (debug : Bool) (realloc : Option Block → ℕ → Option Block) {limit : ℕ}
    (is : IsRealloc realloc limit) (data_size fuel : ℕ) (lines : 1 < data_size) where
  abbrev loop_from : BufStdio → File → Run (Lex (stdio_buf debug data_size))
  loop_from b stdin =
      then_run (lex_init debug realloc {b = stdio_buf debug data_size} fuel (b, stdin))
        (token_loop debug realloc fuel fuel)

  -- main() from the end of its loop.
  abbrev close : Lex (stdio_buf debug data_size) → Outcome (Unit {0})
  close lp = do s ← deref lp.l_buf; _ ← buf_stdio_free debug data_size s.0; ok tt

  abbrev finish : Run (Lex (stdio_buf debug data_size)) → Run (Unit {0})
  finish run = record { out = run.out; ended = run.ended >>= close }

  main-of :
      (b : BufStdio) (stdin : File)
      → buf_stdio_init debug data_size true ≡ ok b
      → main debug realloc data_size fuel stdin ≡ finish (loop_from b stdin)
  unfolding main
  main-of b stdin e = rw e

  abbrev result : Bool → Outcome (Unit {0})
  result true = ok tt
  result false = exit misused

  finish-Ends :
      (run : Run (Lex (stdio_buf debug data_size))) (whole : Bool)
      → Ends debug realloc is (stdio_stream debug data_size lines) fuel whole run.ended
      → (finish run).ended ≡ result whole
  finish-Ends run true (lp, e, t, w, rest, r) =
      let (s, at, g) = buf_of debug realloc is (stdio_stream debug data_size lines) fuel r in
      let (freed, f) = buf_stdio_free-Gives debug data_size g in
      after close e (after _ (ap deref at) (after _ f refl))
  finish-Ends run false e = ap (λ o. o >>= close) e

  -- For input of 7-bit characters without a nil, a BUF_STDIO_DATA_SIZE of two or more, more
  -- fuel than the input has characters, and an allocator that grants 64 bytes more than twice
  -- their number: main() prints the lines of the input's tokens and nothing else; it returns
  -- when the whole input is tokens, and it ends by usage() at the first text that is none.
  pub main-Tokens :
      (text : List ℕ)
      → Ascii text
      → length text < fuel
      → Room limit (length text)
      → (whole : Bool) × Tokens text (main debug realloc data_size fuel (sound text)).out whole
        × ((main debug realloc data_size fuel (sound text)).ended
            ≡ (if whole then ok tt else exit misused))
  main-Tokens text a f room =
      let strm = stdio_stream debug data_size lines in
      let (b, made, g) = buf_stdio_init-Gives debug data_size text (Ascii-NoNul text a) in
      let (whole, shown, end) =
        tokens-Prints debug realloc is strm fuel (b, sound text) text a f room g in
      let same = main-of b (sound text) made in
      (
        whole,
        subst (λ r. Tokens text r.out whole) (sym same) shown,
        ap (λ r. r.ended) same ∙ finish-Ends (loop_from b (sound text)) whole end ∙ by_whole whole,
      )
    where
      by_whole : (whole : Bool) → result whole ≡ (if whole then ok tt else exit misused)
      by_whole true = refl
      by_whole false = refl
