-- ===== src/Main.antt =====
-- c/main.c: the program, which prints the tokens of its standard input. A run is what it prints and
-- how it ends.
pub mod Tokens
pub mod Prints
use mepl.Prelude.{
  ℕ, zero, suc, Bool, true, false, ◌||◌, Option, none, some, List, [], ◌∷◌, ◌==◌, if◌then◌else◌,
  Outcome, ok, exit, fault, spin, ◌>>=◌, ◌>>◌,
}
use mepl.Memory.{deref, Block, cstring}
use mepl.Dstr.{cur}
use mepl.Buf.{Buf}
use mepl.Buf.Stdio.{File, buf_stdio_init, buf_stdio_free, stdio_buf}
use mepl.Lex.{Lex, lex_init, lex_next, lex_name, tt_eof, tt_id, tt_str_lit}

-- A line: the name of the token type and, for some, the lexeme.
pub record Line : Type 0 where
  pub name : List ℕ
  pub lexeme : Option (List ℕ)

abbrev pub has_lexeme : ℕ → Bool
has_lexeme t = t == tt_id || t == tt_str_lit

pub record Run (A : Type 0) : Type 0 where
  pub out : List Line
  pub ended : Outcome A

unfoldable pub print_token : Bool → {b : Buf} → Lex b → Outcome Line
print_token debug lp = do
  name ← lex_name debug lp
  if has_lexeme lp.l_type
      then (do text ← cur lp.l_lex; s ← cstring text; ok (record { name = name; lexeme = some s }))
      else ok (record { name = name; lexeme = none })

abbrev pub silent : {A : Type 0} → Outcome A → Run A
silent o = record { out = []; ended = o }

-- What is printed stays printed, however the run ends.
abbrev pub then_run : {A B : Type 0} → Outcome A → (A → Run B) → Run B
then_run (ok a) k = k a
then_run (exit e) k = silent (exit e)
then_run fault k = silent fault
then_run spin k = silent spin

abbrev pub after_line : {A : Type 0} → Line → Run A → Run A
after_line line r = record { out = line ∷ r.out; ended = r.ended }

module _ (debug : Bool) (realloc : Option Block → ℕ → Option Block) where
  -- `rounds` bounds the rounds of the loop, and `fuel` those of the loops in lex_next().
  unfoldable pub token_loop : {b : Buf} → ℕ → ℕ → Lex b → Run (Lex b)
  token_loop fuel zero lp = silent spin
  token_loop fuel (suc rounds) lp = elim (lp.l_type == tt_eof) [
    | true ↦ silent (ok lp)
    | false ↦
        then_run (print_token debug lp) λ line.
          after_line line (then_run (lex_next debug realloc fuel lp) (token_loop fuel rounds))
  ]

  unfoldable pub main : ℕ → ℕ → File → Run (Unit {0})
  main data_size fuel stdin = then_run (buf_stdio_init debug data_size true) λ b.
      let start = lex_init debug realloc {b = stdio_buf debug data_size} fuel (b, stdin) in
      let run = then_run start (token_loop fuel fuel) in
      record {
        out = run.out;
        ended = (do
          lp ← run.ended
          s ← deref lp.l_buf
          _ ← buf_stdio_free debug data_size s.0
          ok tt);
      }
