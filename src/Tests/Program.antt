-- ===== src/Tests/Program.antt =====
-- The lexer and the program on a text.
use mepl.Prelude.{
  ◌<◌, ◌≡◌, Bool, true, some, [], ◌∷◌, ◌++◌, if◌then◌else◌, arith, ok, exit, misused,
}
use mepl.Memory.{pos, to_char}
use mepl.Dstr.{dstr_init, dstr_free, zeroed}
use mepl.Dstr.Content.{init-Holds}
use mepl.Dstr.Check.{dstr_free-Holds}
use mepl.Dstr.Push.{Pushed, dstr_push-Holds}
use mepl.Buf.{cstr_getc}
use mepl.Buf.Cursor.{Cursor-start}
use mepl.Buf.Cstr.{BufCstr, cstr_buf}
use mepl.Buf.Cstr.Stream.{Gives, gives, cstr_stream}
use mepl.Buf.Stdio.Fgets.{sound}
use mepl.Lex.{Lex, lex_next, lex_init, tt_eof}
use mepl.Lex.Scan.{scan}
use mepl.Lex.State.{Ready, ready}
use mepl.Lex.Next.{Matches, lex_next-scan, lex_init-scan}
use mepl.Main.{main}
use mepl.Main.Tokens.{Tokens}
use mepl.Main.Prints.{main-Tokens}
use mepl.Tests.Realloc.{grow, grow-IsRealloc}
use mepl.Tests.Texts.{text, text-Ascii, text-NoNul}

abbrev source : BufCstr
source = record { c_buf = cstr_getc; c_p = some 0; c_str = some (text ++ 0 ∷ []) }

source-Gives : Gives source text
source-Gives = gives (text ++ 0 ∷ []) 0 (Cursor-start text [] text-NoNul)

abbrev lexer : Lex (cstr_buf true)
lexer = record { l_lex = dstr_init; l_buf = some source; l_type = tt_eof; l_putback = pos 0 }

lexer-Ready : Ready (cstr_stream true) lexer tt_eof [] text
lexer-Ready = ready dstr_init source tt_eof init-Holds source-Gives (omega arith)

main-Tokens_example :
    (whole : Bool) × Tokens text (main true grow 8 20 (sound text)).out whole
    × ((main true grow 8 20 (sound text)).ended ≡ (if whole then ok tt else exit misused))
main-Tokens_example =
    main-Tokens true grow grow-IsRealloc 8 20 (omega arith) text text-Ascii (omega arith)
      (omega arith)

lex_next-scan_example : Matches (cstr_stream true) (lex_next true grow 20 lexer) (scan text)
lex_next-scan_example =
    lex_next-scan true grow grow-IsRealloc (cstr_stream true) 20 text text-Ascii (omega arith)
      (omega arith) lexer-Ready

lex_init-scan_example :
    Matches (cstr_stream true) (lex_init true grow {b = cstr_buf true} 20 source) (scan text)
lex_init-scan_example =
    lex_init-scan true grow grow-IsRealloc (cstr_stream true) 20 source text text-Ascii
      (omega arith) (omega arith) source-Gives

some_char : 0 < to_char (pos b's')
unfolding to_char
some_char = omega arith

dstr_push-Holds_example : Pushed true grow grow-IsRealloc (pos b's') some_char dstr_init []
dstr_push-Holds_example =
    dstr_push-Holds true grow grow-IsRealloc (pos b's') some_char init-Holds (omega arith)

dstr_free-Holds_example : dstr_free true dstr_init ≡ ok zeroed
dstr_free-Holds_example = dstr_free-Holds true init-Holds
