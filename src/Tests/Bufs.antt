-- ===== src/Tests/Bufs.antt =====
-- The bufs on a text.
use mepl.Prelude.{ℕ, ◌≡◌, refl, true, some, List, [], ◌∷◌, ◌++◌, arith, replicate, ok}
use mepl.Memory.{pos}
use mepl.Memory.Text.{NoNul}
use mepl.Buf.{first, behind, cstr_getc, nstr_getc, stdio_getc, unix_getc}
use mepl.Buf.Cursor.{Cursor-start, Cursor-zeros}
use mepl.Buf.Copy.{buf_test, buf_test-Gives}
use mepl.Buf.Cstr.{BufCstr, cstr_buf, buf_cstr_getc}
use mepl.Buf.Cstr.Stream as CstrStream
use mepl.Buf.Nstr.{BufNstr, buf_nstr_getc}
use mepl.Buf.Nstr.Stream as NstrStream
use mepl.Buf.Stdio.{BufStdio, File, buf_stdio_getc}
use mepl.Buf.Stdio.Fgets.{sound}
use mepl.Buf.Stdio.Stream as StdioStream
use mepl.Buf.Unix.{BufUnix, Read, got, buf_unix_getc}
use mepl.Buf.Unix.Stream as UnixStream

-- a=
abbrev text : List ℕ
text = b'a' ∷ b'=' ∷ []

abbrev of_cstr : BufCstr
of_cstr = record { c_buf = cstr_getc; c_p = some 0; c_str = some (text ++ 0 ∷ []) }

text-NoNul : NoNul text
text-NoNul = ground arith

of_cstr-Gives : CstrStream.Gives of_cstr text
of_cstr-Gives = CstrStream.gives (text ++ 0 ∷ []) 0 (Cursor-start text [] text-NoNul)

buf_cstr_getc-Gives_example :
    (s : BufCstr) × (buf_cstr_getc true of_cstr ≡ ok (first text, s))
    × CstrStream.Gives s (behind text)
buf_cstr_getc-Gives_example = CstrStream.buf_cstr_getc-Gives true text of_cstr-Gives

buf_test-Gives_example : buf_test (cstr_buf true) 3 of_cstr ≡ ok text
buf_test-Gives_example =
    buf_test-Gives (CstrStream.cstr_stream true) 3 of_cstr text (ground arith) (omega arith)
      of_cstr-Gives

abbrev of_nstr : BufNstr
of_nstr = record { n_buf = nstr_getc; n_len = 2; n_str = some text; n_p = some 0 }

buf_nstr_getc-Gives_example :
    (s : BufNstr) × (buf_nstr_getc true of_nstr ≡ ok (first text, s))
    × NstrStream.Gives s (behind text)
buf_nstr_getc-Gives_example =
    NstrStream.buf_nstr_getc-Gives true text
      (NstrStream.gives text [] text [] 0 2 refl refl (omega arith))

abbrev of_stdio : BufStdio
of_stdio = record { s_buf = stdio_getc; s_p = some 0; s_open = true; s_data = replicate 9 0 }

buf_stdio_getc-Gives_example :
    (s : (BufStdio × File)) × (buf_stdio_getc true 8 (of_stdio, sound text) ≡ ok (first text, s))
    × StdioStream.Gives 8 s (behind text)
buf_stdio_getc-Gives_example =
    StdioStream.buf_stdio_getc-Gives true 8 (omega arith) text
      (StdioStream.gives (replicate 9 0) 0 [] text (Cursor-zeros 8) refl text-NoNul refl)

abbrev of_unix : BufUnix
of_unix = record { u_buf = unix_getc; u_p = some 0; u_data = replicate 9 0; u_fd = pos 3 }

abbrev reads : List Read
reads = got text ∷ []

reads-AllRead : UnixStream.AllRead 8 reads
reads-AllRead = (omega arith, omega arith, text-NoNul, tt)

buf_unix_getc-Gives_example :
    (s : (BufUnix × List Read)) × (buf_unix_getc true 8 (of_unix, reads) ≡ ok (first text, s))
    × UnixStream.Gives 8 s (behind text)
buf_unix_getc-Gives_example =
    UnixStream.buf_unix_getc-Gives true 8 text
      (UnixStream.gives (replicate 9 0) 0 3 [] reads (Cursor-zeros 8) refl reads-AllRead refl)
