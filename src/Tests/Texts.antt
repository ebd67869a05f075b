-- ===== src/Tests/Texts.antt =====
-- Texts for the lexer, and what it makes of them.
use mepl.Prelude.{ℕ, ◌≡◌, refl, List, [], ◌∷◌, arith}
use mepl.Memory.Text.{Ascii, NoNul}
use mepl.Lex.{tt_id}
use mepl.Lex.Scan.{token, malformed, scan, scan_char, letters, behind_letters, quoted}

-- str s ="a"
abbrev pub text : List ℕ
text = b's' ∷ b't' ∷ b'r' ∷ 32 ∷ b's' ∷ 32 ∷ b'=' ∷ b'"' ∷ b'a' ∷ b'"' ∷ []

pub text-Ascii : Ascii text
text-Ascii = ground arith

pub text-NoNul : NoNul text
text-NoNul = ground arith

-- s=s: the character behind an identifier is lost.
scan-lost : scan (b's' ∷ b'=' ∷ b's' ∷ []) ≡ token tt_id (b's' ∷ []) (b's' ∷ [])
unfolding scan scan_char letters behind_letters
scan-lost = refl

scan-open_quote : scan (b'"' ∷ b's' ∷ []) ≡ malformed
unfolding scan scan_char quoted
scan-open_quote = refl
