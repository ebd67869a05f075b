-- ===== src/Lex/Scan.antt =====
-- What the lexer is to make of a text, with no buffers, pointers or fuel.
use mepl.Prelude.{ℕ, Bool, ◌&&◌, ◌||◌, Option, none, some, List, [], ◌∷◌, leb, ◌==◌, if◌then◌else◌}
use mepl.Memory.{same_bytes}
use mepl.Lex.{tt_eof, tt_str, tt_id, tt_assign, tt_str_lit}

abbrev pub is_space : ℕ → Bool
is_space x = x == 32 || (leb 9 x && leb x 13)

abbrev pub is_lower : ℕ → Bool
is_lower x = leb b'a' x && leb x b'z'

abbrev pub is_letter : ℕ → Bool
is_letter x = (leb b'a' x && leb x b'z') || (leb b'A' x && leb x b'Z')

-- The letters in front, and what follows them.
unfoldable pub letters : List ℕ → List ℕ
letters [] = []
letters (x ∷ xs) = if is_letter x then x ∷ letters xs else []

unfoldable pub behind_letters : List ℕ → List ℕ
behind_letters [] = []
behind_letters (x ∷ xs) = if is_letter x then behind_letters xs else x ∷ xs

-- The text up to the next quote, if there is one, and what follows the quote.
unfoldable pub quoted : List ℕ → Option (List ℕ × List ℕ)
quoted [] = none
quoted (x ∷ xs) =
    let rest = quoted xs in
    if x == b'"' then some ([], xs) else elim rest [ none ↦ none | some (w, ys) ↦ some (x ∷ w, ys) ]

-- The next token with the text behind it, or an error.
pub data Scan : Type 0 where
  token : (type : ℕ) → (lexeme rest : List ℕ) → Scan
  malformed : Scan

abbrev pub tail : List ℕ → List ℕ
tail [] = []
tail (x ∷ xs) = xs

abbrev pub is_str : List ℕ → Bool
is_str w = same_bytes w (b's' ∷ b't' ∷ b'r' ∷ [])

-- The character behind an identifier is lost.
abbrev pub identifier : List ℕ → Scan
identifier xs =
    token (if is_str (letters xs) then tt_str else tt_id) (letters xs) (tail (behind_letters xs))

abbrev pub literal : Option (List ℕ × List ℕ) → Scan
literal none = malformed
literal (some (w, ys)) = token tt_str_lit w ys

-- The token that begins with `x`, which is no white space.
unfoldable pub scan_char : ℕ → List ℕ → Scan
scan_char x xs =
    if x == b'"'
    then literal (quoted xs)
    else if x == b'='
    then token tt_assign [] xs
    else if is_lower x
    then identifier (x ∷ xs)
    else malformed

unfoldable pub scan : List ℕ → Scan
unfolding scan_char
scan [] = token tt_eof [] []
scan (x ∷ xs) = let rest = scan xs in if is_space x then rest else scan_char x xs
