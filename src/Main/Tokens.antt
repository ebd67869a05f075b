-- ===== src/Main/Tokens.antt =====
-- The lines that a text stands for, token by token.
use mepl.Prelude.{
  ℕ, suc, ◌≤◌, ◌<◌, ◌≡◌, refl, ◌≢◌, inl, inr, Bool, true, false, Option, none, some, List, [], ◌∷◌,
  arith, ◌==◌, if◌then◌else◌, Bool-cases, length, get_or, subst,
}
use mepl.Memory.Text.{Ascii}
use mepl.Lex.{tt_eof, tt_count, tt_names}
use mepl.Lex.Scan.{
  Scan, token, malformed, scan, scan_char, is_space, is_letter, is_lower, behind_letters, quoted,
  tail, identifier, literal,
}
use mepl.Main.{Line, has_lexeme}

abbrev pub name_of : ℕ → List ℕ
name_of t = get_or tt_names t []

abbrev pub line_of : ℕ → List ℕ → Line
line_of t w = record { name = name_of t; lexeme = if has_lexeme t then some w else none }

-- The lines of a text, and whether all of it is tokens.
pub data Tokens : List ℕ → List Line → Bool → Type 0 where
  ended : {cs w rest : List ℕ} → scan cs ≡ token tt_eof w rest → Tokens cs [] true
  broken : {cs : List ℕ} → scan cs ≡ malformed → Tokens cs [] false
  more :
      {cs w rest : List ℕ} {t : ℕ} {lines : List Line} {whole : Bool}
      → scan cs ≡ token t w rest
      → t ≢ tt_eof
      → Tokens rest lines whole
      → Tokens cs (line_of t w ∷ lines) whole

-- What the scan leaves of an ASCII text is ASCII, and shorter unless the end was met; the type is
-- one of the five.
abbrev pub Leaves : ℕ → Scan → Type 0
Leaves n (token t w rest) = Ascii rest × (t < tt_count) × (t ≢ tt_eof → length rest < n)
Leaves n malformed = Unit

Leaves-mono : (n m : ℕ) (s : Scan) → n ≤ m → Leaves n s → Leaves m s
Leaves-mono n m (token t w rest) h (a, l, f) = (a, l, λ ne. omega (arith, f ne))
Leaves-mono n m malformed h l = tt

tail-shorter :
    (n : ℕ) (cs : List ℕ) → Ascii cs → length cs ≤ n → Ascii (tail cs) × (length (tail cs) ≤ n)
tail-shorter n [] a h = (tt, h)
tail-shorter n (x ∷ cs) a h = (a.2, omega arith)

behind_letters-shorter :
    (cs : List ℕ) → Ascii cs → Ascii (behind_letters cs) × (length (behind_letters cs) ≤ length cs)
unfolding behind_letters
behind_letters-shorter [] a = (tt, omega arith)
behind_letters-shorter (x ∷ cs) a =
    let (b, l) = behind_letters-shorter cs a.2 in
    elim (Bool-cases (is_letter x)) [
      | inl letter ↦ rw letter (b, omega arith)
      | inr other ↦ rw other (a, omega arith)
    ]

quoted-Leaves : (cs : List ℕ) → Ascii cs → Leaves (suc (length cs)) (literal (quoted cs))
unfolding quoted
quoted-Leaves [] a = tt
quoted-Leaves (x ∷ cs) a = elim (Bool-cases (x == b'"')) [
  | inl quote ↦ rw quote (a.2, omega arith, λ ne. omega arith)
  | inr other ↦ rw other (longer (quoted cs) (quoted-Leaves cs a.2))
]
  where
    longer :
        (q : Option (List ℕ × List ℕ))
        → Leaves (suc (length cs)) (literal q)
        → Leaves
            (suc (suc (length cs)))
            (literal (elim q [ none ↦ none | some (w, ys) ↦ some (x ∷ w, ys) ]))
    longer none l = tt
    longer (some (w, ys)) (b, l, f) = (b, l, λ ne. omega (arith, f ne))

identifier-Leaves :
    (x : ℕ) (cs : List ℕ) → Ascii (x ∷ cs) → Leaves (suc (length cs)) (identifier (x ∷ cs))
unfolding behind_letters
identifier-Leaves x cs a =
    let (b, l) = behind_letters-shorter cs a.2 in
    elim (Bool-cases (is_letter x)) [
      | inl letter ↦
          let (c, m) = tail-shorter (length cs) (behind_letters cs) b l in
          rw letter (c, ground arith, λ ne. omega arith)
      | inr other ↦ rw other (a.2, ground arith, λ ne. omega arith)
    ]

scan_char-Leaves :
    (x : ℕ) (cs : List ℕ) → Ascii (x ∷ cs) → Leaves (suc (length cs)) (scan_char x cs)
unfolding scan_char
scan_char-Leaves x cs a = elim (Bool-cases (x == b'"')) [
  | inl quote ↦ rw quote (quoted-Leaves cs a.2)
  | inr no_quote ↦ elim (Bool-cases (x == b'=')) [
    | inl assign ↦ rw (no_quote, assign) (a.2, omega arith, λ ne. omega arith)
    | inr no_assign ↦ elim (Bool-cases (is_lower x)) [
      | inl lower ↦ rw (no_quote, no_assign, lower) (identifier-Leaves x cs a)
      | inr other ↦ rw (no_quote, no_assign, other) tt
    ]
  ]
]

pub scan-Leaves : (cs : List ℕ) → Ascii cs → Leaves (length cs) (scan cs)
unfolding scan
scan-Leaves [] a = (tt, omega arith, λ ne. absurd (ne refl))
scan-Leaves (x ∷ cs) a = elim (Bool-cases (is_space x)) [
  | inl space ↦ rw space (Leaves-mono (length cs) _ (scan cs) (omega arith) (scan-Leaves cs a.2))
  | inr other ↦ rw other (scan_char-Leaves x cs a)
]

-- A text stands for one list of lines.
pub Tokens-unique :
    {cs : List ℕ} {l m : List Line} {u v : Bool} → Tokens cs l u → Tokens cs m v → (l ≡ m) × (u ≡ v)
Tokens-unique (ended e) (ended f) = (refl, refl)
Tokens-unique (ended e) (broken f) = cc
Tokens-unique (ended e) (more f ne k) = absurd (ne (cc))
Tokens-unique (broken e) (ended f) = cc
Tokens-unique (broken e) (broken f) = (refl, refl)
Tokens-unique (broken e) (more f ne k) = cc
Tokens-unique (more e ne h) (ended f) = absurd (ne (cc))
Tokens-unique (more e ne h) (broken f) = cc
Tokens-unique (more {w} {rest} {t} {lines} {whole} e ne h)
      (more {w = w'} {rest = rest'} {t = t'} {lines = lines'} {whole = whole'} f ne' k) =
    let same : rest' ≡ rest = cc in
    let ih : (lines ≡ lines') × (whole ≡ whole') =
      Tokens-unique h (subst (λ r. Tokens r lines' whole') same k) in
    let type : t ≡ t' = cc in
    let word : w ≡ w' = cc in let tail : lines ≡ lines' = ih.0 in (cc, ih.1)
