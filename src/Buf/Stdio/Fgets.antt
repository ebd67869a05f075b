-- ===== src/Buf/Stdio/Fgets.antt =====
-- What fgets() stores, and the nil that buf_stdio_fill() stores behind it.
use mepl.Prelude.{
  ℕ, zero, suc, ◌+◌, ◌-◌, ◌≤◌, ◌<◌, ◌≡◌, refl, sym, ap, ◌∙◌, inl, inr, true, false, List, [], ◌∷◌,
  ◌++◌, arith, ltb, ◌==◌, if◌then◌else◌, Bool-cases, length, set, drop, length-append, length-set,
  length-drop, ok, fault, subst,
}
use mathlib.Core.List.{append_assoc}
use mepl.Memory.{Block, store, blit}
use mepl.Memory.Blocks.{blit-eq-append}
use mepl.Buf.Stdio.{File, take_line, fgets}

-- The line and what is left make up the stream.
take_line-append : (n : ℕ) (left : List ℕ) → (take_line n left).0 ++ (take_line n left).1 ≡ left
unfolding take_line
take_line-append zero left = refl
take_line-append (suc n) [] = refl
take_line-append (suc n) (c ∷ left) = ground (arith, take_line-append n left)

length-take_line : (n : ℕ) (left : List ℕ) → length (take_line n left).0 ≤ n
unfolding take_line
length-take_line zero left = omega arith
length-take_line (suc n) [] = omega arith
length-take_line (suc n) (c ∷ left) = ground (arith, length-take_line n left)

-- A line is read unless the stream is at its end.
take_line-cons :
    (n : ℕ) (c : ℕ) (left : List ℕ)
    → (line : List ℕ) × ((take_line (suc n) (c ∷ left)).0 ≡ c ∷ line)
unfolding take_line
take_line-cons n c left = elim (Bool-cases (c == b'\n')) [
  | inl newline ↦ ([], rw newline)
  | inr other ↦ ((take_line n left).0, rw other)
]

-- A nil written behind a string leaves the string as it is.
set-behind :
    (pre post : List ℕ) (i : ℕ)
    → length pre < i
    → (post' : List ℕ) × (set (pre ++ 0 ∷ post) i 0 ≡ pre ++ 0 ∷ post')
      × (length post' ≡ length post)
set-behind pre post zero h = absurd (omega arith)
set-behind [] post (suc i) h = (set post i 0, refl, length-set post i 0)
set-behind (x ∷ pre) post (suc i) h =
    let (post', e, l) = set-behind pre post i (omega arith) in (post', ap (λ b. x ∷ b) e, l)

abbrev pub sound : List ℕ → File
sound left = record { left = left; broken = false; error = false }

take_line-nil : (n : ℕ) → ((take_line n []).0 ≡ []) × ((take_line n []).1 ≡ [])
unfolding take_line
take_line-nil zero = (refl, refl)
take_line-nil (suc n) = (refl, refl)

pub fgets-nil : (s : Block) (n : ℕ) → fgets s n (sound []) ≡ (false, s, sound [])
unfolding fgets
fgets-nil s n = let (line, rest) = take_line-nil (n - 1) in ground arith

fgets_some :
    (s : Block) (n c : ℕ) (left line rest : List ℕ)
    → (take_line (n - 1) left).0 ≡ c ∷ line
    → (take_line (n - 1) left).1 ≡ rest
    → fgets s n (sound left) ≡ (true, blit ((c ∷ line) ++ 0 ∷ []) s, sound rest)
unfolding fgets
fgets_some s n c left line rest e f = ground arith

-- Where bytes are left, fgets() stores the first of them and some of those behind it.
pub fgets-cons :
    (s : Block) (n c : ℕ) (left : List ℕ)
    → 1 < n
    → (line rest : List ℕ) × (line ++ rest ≡ left)
      × (length line + 2 ≤ n)
      × (fgets s n (sound (c ∷ left)) ≡ (true, blit ((c ∷ line) ++ 0 ∷ []) s, sound rest))
fgets-cons s n c left h =
    let e : n - 1 ≡ suc (n - 2) = omega arith in
    let (line, is) = take_line-cons (n - 2) c left in
    let is' = subst (λ k. (take_line k (c ∷ left)).0 ≡ c ∷ line) (sym e) is in
    let whole = take_line-append (n - 1) (c ∷ left) in
    let rest = (take_line (n - 1) (c ∷ left)).1 in
    let parts : (c ∷ line) ++ rest ≡ c ∷ left = ap (λ l. l ++ rest) (sym is') ∙ whole in
    (
      line,
      rest,
      cc,
      omega (arith, length-take_line (n - 1) (c ∷ left), ap length is'),
      fgets_some s n c (c ∷ left) line rest is' refl,
    )

-- The array after fgets() has stored a line, and buf_stdio_fill() the last nil.
pub stored-line :
    (s : Block) (data_size : ℕ) (line : List ℕ)
    → length s ≡ data_size + 1
    → length line + 1 ≤ data_size
    → (post : List ℕ) × (store (blit (line ++ 0 ∷ []) s) data_size 0 ≡ ok (line ++ 0 ∷ post))
      × (length (line ++ 0 ∷ post) ≡ data_size + 1)
unfolding store
stored-line s data_size line e h = (post', w, omega (arith, length-append line (0 ∷ post'), total))
  where
    front : length (line ++ 0 ∷ []) ≡ length line + 1
    front = length-append line (0 ∷ [])

    tail : Block
    tail = drop (length (line ++ 0 ∷ [])) s

    shape : blit (line ++ 0 ∷ []) s ≡ line ++ 0 ∷ tail
    shape =
        blit-eq-append (line ++ 0 ∷ []) s (omega (arith, front)) ∙ append_assoc line (0 ∷ []) tail

    behind :
        (post' : List ℕ) × (set (line ++ 0 ∷ tail) data_size 0 ≡ line ++ 0 ∷ post')
        × (length post' ≡ length tail)
    behind = set-behind line tail data_size (omega arith)

    post' : List ℕ
    post' = behind.0

    total : length post' + length line ≡ data_size
    total = omega (arith, behind.2, length-drop (length (line ++ 0 ∷ [])) s, front)

    room : ltb data_size (length (line ++ 0 ∷ tail)) ≡ true
    room = ground (arith, length-append line (0 ∷ tail), total, behind.2)

    w :
        (if ltb data_size (length (blit (line ++ 0 ∷ []) s))
          then ok (set (blit (line ++ 0 ∷ []) s) data_size 0)
          else fault)
        ≡ ok (line ++ 0 ∷ post')
    w = rw (shape, room, behind.1)
