-- ===== src/Dstr/Grow.antt =====
-- dstr_grow() doubles the capacity of a full string and keeps its bytes.
use mepl.Prelude.{
  ℕ, ◌+◌, ◌*◌, ◌%◌, ◌^◌, ◌≤◌, ◌<◌, ◌≡◌, refl, sym, ap, ◌∙◌, true, Option, none, some, [], ◌∷◌, ◌++◌,
  arith, ltb, length, drop, length-append, ok,
}
use mathlib.Core.List.{append_assoc}
use mepl.Memory.{Block, strcpy, blit}
use mepl.Memory.Blocks.{blit-eq-append, length-blit}
use mepl.Memory.Text.{NoNul, cstring-append}
use mepl.Dstr.{Dstr, short_size, at_short, at_heap, dstr_grow}
use mepl.Dstr.Put.{IsRealloc}

nonempty : (b : Block) → 0 < length b → (y : ℕ) × (post : Block) × (b ≡ y ∷ post)
nonempty [] h = absurd (omega arith)
nonempty (y ∷ post) h = (y, post, refl)

-- A block that begins with a string and its nil, and is longer than that.
Longer : Block → ℕ → Block → Type 0
Longer xs n b =
    (y : ℕ) × (post : Block) × (b ≡ xs ++ 0 ∷ y ∷ post) × (length xs + length post + 2 ≡ n)

longer :
    (xs rest : Block) (n : ℕ)
    → length ((xs ++ 0 ∷ []) ++ rest) ≡ n
    → length xs + 1 < n
    → Longer xs n ((xs ++ 0 ∷ []) ++ rest)
unfolding Longer
longer xs rest n e h =
    let total = length-append (xs ++ 0 ∷ []) rest in
    let front = length-append xs (0 ∷ []) in
    let (y, post, is) = nonempty rest (omega arith) in
    (
      y,
      post,
      ap (λ r. (xs ++ 0 ∷ []) ++ r) is ∙ append_assoc xs (0 ∷ []) (y ∷ post),
      omega (arith, ap length is),
    )

strcpy_room :
    (xs b : Block) (n : ℕ)
    → NoNul xs
    → length b ≡ n
    → length xs + 1 < n
    → (b' : Block) × (strcpy b (xs ++ 0 ∷ []) ≡ ok b') × Longer xs n b'
unfolding strcpy
strcpy_room xs b n clean e h =
    let long : length (xs ++ 0 ∷ []) ≤ length b = omega (arith, length-append xs (0 ∷ [])) in
    let copied = blit-eq-append (xs ++ 0 ∷ []) b long in
    (
      blit (xs ++ 0 ∷ []) b,
      rw (cstring-append xs [] clean, fits) refl,
      rw copied (
          longer xs (drop (length (xs ++ 0 ∷ [])) b) n
            (sym (ap length copied) ∙ (length-blit (xs ++ 0 ∷ []) b ∙ e)) h),
    )
  where
    fits : ltb (length xs) (length b) ≡ true
    fits = ground arith

-- The string that dstr_grow() leaves: the same bytes in a heap block with room for another byte.
abbrev pub Grown : Block → ℕ → Block → Dstr → Type 0
Grown xs room short d =
    (y : ℕ) × (post : Block) × (d ≡ record {
      d_cap = room;
      d_len = length xs;
      d_cur = at_heap;
      d_heap = some (xs ++ 0 ∷ y ∷ post);
      d_short = short;
    })
    × (length xs + length post + 1 ≡ room)

-- Strings that fill their capacity.
module _ (xs : Block) where
  abbrev pub full_short : Dstr
  full_short = record {
    d_cap = short_size;
    d_len = length xs;
    d_cur = at_short;
    d_heap = none;
    d_short = xs ++ 0 ∷ [];
  }

  abbrev pub full_heap : Block → Dstr
  full_heap short = record {
    d_cap = length xs;
    d_len = length xs;
    d_cur = at_heap;
    d_heap = some (xs ++ 0 ∷ []);
    d_short = short;
  }

  module _ (realloc : Option Block → ℕ → Option Block) (b : Block) where
    grow-short_of :
        (b' : Block)
        → realloc none 63 ≡ some b
        → strcpy b (xs ++ 0 ∷ []) ≡ ok b'
        → dstr_grow realloc full_short
          ≡ ok (record full_short { d_cap = 62; d_cur = at_heap; d_heap = some b' })
    unfolding dstr_grow
    grow-short_of b' got copied = rw (got, copied, dstr_grow)

    grow-heap_of :
        (short : Block)
        → length xs * 2 % 2 ^ 64 ≡ 2 * length xs
        → (2 * length xs + 1) % 2 ^ 64 ≡ 2 * length xs + 1
        → realloc (some (xs ++ 0 ∷ [])) (2 * length xs + 1) ≡ some b
        → dstr_grow realloc (full_heap short)
          ≡ ok (record (full_heap short) { d_cap = 2 * length xs; d_heap = some b })
    unfolding dstr_grow
    grow-heap_of short twice bytes got = rw (twice, bytes, got, dstr_grow) (rw twice)

module _ (realloc : Option Block → ℕ → Option Block) {limit : ℕ} (is : IsRealloc realloc limit)
    (xs : Block) (clean : NoNul xs) where
  pub grow-short :
      length xs ≡ short_size
      → 2 * short_size + 1 ≤ limit
      → (d : Dstr) × (dstr_grow realloc (full_short xs) ≡ ok d)
        × Grown xs (2 * short_size) (xs ++ 0 ∷ []) d
  unfolding Longer
  grow-short full enough =
      let (b, got) = is.grants none 63 enough in
      let (b', copied, (y, post, split, total)) =
        strcpy_room xs b 63 clean (is.size none 63 b got) (omega arith) in
      let d = λ (heap : Block). record (full_short xs) {
        d_cap = 62;
        d_cur = at_heap;
        d_heap = some heap;
      } in
      (d b', grow-short_of xs realloc b b' got copied, (y, post, ap d split, omega arith))

  pub grow-heap :
      (short : Block)
      → 2 * length xs + 1 ≤ limit
      → 0 < length xs
      → (d : Dstr) × (dstr_grow realloc (full_heap xs short) ≡ ok d)
        × Grown xs (2 * length xs) short d
  unfolding Longer
  grow-heap short enough some_bytes =
      let twice : length xs * 2 % 2 ^ 64 ≡ 2 * length xs = omega (arith, is.small) in
      let bytes : (2 * length xs + 1) % 2 ^ 64 ≡ 2 * length xs + 1 = omega (arith, is.small) in
      let old : Block = xs ++ 0 ∷ [] in
      let (b, got) = is.grants (some old) (2 * length xs + 1) enough in
      let (rest, split) = is.keeps old _ b (omega (arith, length-append xs (0 ∷ []))) got in
      let (y, post, shape, total) =
        longer xs rest (2 * length xs + 1) (ap length (sym split) ∙ is.size _ _ b got)
          (omega arith) in
      let d = λ (heap : Block). record (full_heap xs short) {
        d_cap = 2 * length xs;
        d_heap = some heap;
      } in
      (
        d b,
        grow-heap_of xs realloc b short twice bytes got,
        (y, post, ap d (split ∙ shape), omega arith),
      )
