-- ===== src/Dstr/Push.antt =====
-- dstr_push() appends.
use mepl.Prelude.{
  ℕ, ◌+◌, ◌*◌, ◌≤◌, ◌<◌, ◌≡◌, Bool, true, false, Option, none, List, [], ◌∷◌, ◌++◌, arith, ◌==◌,
  length, length-append, ok, subst,
}
use mepl.Memory.{Block, ℤ, to_char}
use mepl.Memory.Text.{NoNul, NoNul-append}
use mepl.Dstr.{Dstr, short_size, put, dstr_ok, dstr_grow, dstr_push}
use mepl.Dstr.Content.{Holds, in_short, in_heap}
use mepl.Dstr.Check.{dstr_ok-Holds}
use mepl.Dstr.Put.{IsRealloc, put_short, put_heap}
use mepl.Dstr.Grow.{Grown, full_heap, grow-short, grow-heap}

-- A string of `n` bytes can take one more: what it may have to allocate is within the limit.
abbrev pub Room : ℕ → ℕ → Type 0
Room limit n = 2 * n + 64 ≤ limit

module _ (debug : Bool) (realloc : Option Block → ℕ → Option Block) {limit : ℕ}
    (is : IsRealloc realloc limit) (c : ℤ) (some_char : 0 < to_char c) where
  abbrev pub Pushed : Dstr → List ℕ → Type 0
  Pushed d xs =
      (d' : Dstr) × (dstr_push debug realloc d c ≡ ok d') × Holds d' (xs ++ to_char c ∷ [])

  put-Grown :
      (xs : List ℕ) (room : ℕ) (short : Block) (d : Dstr)
      → NoNul xs
      → Room limit (length xs)
      → short_size ≤ length xs
      → room ≤ 2 * length xs
      → Grown xs room short d
      → (d' : Dstr) × (put d (to_char c) ≡ ok d') × Holds d' (xs ++ to_char c ∷ [])
  put-Grown xs room short d clean enough long twice (y, post, e, total) =
      let longer = length-append xs (to_char c ∷ []) in
      (
        _,
        rw e (put_heap xs post y (to_char c) room none short (omega (arith, is.small))),
        in_heap (xs ++ to_char c ∷ []) post short room (NoNul-append xs _ clean (some_char, tt))
            (omega arith) (omega arith) (omega arith),
      )

  push_full :
      (d : Dstr) {e d' : Dstr}
      → dstr_ok debug d ≡ ok tt
      → (d.d_len == d.d_cap) ≡ true
      → dstr_grow realloc d ≡ ok e
      → put e (to_char c) ≡ ok d'
      → dstr_push debug realloc d c ≡ ok d'
  unfolding dstr_push
  push_full d checked full grown done = rw (checked, full, grown) done

  -- With an allocator that grants `limit` bytes, dstr_push() of a character whose low byte is not
  -- nil, on a string that holds the bytes `xs`, where twice their number and 64 are no more than
  -- `limit`, succeeds, and the string then holds `xs` with that byte behind.
  pub dstr_push-Holds : {d : Dstr} {xs : List ℕ} → Holds d xs → Room limit (length xs) → Pushed d xs
  unfolding dstr_push
  dstr_push-Holds (in_short xs [] clean total) enough =
      let (d, grown, shape) = grow-short realloc is xs clean (omega arith) (omega arith) in
      let (d', done, holds) =
        put-Grown xs 62 (xs ++ 0 ∷ []) d clean enough (omega arith) (omega arith) shape in
      let full : (length xs == short_size) ≡ true = ground arith in
      (d', push_full _ (dstr_ok-Holds debug (in_short xs [] clean total)) full grown done, holds)
  dstr_push-Holds (in_short xs (y ∷ post) clean total) enough =
      let longer = length-append xs (to_char c ∷ []) in
      let free : (length xs == short_size) ≡ false = ground arith in
      (
        _,
        rw (dstr_ok-Holds debug (in_short xs (y ∷ post) clean total), free)
            (put_short xs post y (to_char c) short_size none [] (omega arith)),
        in_short (xs ++ to_char c ∷ []) post (NoNul-append xs _ clean (some_char, tt))
            (omega arith),
      )
  dstr_push-Holds (in_heap xs [] short room clean total long twice) enough =
      let (d, grown, shape) = grow-heap realloc is xs clean short (omega arith) (omega arith) in
      let (d', done, holds) =
        put-Grown xs (2 * length xs) short d clean enough (omega arith) (omega arith) shape in
      let full : (length xs == room) ≡ true = ground arith in
      let e : length xs ≡ room = omega arith in
      let grown' =
        subst (λ r. dstr_grow realloc (record (full_heap xs short) { d_cap = r }) ≡ ok d) e grown in
      (
        d',
        push_full _ (dstr_ok-Holds debug (in_heap xs [] short room clean total long twice)) full
            grown' done,
        holds,
      )
  dstr_push-Holds (in_heap xs (y ∷ post) short room clean total long twice) enough =
      let longer = length-append xs (to_char c ∷ []) in
      let free : (length xs == room) ≡ false = ground arith in
      (
        _,
        rw (dstr_ok-Holds debug (in_heap xs (y ∷ post) short room clean total long twice), free)
            (put_heap xs post y (to_char c) room none short (omega (arith, is.small))),
        in_heap (xs ++ to_char c ∷ []) post short room (NoNul-append xs _ clean (some_char, tt))
            (omega arith) (omega arith) (omega arith),
      )
