-- ===== src/Dstr/Put.antt =====
-- What dstr_push() needs of the allocator, and its two writes.
use mepl.Prelude.{
  ℕ, ◌+◌, ◌%◌, ◌^◌, ◌≤◌, ◌<◌, ◌≡◌, Option, some, [], ◌∷◌, ◌++◌, arith, length, length-append, ok,
}
use mathlib.Core.List.{append_assoc}
use mepl.Memory.{Block, store}
use mepl.Memory.Blocks.{store-append}
use mepl.Dstr.{at_short, at_heap, put, cur}

-- What the allocator does, up to `limit` bytes.
pub record IsRealloc (realloc : Option Block → ℕ → Option Block) (limit : ℕ) : Type 0 where
  pub grants : (o : Option Block) (n : ℕ) → n ≤ limit → (b : Block) × (realloc o n ≡ some b)
  pub size : (o : Option Block) (n : ℕ) (b : Block) → realloc o n ≡ some b → length b ≡ n
  pub keeps :
      (old : Block) (n : ℕ) (b : Block)
      → length old ≤ n
      → realloc (some old) n ≡ some b
      → (rest : Block) × (b ≡ old ++ rest)
  pub small : limit < 2 ^ 63

store_next :
    (xs post : Block) (y c n : ℕ)
    → n ≡ length (xs ++ c ∷ [])
    → store (xs ++ c ∷ y ∷ post) n 0 ≡ ok ((xs ++ c ∷ []) ++ 0 ∷ post)
store_next xs post y c n e =
    rw (e, ← append_assoc xs (c ∷ []) (y ∷ post)) (store-append (xs ++ c ∷ []) post y 0)

next_len :
    (xs : Block) (c : ℕ) → length xs < 2 ^ 63 → (length xs + 1) % 2 ^ 64 ≡ length (xs ++ c ∷ [])
next_len xs c h = omega (arith, length-append xs (c ∷ []))

-- The nil at the end of a string is overwritten by a byte, and the one behind it by a nil.
module _ (xs post : Block) (y c room : ℕ) (heap : Option Block) (short : Block)
    (h : length xs < 2 ^ 63) where
  pub put_short :
      put
        (record {
          d_cap = room;
          d_len = length xs;
          d_cur = at_short;
          d_heap = heap;
          d_short = xs ++ 0 ∷ y ∷ post;
        })
        c
      ≡ ok (record {
        d_cap = room;
        d_len = length (xs ++ c ∷ []);
        d_cur = at_short;
        d_heap = heap;
        d_short = (xs ++ c ∷ []) ++ 0 ∷ post;
      })
  unfolding put cur
  put_short =
      rw (
        store-append xs (y ∷ post) 0 c,
        store_next xs post y c _ (next_len xs c h),
        next_len xs c h,
      )

  pub put_heap :
      put
        (record {
          d_cap = room;
          d_len = length xs;
          d_cur = at_heap;
          d_heap = some (xs ++ 0 ∷ y ∷ post);
          d_short = short;
        })
        c
      ≡ ok (record {
        d_cap = room;
        d_len = length (xs ++ c ∷ []);
        d_cur = at_heap;
        d_heap = some ((xs ++ c ∷ []) ++ 0 ∷ post);
        d_short = short;
      })
  unfolding put cur
  put_heap =
      rw (
        store-append xs (y ∷ post) 0 c,
        store_next xs post y c _ (next_len xs c h),
        next_len xs c h,
      )
