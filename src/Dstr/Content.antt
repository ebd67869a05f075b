-- ===== src/Dstr/Content.antt =====
-- What a valid string holds.
use mepl.Prelude.{
  ℕ, ◌+◌, ◌*◌, ◌≤◌, ◌<◌, ◌≡◌, refl, none, some, List, [], ◌∷◌, ◌++◌, length, replicate, ok,
}
use mepl.Memory.{Block}
use mepl.Memory.Text.{NoNul}
use mepl.Dstr.{Dstr, short_size, at_short, at_heap, cur, dstr_init}

-- The string stands nil-terminated in the short buffer while it fits there, and in a heap block of
-- `d_cap + 1` bytes from then on; the capacity is at most 31 bytes over twice the length.
pub data Holds : Dstr → List ℕ → Type 0 where
  in_short :
      (xs post : List ℕ)
      → NoNul xs
      → length xs + length post ≡ short_size
      → Holds
          (record {
            d_cap = short_size;
            d_len = length xs;
            d_cur = at_short;
            d_heap = none;
            d_short = xs ++ 0 ∷ post;
          })
          xs
  in_heap :
      (xs post : List ℕ) (short : Block) (room : ℕ)
      → NoNul xs
      → length xs + length post ≡ room
      → short_size < length xs
      → room ≤ 2 * length xs
      → Holds
          (record {
            d_cap = room;
            d_len = length xs;
            d_cur = at_heap;
            d_heap = some (xs ++ 0 ∷ post);
            d_short = short;
          })
          xs

pub init-Holds : Holds dstr_init []
unfolding dstr_init
init-Holds = in_short [] (replicate short_size 0) tt refl

-- The bytes that `d_cur` points at begin with the string and its nil.
pub cur-Holds :
    {d : Dstr} {xs : List ℕ} → Holds d xs → (post : Block) × (cur d ≡ ok (xs ++ 0 ∷ post))
unfolding cur
cur-Holds (in_short xs post n e) = (post, refl)
cur-Holds (in_heap xs post short room n e l c) = (post, refl)

pub Holds-NoNul : {d : Dstr} {xs : List ℕ} → Holds d xs → NoNul xs
Holds-NoNul (in_short xs post n e) = n
Holds-NoNul (in_heap xs post short room n e l c) = n
