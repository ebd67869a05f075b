-- ===== src/Ptrset.antt =====
-- ideas/ptrset/ptrset.h and ideas/ptrset/types.h: a set of pointers, each of them ADDR_LEN chunks
-- of 16 bits. A pointer is the list of its chunks.
pub mod ListSet
pub mod Fixset
pub mod DynarrSet
pub mod Hash
pub mod KidTree
pub mod BstSet
use mepl.Prelude.{ℕ, Bool, true, false, ◌&&◌, List, [], ◌∷◌, ◌==◌}

-- ADDR_LEN
abbrev pub addr_len : ℕ
addr_len = 4

-- Whether two pointers are the same.
abbrev pub same_ptr : List ℕ → List ℕ → Bool
same_ptr [] [] = true
same_ptr (x ∷ xs) (y ∷ ys) = x == y && same_ptr xs ys
same_ptr _ _ = false
