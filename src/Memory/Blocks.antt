-- ===== src/Memory/Blocks.antt =====
-- Reads and writes of a block whose parts are known.
use mepl.Prelude.{
  ℕ, suc, ◌≤◌, ◌≡◌, refl, ap, List, [], ◌∷◌, ◌++◌, arith, length, set, length-append, ok, drop,
}
use mepl.Memory.{Block, load, store, blit}

pub load-append : (pre post : Block) (x : ℕ) → load (pre ++ x ∷ post) (length pre) ≡ ok x
unfolding load
load-append [] post x = refl
load-append (y ∷ pre) post x = load-append pre post x

set-append : (pre post : Block) (x v : ℕ) → set (pre ++ x ∷ post) (length pre) v ≡ pre ++ v ∷ post
set-append [] post x v = refl
set-append (y ∷ pre) post x v = ap (λ l. y ∷ l) (set-append pre post x v)

pub store-append :
    (pre post : Block) (x v : ℕ) → store (pre ++ x ∷ post) (length pre) v ≡ ok (pre ++ v ∷ post)
unfolding store
store-append pre post x v = ground (arith, set-append pre post x v, length-append pre (x ∷ post))

pub length-blit : (s b : List ℕ) → length (blit s b) ≡ length b
length-blit [] b = refl
length-blit (x ∷ s) [] = refl
length-blit (x ∷ s) (y ∷ b) = ap suc (length-blit s b)

pub blit-eq-append : (s b : List ℕ) → length s ≤ length b → blit s b ≡ s ++ drop (length s) b
blit-eq-append [] b h = refl
blit-eq-append (x ∷ s) [] h = absurd (omega arith)
blit-eq-append (x ∷ s) (y ∷ b) h = ap (λ l. x ∷ l) (blit-eq-append s b (omega arith))
