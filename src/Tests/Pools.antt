-- ===== src/Tests/Pools.antt =====
-- The pools of ideas/free and the list of them, with 64 slots, of which the first and the third are
-- taken.
use mepl.Prelude.{
  ℕ, suc, ◌+◌, ◌*◌, ◌/◌, ◌%◌, ◌<◌, ◌≡◌, ◌⊎◌, refl, ap, ◌∙◌, true, false, not, ◌&&◌, ◌||◌, some,
  List, [], ◌∷◌, arith, ◌==◌, get_or, ok,
}
use mepl.Free.Word.{bit, bit-zero}
use mepl.Free.Bitset.{Bitset, bitset_first_zero}
use mepl.Free.Bitset.Slots.{marked, IsBitset}
use mepl.Free.Bitset.First.{IsFirst, IsFull, bitset_first_zero-IsFirst}
use mepl.Free.Node.{FreeNode, free_node_get, free_node_put}
use mepl.Free.Node.High.{IsPool}
use mepl.Free.Node.Pool.{free_node_get-IsPool, free_node_put-free_node_get}
use mepl.Free.Freelist.{Freelist, freelist_get, freelist_put}
use mepl.Free.Freelist.Order.{IsFreelist, slot_marked}
use mepl.Free.Freelist.From.{Handed}
use mepl.Free.Freelist.Get.{freelist_get-IsFreelist}
use mepl.Free.Freelist.Put.{freelist_put-IsFreelist}

abbrev taken_two : FreeNode
taken_two = record { fn_free = record { words = 5 ∷ []; last = 0 }; fn_count = 62 }

taken_two-IsBitset : IsBitset 64 taken_two.fn_free
taken_two-IsBitset = (refl, (omega arith, tt), refl, omega arith)

behind : (k : ℕ) → marked taken_two.fn_free.words ((0 + 1) * 64 + k) ≡ false
behind k =
    let word : ((0 + 1) * 64 + k) / 64 ≡ suc (k / 64) = omega arith in
    ap (λ i. bit (((0 + 1) * 64 + k) % 64) (get_or taken_two.fn_free.words i 0)) word
    ∙ bit-zero (((0 + 1) * 64 + k) % 64)

taken_two-IsPool : IsPool 64 taken_two
taken_two-IsPool = (taken_two-IsBitset, (0, (omega arith, omega arith, omega arith, behind)))

bitset_first_zero-IsFirst_example :
    (n : ℕ) × (b : Bitset) × (bitset_first_zero 64 taken_two.fn_free ≡ ok (n, b))
    × (IsFirst 64 taken_two.fn_free 0 n b ⊎ IsFull 64 taken_two.fn_free 0 n b)
bitset_first_zero-IsFirst_example =
    bitset_first_zero-IsFirst 64 taken_two.fn_free taken_two-IsBitset (omega arith)

free_node_get-IsPool_example :
    (ptr : ℕ) × (fn : FreeNode) × (free_node_get 64 true taken_two ≡ ok (some ptr, fn))
    × (ptr < 64)
    × (marked taken_two.fn_free.words ptr ≡ false)
    × IsPool 64 fn
    × (fn.fn_count ≡ 61)
    × ((m : ℕ) → marked fn.fn_free.words m ≡ (ptr == m || marked taken_two.fn_free.words m))
free_node_get-IsPool_example = free_node_get-IsPool 64 taken_two taken_two-IsPool (omega arith)

free_node_put-free_node_get_example :
    (ptr : ℕ) × (fn1 : FreeNode) × (fn2 : FreeNode) × (free_node_get 64 true taken_two
      ≡ ok (some ptr, fn1))
    × (free_node_put fn1 ptr ≡ ok fn2)
    × (fn2.fn_count ≡ 61)
    × ((m : ℕ) → marked fn2.fn_free.words m ≡ marked taken_two.fn_free.words m)
free_node_put-free_node_get_example =
    free_node_put-free_node_get 64 taken_two taken_two-IsPool (omega arith)

-- The list with this pool, and a ring of four places with nothing in it.
abbrev one_pool : Freelist
one_pool = record {
  links = record { next = 1; prev = 1 } ∷ record { next = 0; prev = 0 } ∷ [];
  pools = taken_two ∷ [];
  ring = record { r_wr = 0; r_rd = 0; r_len = 0; r_buf = 0 ∷ 0 ∷ 0 ∷ 0 ∷ [] };
}

one_pool-IsFreelist : IsFreelist 64 one_pool (1 ∷ [])
one_pool-IsFreelist = (
  (((refl, refl), (refl, refl)), refl, (omega arith, (omega arith, tt))),
  refl,
  (taken_two-IsPool, tt),
  refl,
)

freelist_get-IsFreelist_example :
    (i : ℕ) × (ptr : ℕ) × (s : Freelist) × (ys : List ℕ) × (freelist_get 3 64 4 true true one_pool
      ≡ ok ((i, some ptr), s))
    × IsFreelist 64 s ys
    × Handed 64 one_pool.pools s i ptr
freelist_get-IsFreelist_example =
    freelist_get-IsFreelist 3 64 4 one_pool (1 ∷ []) (omega arith) refl (omega arith)
      one_pool-IsFreelist (omega arith)

freelist_put-IsFreelist_example :
    (s : Freelist) × (freelist_put 64 4 one_pool 0 2 ≡ ok s)
    × IsFreelist 64 s (1 ∷ [])
    × (s.ring ≡ one_pool.ring)
    × ((j m : ℕ)
        → slot_marked s.pools j m ≡ (not (0 == j && 2 == m) && slot_marked one_pool.pools j m))
freelist_put-IsFreelist_example =
    freelist_put-IsFreelist 64 4 one_pool (1 ∷ []) 0 2 one_pool-IsFreelist (omega arith)
      (omega arith) refl
