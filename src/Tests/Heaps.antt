-- ===== src/Tests/Heaps.antt =====
-- The heap of ideas/heap with one block, which is free.
use mepl.Prelude.{
  ℕ, ◌<◌, ◌≡◌, refl, true, false, ◌||◌, some, List, [], ◌∷◌, arith, ◌==◌, length, get_elem?, ok,
}
use mepl.Free.Links.Circle.{mem}
use mepl.Heap.{Heap, heap_node_size, heap_get}
use mepl.Heap.Blocks.{IsHeap}
use mepl.Heap.Get.{heap_get-IsHeap}

abbrev one_free : Heap
one_free = record {
  links = record { next = 1; prev = 1 } ∷ record { next = 0; prev = 0 } ∷ [];
  sizes = heap_node_size ∷ heap_node_size ∷ [];
  h_count = 1;
}

one_free-IsHeap : IsHeap one_free (1 ∷ [])
one_free-IsHeap = (
  (((refl, refl), (refl, refl)), refl, (omega arith, (omega arith, tt))),
  refl,
  (refl, (refl, tt)),
)

heap_get-IsHeap_example :
    (p : ℕ) × (s : Heap) × (ys : List ℕ) × (heap_get 3 true one_free 2000 ≡ ok (p, s))
    × IsHeap s ys
    × ((mem p (1 ∷ []) || p == length one_free.links) ≡ true)
    × (mem p (0 ∷ ys) ≡ false)
    × (p < length s.links)
    × (get_elem? s.sizes p ≡ some heap_node_size)
heap_get-IsHeap_example = heap_get-IsHeap 3 one_free 2000 (1 ∷ []) one_free-IsHeap (omega arith)
