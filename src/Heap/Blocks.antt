-- ===== src/Heap/Blocks.antt =====
-- The heap in order, with blocks put in and taken out.
use mepl.Prelude.{
  ℕ, zero, suc, ◌+◌, ◌%◌, ◌^◌, ◌<◌, ◌≡◌, refl, sym, ap, ◌∙◌, true, false, some, List, [], ◌∷◌, ◌++◌,
  arith, length, length-append, get_elem?, ok, ◌>>=◌,
}
use mepl.Free.Links.{Link, list_init, list_add_after}
use mepl.Free.Links.Circle.{mem, without, IsCircle}
use mepl.Free.Links.Changes.{list_rm-IsCircle, list_add_after-IsCircle}
use mepl.Free.Links.Fresh.{init_link}
use mepl.Heap.{Heap, heap_node_size, heap_node_new, heap_node_add, heap_node_rm, new_node, heap_put}

-- All nodes have the one size.
abbrev pub AllSizes : List ℕ → Type 0
AllSizes [] = Unit
AllSizes (n ∷ ns) = (n ≡ heap_node_size) × AllSizes ns

-- The free blocks are `xs`.
abbrev pub IsHeap : Heap → List ℕ → Type 0
IsHeap s xs = IsCircle s.links 0 xs × (length s.sizes ≡ length s.links) × AllSizes s.sizes

pub size_at :
    (ns : List ℕ) (i : ℕ) → AllSizes ns → i < length ns → get_elem? ns i ≡ some heap_node_size
size_at [] i h l = absurd (omega arith)
size_at (n ∷ ns) zero h l = ap some h.0
size_at (n ∷ ns) (suc i) h l = size_at ns i h.1 (omega arith)

AllSizes-append : (ns : List ℕ) → AllSizes ns → AllSizes (ns ++ heap_node_size ∷ [])
AllSizes-append [] h = (refl, tt)
AllSizes-append (n ∷ ns) h = (h.0, AllSizes-append ns h.1)

-- On a heap with the free blocks `xs`, heap_put() of a block that is not among them succeeds, and
-- the block is then the first that is free.
pub heap_put-IsHeap :
    (s : Heap) (p : ℕ) (xs : List ℕ)
    → IsHeap s xs
    → mem p (0 ∷ xs) ≡ false
    → p < length s.links
    → (s' : Heap) × (heap_put s p ≡ ok s')
      × IsHeap s' (p ∷ xs)
      × (s'.sizes ≡ s.sizes)
      × (s'.h_count ≡ s.h_count)
unfolding heap_put heap_node_add
heap_put-IsHeap s p xs (circle, sizes, all) apart inside =
    let (links, e, len, circle') = list_add_after-IsCircle s.links 0 p xs circle apart inside in
    (record s { links = links }, rw e, (circle', sizes ∙ sym len, all), refl, refl)

pub rm-IsHeap :
    (s : Heap) (p : ℕ) (xs : List ℕ)
    → IsHeap s xs
    → mem p xs ≡ true
    → (s' : Heap) × (heap_node_rm s p ≡ ok s') × IsHeap s' (without p xs) × (s'.sizes ≡ s.sizes)
unfolding heap_node_rm
rm-IsHeap s p xs (circle, sizes, all) m =
    let (links, e, len, circle') = list_rm-IsCircle s.links 0 p xs circle m in
    (record s { links = links }, rw e, (circle', sizes ∙ sym len, all), refl)

new_steps :
    (s : Heap) {links links' : List Link}
    → list_init (s.links ++ record { next = 0; prev = 0 } ∷ []) (length s.links) ≡ ok links
    → list_add_after links 0 (length s.links) ≡ ok links'
    → new_node true s
      ≡ ok (
        length s.links,
        record {
          links = links';
          sizes = s.sizes ++ heap_node_size ∷ [];
          h_count = (s.h_count + 1) % 2 ^ 64;
        },
      )
unfolding new_node heap_node_new heap_node_add
new_steps s init add = rw (init, ◌>>=◌, add)

pub new-IsHeap :
    (s : Heap) (xs : List ℕ)
    → IsHeap s xs
    → (s' : Heap) × (new_node true s ≡ ok (length s.links, s')) × IsHeap s' (length s.links ∷ xs)
new-IsHeap s xs (circle, sizes, all) =
    let (links, made, len, circle1, apart) =
      init_link s.links xs (record { next = 0; prev = 0 }) circle in
    let (links', add, len', circle2) =
      list_add_after-IsCircle links 0 (length s.links) xs circle1 apart (omega (arith, len)) in
    (
      record {
        links = links';
        sizes = s.sizes ++ heap_node_size ∷ [];
        h_count = (s.h_count + 1) % 2 ^ 64;
      },
      new_steps s made add,
      (
        circle2,
        omega (arith, sizes, len, len', length-append s.sizes (heap_node_size ∷ [])),
        AllSizes-append s.sizes all,
      ),
    )
