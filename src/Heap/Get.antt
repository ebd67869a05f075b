-- ===== src/Heap/Get.antt =====
-- The blocks that heap_get() finds.
use mepl.Prelude.{
  ℕ, zero, suc, ◌+◌, ◌≤◌, ◌<◌, ◌≡◌, refl, ap, ◌∙◌, Bool, true, false, ◌||◌, some, List, [], ◌∷◌,
  arith, leb, ◌==◌, Bool-cases, inl, inr, length, get_elem?, ok, ◌>>=◌,
}
use mepl.Free.Links.{Link}
use mepl.Free.Links.Circle.{
  mem, not_mem, distinct, Within, Within-mem, without, Segment, head_apart,
}
use mepl.Free.Links.Changes.{mem-without_self}
use mepl.Free.Freelist.Order.{next_at}
use mepl.Heap.{Heap, heap_node_size, heap_node_rm, first_fit, new_node, heap_get}
use mepl.Heap.Blocks.{AllSizes, IsHeap, size_at, rm-IsHeap, new-IsHeap}

-- The node that the loop ends at: the head, or one of the list.
abbrev IsEnd : List ℕ → ℕ → Type 0
IsEnd xs zero = Unit
IsEnd xs (suc i) = mem (suc i) xs ≡ true

IsEnd-later : (x : ℕ) (xs : List ℕ) (r : ℕ) → IsEnd xs r → IsEnd (x ∷ xs) r
IsEnd-later x xs zero h = tt
IsEnd-later x xs (suc i) h = ground (arith, h)

first_fit-end : (fuel : ℕ) (s : Heap) (size : ℕ) → 0 < fuel → first_fit fuel s size 0 ≡ ok 0
unfolding first_fit
first_fit-end zero s size h = absurd (omega arith)
first_fit-end (suc fuel) s size h = refl

module _ (fuel : ℕ) (s : Heap) (size i : ℕ)
    (here : get_elem? s.sizes (suc i) ≡ some heap_node_size) where
  fit_here : leb size heap_node_size ≡ true → first_fit (suc fuel) s size (suc i) ≡ ok (suc i)
  unfolding first_fit
  fit_here fits = rw (here, ◌>>=◌, fits)

  fit_next :
      (q : ℕ) {l : Link}
      → leb size heap_node_size ≡ false
      → get_elem? s.links (suc i) ≡ some l
      → l.next ≡ q
      → first_fit (suc fuel) s size (suc i) ≡ first_fit fuel s size q
  unfolding first_fit
  fit_next q small at n = rw (here, ◌>>=◌, small, at, ◌>>=◌, n)

first_fit-IsEnd :
    (fuel : ℕ) (s : Heap) (size x : ℕ) (xs : List ℕ)
    → Segment s.links x xs 0
    → mem 0 (x ∷ xs) ≡ false
    → Within (length s.links) (x ∷ xs)
    → length s.sizes ≡ length s.links
    → AllSizes s.sizes
    → length xs + 2 ≤ fuel
    → (r : ℕ) × (first_fit fuel s size x ≡ ok r) × IsEnd (x ∷ xs) r
first_fit-IsEnd zero s size x xs h z w len all f = absurd (omega arith)
first_fit-IsEnd (suc fuel) s size zero xs h z w len all f = cc
first_fit-IsEnd (suc fuel) s size (suc i) [] h z (i_in, w) len all f =
    let here = size_at s.sizes (suc i) all (omega arith) in
    elim (Bool-cases (leb size heap_node_size)) [
      | inl fits ↦ (suc i, fit_here fuel s size i here fits, ground arith)
      | inr small ↦
          let (l, at, n) = next_at s.links (suc i) 0 i_in h.0 in
          (
            0,
            fit_next fuel s size i here 0 small at n ∙ first_fit-end fuel s size (omega arith),
            tt,
          )
    ]
first_fit-IsEnd (suc fuel) s size (suc i) (y ∷ ys) h z (i_in, w) len all f =
    let here = size_at s.sizes (suc i) all (omega arith) in
    elim (Bool-cases (leb size heap_node_size)) [
      | inl fits ↦ (suc i, fit_here fuel s size i here fits, ground arith)
      | inr small ↦
          let (l, at, n) = next_at s.links (suc i) y i_in h.0.0 in
          let (r, ran, end) =
            first_fit-IsEnd fuel s size y ys h.1 (later i y ys z) w len all (omega arith) in
          (r, fit_next fuel s size i here y small at n ∙ ran, IsEnd-later (suc i) (y ∷ ys) r end)
    ]
  where
    later : (i y : ℕ) (ys : List ℕ) → mem 0 (suc i ∷ y ∷ ys) ≡ false → mem 0 (y ∷ ys) ≡ false
    later i y ys z = ground (arith, z)

module _ (fuel : ℕ) (s : Heap) (size x : ℕ) {l : Link} (at : get_elem? s.links 0 ≡ some l)
    (n : l.next ≡ x) where
  get_free :
      (i : ℕ) {s' : Heap}
      → first_fit fuel s size x ≡ ok (suc i)
      → heap_node_rm s (suc i) ≡ ok s'
      → heap_get fuel true s size ≡ ok (suc i, s')
  unfolding heap_get
  get_free i ran rm = rw (at, ◌>>=◌, n, ran, ◌>>=◌, rm)

  get_new :
      (p : ℕ) {s1 s' : Heap}
      → first_fit fuel s size x ≡ ok 0
      → new_node true s ≡ ok (p, s1)
      → heap_node_rm s1 p ≡ ok s'
      → heap_get fuel true s size ≡ ok (p, s')
  unfolding heap_get
  get_new p ran new rm = rw (at, ◌>>=◌, n, ran, ◌>>=◌, new, ◌>>=◌, rm)

taken_out :
    (s : Heap) (p : ℕ) (xs : List ℕ)
    → IsHeap s xs
    → mem p xs ≡ true
    → (s' : Heap) × (heap_node_rm s p ≡ ok s')
      × IsHeap s' (without p xs)
      × (mem p (0 ∷ without p xs) ≡ false)
      × (p < length s'.links)
      × (get_elem? s'.sizes p ≡ some heap_node_size)
taken_out s p xs heap m =
    let ((h, ds, w), sizes, all) = heap in
    let (s', rm, heap', same) = rm-IsHeap s p xs heap m in
    let (circle', sizes', all') = heap' in
    let below = Within-mem (length s.links) p xs w.1 m in
    let inside : p < length s'.sizes = omega (arith, below, sizes, ap length same) in
    (s', rm, heap', apart p xs ds m, omega (arith, inside, sizes'), size_at s'.sizes p all' inside)
  where
    apart :
        (p : ℕ) (xs : List ℕ)
        → distinct (0 ∷ xs) ≡ true
        → mem p xs ≡ true
        → mem p (0 ∷ without p xs) ≡ false
    apart p xs ds m =
        let rest = mem-without_self p xs (ground (arith, ds)) in
        let ne = not_mem 0 p xs (head_apart 0 xs ds) m in ground (arith, rest, ne)

search_heap :
    (fuel : ℕ) (s : Heap) (size : ℕ) (xs : List ℕ)
    → IsHeap s xs
    → length xs + 2 ≤ fuel
    → (x : ℕ) × (l : Link) × (r : ℕ) × (get_elem? s.links 0 ≡ some l)
      × (l.next ≡ x)
      × (first_fit fuel s size x ≡ ok r)
      × IsEnd xs r
search_heap fuel s size [] ((h, ds, w), sizes, all) f =
    let (l, at, n) = next_at s.links 0 0 w.0 h.0 in
    (0, l, 0, at, n, first_fit-end fuel s size (omega arith), tt)
search_heap fuel s size (x ∷ xs) ((h, ds, w), sizes, all) f =
    let (l, at, n) = next_at s.links 0 x w.0 h.0.0 in
    let (r, ran, end) =
      first_fit-IsEnd fuel s size x xs h.1 (head_apart 0 (x ∷ xs) ds) w.1 sizes all (omega arith) in
    (x, l, r, at, n, ran, end)

-- On a heap with the free blocks `xs`, with sbrk() giving memory and fuel for two rounds more than
-- there are free blocks, heap_get() of any size gives a block that was free or is new. It is not
-- free then, the heap is in order, and the block has HEAP_NODE_SIZE bytes, whatever size was asked
-- for.
pub heap_get-IsHeap :
    (fuel : ℕ) (s : Heap) (size : ℕ) (xs : List ℕ)
    → IsHeap s xs
    → length xs + 2 ≤ fuel
    → (p : ℕ) × (s' : Heap) × (ys : List ℕ) × (heap_get fuel true s size ≡ ok (p, s'))
      × IsHeap s' ys
      × ((mem p xs || p == length s.links) ≡ true)
      × (mem p (0 ∷ ys) ≡ false)
      × (p < length s'.links)
      × (get_elem? s'.sizes p ≡ some heap_node_size)
heap_get-IsHeap fuel s size xs heap f =
    let (x, l, r, at, n, ran, end) = search_heap fuel s size xs heap f in got x r at n ran end
  where
    own : (p : ℕ) (b : Bool) → (b || p == p) ≡ true
    own p b = ground arith

    got :
        (x r : ℕ) {l : Link}
        → get_elem? s.links 0 ≡ some l
        → l.next ≡ x
        → first_fit fuel s size x ≡ ok r
        → IsEnd xs r
        → (p : ℕ) × (s' : Heap) × (ys : List ℕ) × (heap_get fuel true s size ≡ ok (p, s'))
          × IsHeap s' ys
          × ((mem p xs || p == length s.links) ≡ true)
          × (mem p (0 ∷ ys) ≡ false)
          × (p < length s'.links)
          × (get_elem? s'.sizes p ≡ some heap_node_size)
    got x zero at n ran end =
        let p = length s.links in
        let (s1, new, heap1) = new-IsHeap s xs heap in
        let (s', rm, heap', apart, inside, whole) = taken_out s1 p (p ∷ xs) heap1 (ground arith) in
        (
          p,
          s',
          without p (p ∷ xs),
          get_new fuel s size x at n p ran new rm,
          heap',
          own p (mem p xs),
          apart,
          inside,
          whole,
        )
    got x (suc i) at n ran end =
        let (s', rm, heap', apart, inside, whole) = taken_out s (suc i) xs heap end in
        (
          suc i,
          s',
          without (suc i) xs,
          get_free fuel s size x at n i ran rm,
          heap',
          ap (λ b. b || suc i == length s.links) end,
          apart,
          inside,
          whole,
        )
