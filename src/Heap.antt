-- ===== src/Heap.antt =====
-- ideas/heap/main.c: blocks of memory in a circular list. The store has the links of the nodes, with
-- h_head first, and their hn_size beside; a pointer to a node, and to the memory behind it, is the
-- node's index. `granted` says whether sbrk() gives memory; where it fails, err() ends the process.
pub mod Blocks
pub mod Get
use mepl.Prelude.{
  ℕ, zero, suc, ◌+◌, ◌%◌, ◌^◌, Bool, List, [], ◌∷◌, ◌++◌, leb, if◌then◌else◌, length, get_elem?,
  died, Outcome, ok, exit, spin, ◌>>=◌,
}
use mepl.Memory.{deref}
use mepl.Free.Links.{Link, list_init, list_rm, list_add_after}

abbrev pub heap_node_size : ℕ
heap_node_size = 2 ^ 10

pub record Heap : Type 0 where
  pub links : List Link
  pub sizes : List ℕ
  pub h_count : ℕ

unfoldable pub heap_init : Heap
heap_init = record {
  links = record { next = 0; prev = 0 } ∷ [];
  sizes = heap_node_size ∷ [];
  h_count = 0;
}

-- do_sbrk() and heap_node_init().
unfoldable pub heap_node_new : Bool → Heap → Outcome (ℕ × Heap)
heap_node_new granted s =
    if granted
    then (do
      let p = length s.links
      links ← list_init (s.links ++ record { next = 0; prev = 0 } ∷ []) p
      ok (p, record s { links = links; sizes = s.sizes ++ heap_node_size ∷ [] }))
    else exit died

-- The statements are those of list_add_after() in ideas/free/list.h, with the head as `before`.
unfoldable pub heap_node_add : Heap → ℕ → Outcome Heap
heap_node_add s hnp = do links ← list_add_after s.links 0 hnp; ok (record s { links = links })

-- The statements are those of list_rm() in ideas/free/list.h.
unfoldable pub heap_node_rm : Heap → ℕ → Outcome Heap
heap_node_rm s hnp = do links ← list_rm s.links hnp; ok (record s { links = links })

-- The loop of heap_get(), from the node `p` on.
unfoldable pub first_fit : ℕ → Heap → ℕ → ℕ → Outcome ℕ
first_fit zero s size p = spin
first_fit (suc fuel) s size zero = ok zero
first_fit (suc fuel) s size (suc i) = do
  hn_size ← deref (get_elem? s.sizes (suc i))
  if leb size hn_size
      then ok (suc i)
      else (do l ← deref (get_elem? s.links (suc i)); first_fit fuel s size l.next)

unfoldable pub new_node : Bool → Heap → Outcome (ℕ × Heap)
new_node granted s = do
  (hnp, s1) ← heap_node_new granted s
  s2 ← heap_node_add s1 hnp
  ok (hnp, record s2 { h_count = (s2.h_count + 1) % 2 ^ 64 })

unfoldable pub heap_get : ℕ → Bool → Heap → ℕ → Outcome (ℕ × Heap)
heap_get fuel granted s size = do
  head ← deref (get_elem? s.links 0)
  p ← first_fit fuel s size head.next
  (hnp, s') ← elim p [ zero ↦ new_node granted s | suc i ↦ ok (suc i, s) ]
  s'' ← heap_node_rm s' hnp
  ok (hnp, s'')

unfoldable pub heap_put : Heap → ℕ → Outcome Heap
heap_put s p = heap_node_add s p
