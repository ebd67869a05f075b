-- ===== src/Free/Freelist.antt =====
-- ideas/free/main.c: the list of pools. The store of links has the variable `freelist` first, and
-- behind it the fn_list of each pool, in the order of the pools; a pointer to a pool is its index.
-- What is freed stays in the store.
pub mod Order
pub mod From
pub mod Get
pub mod Put
use mepl.Prelude.{
  ℕ, zero, suc, Bool, Option, none, some, List, [], ◌∷◌, ◌++◌, ◌==◌, if◌then◌else◌, length,
  get_elem?, set, Outcome, ok, fault, spin, ◌>>=◌,
}
use mepl.Memory.{deref}
use mepl.Free.Node.{FreeNode, free_node_init, free_node_new, free_node_put, free_node_get}
use mepl.Free.Links.{Link, list_init, list_rm, list_add_after}
use mepl.Free.NodeRing.{NodeRing, node_ring_full, node_ring_empty, node_ring_put, node_ring_get}

pub record Freelist : Type 0 where
  pub links : List Link
  pub pools : List FreeNode
  pub ring : NodeRing

-- The loop of freelist_get(), from the link `p` on: the link that it ends at.
unfoldable pub first_pool : ℕ → Freelist → ℕ → Outcome ℕ
first_pool zero s p = spin
first_pool (suc fuel) s zero = ok zero
first_pool (suc fuel) s (suc i) = do
  fn ← deref (get_elem? s.pools i)
  if fn.fn_count == 0
      then (do l ← deref (get_elem? s.links (suc i)); first_pool fuel s l.next)
      else ok (suc i)

-- A pool for the list, which is used again or new: its index.
unfoldable pub another_pool : ℕ → ℕ → Bool → Freelist → Outcome (ℕ × Freelist)
another_pool size ring_size granted s =
    if node_ring_empty s.ring
    then elim (free_node_new size granted) [
      | none ↦ fault
      | some fn ↦ do
        let i = length s.pools
        let links = s.links ++ record { next = 0; prev = 0 } ∷ []
        links' ← list_init links (suc i)
        ok (i, record s { links = links'; pools = s.pools ++ fn ∷ [] })
    ]
    else (do
      (i, ring) ← node_ring_get ring_size s.ring
      links ← list_init s.links (suc i)
      ok (i, record { links = links; pools = set s.pools i (free_node_init size); ring = ring }))

-- From the label `get` on: the pool, and what db_query_node_get() gives.
unfoldable pub get_from : ℕ → Bool → Freelist → ℕ → Outcome ((ℕ × Option ℕ) × Freelist)
get_from size granted s i = do
  links1 ← list_rm s.links (suc i)
  links2 ← list_add_after links1 0 (suc i)
  fn ← deref (get_elem? s.pools i)
  (ptr, fn') ← free_node_get size granted fn
  ok ((i, ptr), record s { links = links2; pools = set s.pools i fn' })

-- `pool_granted` and `ptr_granted` say whether malloc() gives memory for a pool, and for the struct
-- that points to the slot.
unfoldable pub freelist_get :
    ℕ → ℕ → ℕ → Bool → Bool → Freelist → Outcome ((ℕ × Option ℕ) × Freelist)
freelist_get fuel size ring_size pool_granted ptr_granted s = do
  head ← deref (get_elem? s.links 0)
  p ← first_pool fuel s head.next
  elim p [
    | zero ↦ do (i, s') ← another_pool size ring_size pool_granted s; get_from size ptr_granted s' i
    | suc i ↦ get_from size ptr_granted s i
  ]

-- `owner` and `ptr` are what the struct points to.
unfoldable pub freelist_put : ℕ → ℕ → Freelist → ℕ → ℕ → Outcome Freelist
freelist_put size ring_size s owner ptr = do
  fn ← deref (get_elem? s.pools owner)
  fn' ← free_node_put fn ptr
  let s' = record s { pools = set s.pools owner fn' }
  if fn'.fn_count == size
      then (do
        ring ← node_ring_put ring_size s'.ring owner
        if node_ring_full ring_size ring
            then (do (_, ring') ← node_ring_get ring_size ring; ok (record s' { ring = ring' }))
            else ok (record s' { ring = ring }))
      else ok s'
