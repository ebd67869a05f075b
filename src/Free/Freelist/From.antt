-- ===== src/Free/Freelist/From.antt =====
-- Handing out a slot of the pool that was found.
use mepl.Prelude.{
  ℕ, suc, ◌<◌, ◌≡◌, ap, ◌∙◌, true, false, ◌&&◌, ◌||◌, none, some, List, ◌∷◌, arith, ◌==◌, length,
  get_elem?, set, length-set, ok, ◌>>=◌,
}
use mepl.Free.Bitset.Slots.{marked}
use mepl.Free.Node.{FreeNode, free_node_get}
use mepl.Free.Node.High.{IsPool}
use mepl.Free.Node.Pool.{free_node_get-IsPool}
use mepl.Free.Links.{Link, list_rm, list_add_after}
use mepl.Free.Links.Circle.{mem, IsCircle}
use mepl.Free.Links.Changes.{list_add_after-IsCircle}
use mepl.Free.Freelist.{Freelist, get_from}
use mepl.Free.Freelist.Order.{AllPools, IsFreelist, slot_marked, AllPools-set, slot_marked-set}

-- What a slot that is handed out is.
abbrev pub Handed : ℕ → List FreeNode → Freelist → ℕ → ℕ → Type 0
Handed size before s i ptr =
    (i < length s.pools)
    × (ptr < size)
    × (slot_marked before i ptr ≡ false)
    × ((j m : ℕ) → slot_marked s.pools j m ≡ ((i == j && ptr == m) || slot_marked before j m))

get_steps :
    (size : ℕ) (s : Freelist) (i : ℕ) {fn : FreeNode} {links1 links2 : List Link} {ptr : ℕ}
    {fn' : FreeNode}
    → list_rm s.links (suc i) ≡ ok links1
    → list_add_after links1 0 (suc i) ≡ ok links2
    → get_elem? s.pools i ≡ some fn
    → free_node_get size true fn ≡ ok (some ptr, fn')
    → get_from size true s i
      ≡ ok ((i, some ptr), record s { links = links2; pools = set s.pools i fn' })
unfolding get_from
get_steps size s i rm add here got = rw (rm, ◌>>=◌, add, ◌>>=◌, here, ◌>>=◌, got)

-- get_from() with a pool in order that counts a free slot, where list_rm() leaves a list in order
-- without its link.
pub get_from-IsFreelist :
    (size : ℕ) (s : Freelist) (i : ℕ) (zs : List ℕ) {fn : FreeNode} {links1 : List Link}
    → list_rm s.links (suc i) ≡ ok links1
    → length links1 ≡ length s.links
    → IsCircle links1 0 zs
    → mem (suc i) (0 ∷ zs) ≡ false
    → length s.links ≡ suc (length s.pools)
    → AllPools size s.pools
    → s.ring.r_len ≡ 0
    → i < length s.pools
    → get_elem? s.pools i ≡ some fn
    → IsPool size fn
    → 0 < fn.fn_count
    → (ptr : ℕ) × (s' : Freelist) × (get_from size true s i ≡ ok ((i, some ptr), s'))
      × IsFreelist size s' (suc i ∷ zs)
      × Handed size s.pools s' i ptr
get_from-IsFreelist size s i zs {fn} {links1} rm len1 circle apart len all ring l here pool pos =
    let (ptr, fn', got, inside, unmarked, pool', less, marks) =
      free_node_get-IsPool size fn pool pos in
    let (links2, add, len2, circle2) =
      list_add_after-IsCircle links1 0 (suc i) zs circle apart (omega (arith, len1)) in
    let pools = set s.pools i fn' in
    let same : length pools ≡ length s.pools = length-set s.pools i fn' in
    let s' : Freelist = record s { links = links2; pools = pools } in
    (
      ptr,
      s',
      get_steps size s i rm add here got,
      (circle2, omega (arith, len1, len2, same), AllPools-set size s.pools i fn' all pool', ring),
      (
        omega (arith, same),
        inside,
        look s.pools ptr here unmarked,
        slot_marked-set s.pools i ptr fn fn' here l marks,
      ),
    )
  where
    look :
        (fns : List FreeNode) (ptr : ℕ)
        → get_elem? fns i ≡ some fn
        → marked fn.fn_free.words ptr ≡ false
        → slot_marked fns i ptr ≡ false
    look fns ptr e h =
        ap (λ o. elim o [ none ↦ false | some fn ↦ marked fn.fn_free.words ptr ]) e ∙ h
