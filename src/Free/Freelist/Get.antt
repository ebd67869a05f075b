-- ===== src/Free/Freelist/Get.antt =====
-- What freelist_get() hands out.
use mepl.Prelude.{
  ℕ, zero, suc, ◌+◌, ◌%◌, ◌^◌, ◌≤◌, ◌<◌, ◌≡◌, refl, sym, ap, ◌∙◌, subst, true, false, ◌&&◌, ◌||◌,
  some, List, [], ◌∷◌, ◌++◌, arith, ◌==◌, length, length-append, get_elem?, get_elem?-append_self,
  ok, ◌>>=◌,
}
use mepl.Free.Bitset.Slots.{marked}
use mepl.Free.Node.{FreeNode, free_node_init, free_node_new}
use mepl.Free.Node.High.{IsPool}
use mepl.Free.Node.Pool.{free_node_init-IsPool}
use mepl.Free.NodeRing.{node_ring_empty}
use mepl.Free.Links.{Link, list_init}
use mepl.Free.Links.Circle.{mem, distinct, Within-mem, without, head_apart}
use mepl.Free.Links.Changes.{mem-without_self, list_rm-IsCircle}
use mepl.Free.Freelist.{Freelist, first_pool, another_pool, get_from, freelist_get}
use mepl.Free.Freelist.Order.{
  IsFreelist, slot_marked, IsPool-at, AllPools-append, IsStop, first_pool-IsStop, first_pool-end,
  next_at,
}
use mepl.Free.Links.Fresh.{new_link}
use mepl.Free.Freelist.From.{Handed, get_from-IsFreelist}

slot_marked-append :
    (fns : List FreeNode) (fn : FreeNode)
    → ((m : ℕ) → marked fn.fn_free.words m ≡ false)
    → (j m : ℕ) → slot_marked (fns ++ fn ∷ []) j m ≡ slot_marked fns j m
slot_marked-append [] fn h zero m = h m
slot_marked-append [] fn h (suc j) m = refl
slot_marked-append (f ∷ fns) fn h zero m = refl
slot_marked-append (f ∷ fns) fn h (suc j) m = slot_marked-append fns fn h j m

abbrev with_pool : ℕ → Freelist → List Link → Freelist
with_pool size s links = record s { links = links; pools = s.pools ++ free_node_init size ∷ [] }

module _ (fuel size ring_size : ℕ) (s : Freelist) where
  another_steps :
      (links : List Link)
      → s.ring.r_len ≡ 0
      → list_init (s.links ++ record { next = 0; prev = 0 } ∷ []) (suc (length s.pools)) ≡ ok links
      → another_pool size ring_size true s ≡ ok (length s.pools, with_pool size s links)
  unfolding another_pool node_ring_empty free_node_new
  another_steps links ring e =
      let empty : (s.ring.r_len == 0) ≡ true = ground arith in rw (empty, e)

  get_found :
      (x i : ℕ) {l : Link}
      → get_elem? s.links 0 ≡ some l
      → l.next ≡ x
      → first_pool fuel s x ≡ ok (suc i)
      → freelist_get fuel size ring_size true true s ≡ get_from size true s i
  unfolding freelist_get
  get_found x i at n e = rw (at, ◌>>=◌, n, e)

  get_new :
      (x i : ℕ) {l : Link} {s' : Freelist}
      → get_elem? s.links 0 ≡ some l
      → l.next ≡ x
      → first_pool fuel s x ≡ ok 0
      → another_pool size ring_size true s ≡ ok (i, s')
      → freelist_get fuel size ring_size true true s ≡ get_from size true s' i
  unfolding freelist_get
  get_new x i at n e other = rw (at, ◌>>=◌, n, e, ◌>>=◌, other)

  -- The pool that the search finds.
  search_pools :
      (xs : List ℕ)
      → IsFreelist size s xs
      → length xs + 2 ≤ fuel
      → (x : ℕ) × (l : Link) × (r : ℕ) × (get_elem? s.links 0 ≡ some l)
        × (l.next ≡ x)
        × (first_pool fuel s x ≡ ok r)
        × IsStop s xs r
  search_pools [] ((h, ds, w), len, all, ring) f =
      let (l, at, n) = next_at s.links 0 0 w.0 h.0 in
      (0, l, 0, at, n, first_pool-end fuel s (omega arith), tt)
  search_pools (x ∷ xs) ((h, ds, w), len, all, ring) f =
      let (l, at, n) = next_at s.links 0 x w.0 h.0.0 in
      let (r, ran, stop) =
        first_pool-IsStop size fuel s x xs h.1 (head_apart 0 (x ∷ xs) ds) w.1 len all
          (omega arith) in
      (x, l, r, at, n, ran, stop)

  from_found :
      (xs : List ℕ) (i : ℕ)
      → IsFreelist size s xs
      → IsStop s xs (suc i)
      → (ptr : ℕ) × (s' : Freelist) × (get_from size true s i ≡ ok ((i, some ptr), s'))
        × IsFreelist size s' (suc i ∷ without (suc i) xs)
        × Handed size s.pools s' i ptr
  from_found xs i (circle, len, all, ring) (m, (fn, here, pos)) =
      let (h, ds, w) = circle in
      let i_in : i < length s.pools =
        omega (arith, Within-mem (length s.links) (suc i) xs w.1 m, len) in
      let (fn1, here1, pool1) = IsPool-at size s.pools i all i_in in
      let same : fn1 ≡ fn = inner_node (sym here1 ∙ here) in
      let (links1, rm, len1, circle1) = list_rm-IsCircle s.links 0 (suc i) xs circle m in
      get_from-IsFreelist size s i (without (suc i) xs) rm len1 circle1 (apart i xs ds) len all ring
        i_in here (subst (IsPool size) same pool1) pos
    where
      inner_node : {a b : FreeNode} → some a ≡ some b → a ≡ b
      inner_node e = cc

      apart :
          (i : ℕ) (xs : List ℕ)
          → distinct (0 ∷ xs) ≡ true
          → mem (suc i) (0 ∷ without (suc i) xs) ≡ false
      apart i xs ds =
          let rest = mem-without_self (suc i) xs (ground (arith, ds)) in ground (arith, rest)

  from_new :
      (xs : List ℕ)
      → 64 ≤ size
      → size % 64 ≡ 0
      → size < 2 ^ 64
      → IsFreelist size s xs
      → (i : ℕ) × (ptr : ℕ) × (s1 : Freelist) × (s' : Freelist) × (another_pool size ring_size true
            s
          ≡ ok (i, s1))
        × (get_from size true s1 i ≡ ok ((i, some ptr), s'))
        × IsFreelist size s' (suc i ∷ xs)
        × Handed size s.pools s' i ptr
  from_new xs large whole top (circle, len, all, ring) =
      let i = length s.pools in
      let (links, links1, made, len_made, rm, len_rm, circle1, apart) =
        new_link s.links xs (record { next = 0; prev = 0 }) (suc i) len circle in
      let s1 = with_pool size s links in
      let fn = free_node_init size in
      let (pool, count, none_marked) = free_node_init-IsPool size large whole top in
      let more : length s1.pools ≡ suc i = omega (arith, length-append s.pools (fn ∷ [])) in
      let all1 = AllPools-append size s.pools fn all pool in
      let (ptr, s', got, order, (i_in, inside, unmarked, marks)) =
        get_from-IsFreelist size s1 i xs rm len_rm circle1 apart (omega (arith, len_made, more))
          all1 ring (omega (arith, more)) (get_elem?-append_self s.pools fn) pool
          (omega (arith, count, large)) in
      let old = slot_marked-append s.pools fn none_marked in
      (
        i,
        ptr,
        s1,
        s',
        another_steps links ring made,
        got,
        order,
        (
          i_in,
          inside,
          sym (old i ptr) ∙ unmarked,
          λ j m. marks j m ∙ ap (λ b. (i == j && ptr == m) || b) (old j m),
        ),
      )

  -- For a POOL_SIZE below 2 ^ 64 that is a multiple of 64 and not 0, with malloc() giving memory and
  -- fuel for two rounds more than there are pools in the list: on a list of pools in order, with
  -- nothing in the ring, freelist_get() gives a slot of a pool that was not marked. It is marked
  -- then, the slots of all pools are as before else, and the list is in order.
  pub freelist_get-IsFreelist :
      (xs : List ℕ)
      → 64 ≤ size
      → size % 64 ≡ 0
      → size < 2 ^ 64
      → IsFreelist size s xs
      → length xs + 2 ≤ fuel
      → (i : ℕ) × (ptr : ℕ) × (s' : Freelist) × (ys : List ℕ) × (freelist_get fuel size ring_size
            true true s
          ≡ ok ((i, some ptr), s'))
        × IsFreelist size s' ys
        × Handed size s.pools s' i ptr
  freelist_get-IsFreelist xs large whole top order f =
      let (x, l, r, at, n, ran, stop) = search_pools xs order f in ended r at n ran stop
    where
      ended :
          {x : ℕ} {l : Link} (r : ℕ)
          → get_elem? s.links 0 ≡ some l
          → l.next ≡ x
          → first_pool fuel s x ≡ ok r
          → IsStop s xs r
          → (i : ℕ) × (ptr : ℕ) × (s' : Freelist) × (ys : List ℕ) × (freelist_get fuel size
                ring_size true true s
              ≡ ok ((i, some ptr), s'))
            × IsFreelist size s' ys
            × Handed size s.pools s' i ptr
      ended {x} zero at n ran stop =
          let (i, ptr, s1, s', other, got, order', handed) = from_new xs large whole top order in
          (i, ptr, s', suc i ∷ xs, get_new x i at n ran other ∙ got, order', handed)
      ended {x} (suc i) at n ran stop =
          let (ptr, s', got, order', handed) = from_found xs i order stop in
          (i, ptr, s', suc i ∷ without (suc i) xs, get_found x i at n ran ∙ got, order', handed)
