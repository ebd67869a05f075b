-- ===== src/Free/Freelist/Put.antt =====
-- What freelist_put() gives back.
use mepl.Prelude.{
  ℕ, suc, ◌<◌, ◌≡◌, ◌≢◌, refl, sym, ap, ◌∙◌, subst, ==_iff, true, false, not, ◌&&◌, none, some,
  List, arith, ◌==◌, Bool-cases, inl, inr, length, get_elem?, set, length-set, get_elem?-set_self,
  get_elem?-set_ne, ok, ◌>>=◌,
}
use mepl.Free.Bitset.Slots.{marked}
use mepl.Free.Node.{FreeNode, free_node_put}
use mepl.Free.Node.Pool.{free_node_put-IsPool, count_below}
use mepl.Free.Freelist.{Freelist, freelist_put}
use mepl.Free.Freelist.Order.{IsFreelist, slot_marked, IsPool-at, AllPools-set}

look :
    (fns : List FreeNode) (i m : ℕ) {fn : FreeNode}
    → get_elem? fns i ≡ some fn
    → slot_marked fns i m ≡ marked fn.fn_free.words m
look fns i m e = ap (λ o. elim o [ none ↦ false | some fn ↦ marked fn.fn_free.words m ]) e

slot_marked-clear :
    (fns : List FreeNode) (i ptr : ℕ) (fn fn' : FreeNode)
    → get_elem? fns i ≡ some fn
    → i < length fns
    → ((m : ℕ) → marked fn'.fn_free.words m ≡ (not (ptr == m) && marked fn.fn_free.words m))
    → (j m : ℕ)
    → slot_marked (set fns i fn') j m ≡ (not (i == j && ptr == m) && slot_marked fns j m)
slot_marked-clear fns i ptr fn fn' here l h j m = elim (Bool-cases (i == j)) [
  | inl same ↦
      let at : i ≡ j = (==_iff i j).0 same in
      let was : slot_marked fns j m ≡ marked fn.fn_free.words m =
        subst (λ k. slot_marked fns k m ≡ marked fn.fn_free.words m) at (look fns i m here) in
      let now : slot_marked (set fns i fn') j m ≡ marked fn'.fn_free.words m =
        subst (λ k. slot_marked (set fns i fn') k m ≡ marked fn'.fn_free.words m) at
          (look (set fns i fn') i m (get_elem?-set_self fns i fn' l)) in
      rw (now, was, same) (h m)
  | inr other ↦ rw other (
      ap (λ o. elim o [ none ↦ false | some fn ↦ marked fn.fn_free.words m ])
        (get_elem?-set_ne fns fn' (λ e. ground (arith, other, e))))
]

put_steps :
    (size ring_size : ℕ) (s : Freelist) (i ptr : ℕ) {fn fn' : FreeNode}
    → get_elem? s.pools i ≡ some fn
    → free_node_put fn ptr ≡ ok fn'
    → fn'.fn_count ≢ size
    → freelist_put size ring_size s i ptr ≡ ok (record s { pools = set s.pools i fn' })
unfolding freelist_put
put_steps size ring_size s i ptr {fn} {fn'} here put ne =
    let test : (fn'.fn_count == size) ≡ false = ground (arith, ne) in
    rw (here, ◌>>=◌, put, ◌>>=◌, test)

-- On a list of pools in order, with nothing in the ring, freelist_put() of a marked slot of a pool
-- succeeds. The slot is not marked then, the slots of all pools are as before else, the list is in
-- order with the same pools, and the ring is unchanged: no pool is ever put there.
pub freelist_put-IsFreelist :
    (size ring_size : ℕ) (s : Freelist) (xs : List ℕ) (i ptr : ℕ)
    → IsFreelist size s xs
    → i < length s.pools
    → ptr < size
    → slot_marked s.pools i ptr ≡ true
    → (s' : Freelist) × (freelist_put size ring_size s i ptr ≡ ok s')
      × IsFreelist size s' xs
      × (s'.ring ≡ s.ring)
      × ((j m : ℕ)
          → slot_marked s'.pools j m ≡ (not (i == j && ptr == m) && slot_marked s.pools j m))
freelist_put-IsFreelist size ring_size s xs i ptr (circle, len, all, ring) i_in inside e =
    let (fn, here, pool) = IsPool-at size s.pools i all i_in in
    let used_slot : marked fn.fn_free.words ptr ≡ true = sym (look s.pools i ptr here) ∙ e in
    let (fn', put, pool', same, marks) = free_node_put-IsPool size fn ptr pool inside used_slot in
    let less = count_below size fn ptr pool used_slot in
    let count : fn'.fn_count ≢ size = λ all_free. omega (arith, less, same, all_free) in
    (
      record s { pools = set s.pools i fn' },
      put_steps size ring_size s i ptr here put count,
      (
        circle,
        len ∙ ap suc (sym (length-set s.pools i fn')),
        AllPools-set size s.pools i fn' all pool',
        ring,
      ),
      refl,
      slot_marked-clear s.pools i ptr fn fn' here i_in marks,
    )
