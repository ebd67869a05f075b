-- ===== src/Slabs/Waiting/Race.antt =====
-- What s_put() without the mutex may do.
use mepl.Prelude.{
  ℕ, suc, ◌+◌, ◌<◌, ◌≡◌, ◌≢◌, refl, sym, ◌∙◌, subst, Bool, true, false, some, List, ◌∷◌, arith,
  length, get_elem?, set, length-set, get_elem?-set_self, get_elem?-set_ne, ok,
}
use mepl.Slabs.Stack.{FreeStack, free_write, stack_empty}
use mepl.Slabs.Waiting.{
  GetMove, found_some, getting, Thread, want, has, gave, lock, test_some, read_top, lower,
  load_lowered, unlock, read_place, put_first, raise_stored, get_move, put_move, Reach, here, next,
}

pub free_write-room :
    (sp : FreeStack) (n p : ℕ)
    → n < length sp.free
    → free_write sp n p ≡ ok (record sp { free = set sp.free n p })
unfolding free_write
free_write-room sp n p h = ground (arith, h)

above : (sp : FreeStack) (n : ℕ) → sp.fp ≡ suc n → stack_empty sp ≡ false
unfolding stack_empty
above sp n h = ground (arith, h)

-- For two threads that put elements of a slab with room for one, whoever has the mutex: some order of
-- the steps ends with both behind s_put(), where `fp` is one higher only; the element of the second
-- is below it, and all other places of `free` are as before, so that the first element is lost.
pub lost_element :
    (sp : FreeStack) (b : Bool) (p q : ℕ) (ts : List Thread)
    → sp.fp < length sp.free
    → (sp' : FreeStack) × Reach
        (record { slab = sp; locked = b; threads = has p ∷ has q ∷ ts })
        (record { slab = sp'; locked = b; threads = gave ∷ gave ∷ ts })
      × (sp'.fp ≡ sp.fp + 1)
      × (get_elem? sp'.free sp.fp ≡ some q)
      × ((i : ℕ) → i ≢ sp.fp → get_elem? sp'.free i ≡ get_elem? sp.free i)
lost_element sp b p q ts room =
    let n = sp.fp in
    let sp1 = record sp { free = set sp.free n p } in
    let sp2 = record sp { free = set sp1.free n q } in
    let sp3 = record sp2 { fp = n + 1 } in
    let room1 = length-set sp.free n p in
    (
      sp3,
      next 1
          (next 0
            (next 1
              (next 0
                (next 1 (next 0 here (put_move 0 refl (read_place sp p)))
                  (put_move 1 refl (read_place sp q)))
                (put_move 0 refl (put_first sp sp1 p n (free_write-room sp n p room))))
              (put_move 1 refl
                (put_first sp1 sp2 q n (free_write-room sp1 n q (omega (arith, room, room1))))))
            (put_move 0 refl (raise_stored sp2 n)))
          (put_move 1 refl (raise_stored sp3 n)),
      refl,
      get_elem?-set_self sp1.free n q (omega (arith, room, room1)),
      λ i ne.
          get_elem?-set_ne sp1.free q (λ e. ne (sym e))
          ∙ get_elem?-set_ne sp.free p (λ e. ne (sym e)),
    )

-- For a thread that wants an element and one that puts `q`, where nobody has the mutex, `x` is on top of
-- the free elements, and there is room for one more: some order of the steps ends with the first
-- thread behind slab_tab_get() with `x`, the second behind s_put(), and `x` still among the free
-- elements.
pub element_twice :
    (sp : FreeStack) (q n x : ℕ) (ts : List Thread)
    → sp.fp ≡ suc n
    → get_elem? sp.free n ≡ some x
    → sp.fp < length sp.free
    → (sp' : FreeStack) × Reach
        (record { slab = sp; locked = false; threads = want ∷ has q ∷ ts })
        (record { slab = sp'; locked = false; threads = has x ∷ gave ∷ ts })
      × (n < sp'.fp)
      × (get_elem? sp'.free n ≡ some x)
element_twice sp q n x ts top at room =
    let sp1 = record sp { fp = n } in
    let sp2 = record sp1 { free = set sp.free sp.fp q } in
    let sp3 = record sp2 { fp = sp.fp + 1 } in
    let read = subst (λ k. GetMove sp true found_some sp true (getting k)) top (read_top sp) in
    (
      sp3,
      next 1
          (next 1
            (next 0
              (next 0
                (next 0
                  (next 1
                    (next 0
                      (next 0 (next 0 here (get_move 0 refl (lock sp)))
                        (get_move 0 refl (test_some sp (above sp n top))))
                      (get_move 0 refl read))
                    (put_move 1 refl (read_place sp q)))
                  (get_move 0 refl (lower sp n)))
                (get_move 0 refl (load_lowered sp1 n x at)))
              (get_move 0 refl (unlock sp1 x)))
            (put_move 1 refl (put_first sp1 sp2 q sp.fp (free_write-room sp1 sp.fp q room))))
          (put_move 1 refl (raise_stored sp2 sp.fp)),
      omega (arith, top),
      get_elem?-set_ne sp.free q (λ e. omega (arith, top, e)) ∙ at,
    )
