-- ===== src/Dynarr/Pointers/Free.antt =====
-- Freeing the array clears the pointers into it.
use mepl.Prelude.{
  ℕ, zero, suc, ◌<◌, ◌≡◌, refl, sym, ap, ◌∙◌, true, false, Option, none, some, List, [], ◌∷◌, arith,
  ◌==◌, get_elem?, set, get_elem?-set_self, get_elem?-set_ne, lt_of_get, length, ok, ◌>>=◌,
}
use mepl.Free.Links.{Link, list_init}
use mepl.Free.Links.Store.{next_of}
use mepl.Free.Links.Circle.{
  mem, distinct, Within, Segment, IsCircle, inner, first_behind, head_apart,
}
use mepl.Free.Links.Fresh.{init-next}
use mepl.Free.Freelist.Order.{next_at}
use mepl.Dynarr.{Place, Darr, store, free_from, darr_unmap, darr_free}
use mepl.Dynarr.Registered.{Reg, links_of, vars_of, place, Points, Points-set}
use mepl.Dynarr.Grow.{IsDarr, unmap_steps}

-- The variables are NULL.
abbrev pub Cleared : List (Option Place) → List Reg → Type 0
Cleared vars [] = Unit
Cleared vars (r ∷ rs) = (get_elem? vars r.var ≡ some none) × Cleared vars rs

module _ {T : Type 0} where
  store_steps :
      (s : Darr T) (r : Reg) (old : Option Place)
      → get_elem? s.ptr r.link ≡ some r.var
      → get_elem? s.vars r.var ≡ some old
      → store s r.link none ≡ ok (record s { vars = set s.vars r.var none })
  unfolding store
  store_steps s r old at here = rw (at, ◌>>=◌, here)

  free_from_next :
      (fuel : ℕ) (s s1 : Darr T) (p c : ℕ) (l : Link)
      → (p == 0) ≡ false
      → get_elem? s.links p ≡ some l
      → store s p none ≡ ok s1
      → l.next ≡ c
      → free_from (suc fuel) s p ≡ free_from fuel s1 c
  unfolding free_from
  free_from_next fuel s s1 zero c l ne at ran n = cc
  free_from_next fuel s s1 (suc p) c l ne at ran n = rw (at, ◌>>=◌, ran, ◌>>=◌, n)

  -- The loop, at the link behind `y`.
  free_from-Cleared :
      (fuel : ℕ) (s : Darr T) (a y c : ℕ) (rs : List Reg)
      → Segment s.links y (links_of rs) 0
      → Within (length s.links) (links_of rs)
      → next_of s.links y ≡ some c
      → mem 0 (links_of rs) ≡ false
      → distinct (vars_of rs) ≡ true
      → Points s.ptr s.vars a rs
      → length rs < fuel
      → (vs : List (Option Place)) × (free_from fuel s c ≡ ok (record s { vars = vs }))
        × Cleared vs rs
        × ((u : ℕ) → mem u (vars_of rs) ≡ false → get_elem? vs u ≡ get_elem? s.vars u)
  unfolding free_from
  free_from-Cleared zero s a y c rs seg win n z d ps f = absurd (omega (arith, f))
  free_from-Cleared (suc fuel) s a y c [] seg win n z d ps f =
      let at_head : c ≡ 0 = inner (sym n ∙ seg.0) in (s.vars, rw at_head, tt, (λ u h. refl))
  free_from-Cleared (suc fuel) s a y c (r ∷ rs) seg win n z d ps f =
      let at_r : c ≡ r.link = inner (sym n ∙ seg.0.0) in
      let (c', n', later) = first_behind s.links r.link (links_of rs) 0 seg.1 in
      let (l, here, ln) = next_at s.links r.link c' win.0 n' in
      let ran = store_steps s r (place a r) ps.0.0 ps.0.1 in
      let s1 = record s { vars = set s.vars r.var none } in
      let apart : mem r.var (vars_of rs) ≡ false = head_apart r.var (vars_of rs) d in
      let cleared = get_elem?-set_self s.vars r.var none (lt_of_get s.vars r.var ps.0.1) in
      let others = Points-set s.ptr s.vars a rs r.var none apart ps.1 in
      let (vs, rest, all, same) =
        free_from-Cleared fuel s1 a r.link c' rs seg.1 win.1 n' (ground (arith, z))
          (ground (arith, d)) others (omega (arith, f)) in
      let step = free_from_next fuel s s1 r.link c' l (ground (arith, z)) here ran ln in
      (
        vs,
        ap (λ k. free_from (suc fuel) s k) at_r ∙ step ∙ rest,
        (same r.var apart ∙ cleared, all),
        (λ u h.
            same u (ground (arith, h)) ∙ get_elem?-set_ne s.vars none (λ e. ground (arith, h, e))),
      )

  free_steps :
      (fuel : ℕ) (s s1 s2 : Darr T) (c : ℕ) (head : Link) (st : List Link)
      → get_elem? s.links 0 ≡ some head
      → head.next ≡ c
      → free_from fuel s c ≡ ok s1
      → list_init s1.links 0 ≡ ok st
      → darr_unmap (record s1 { links = st }) ≡ ok s2
      → darr_free fuel s ≡ ok (record s2 { d_arr = none })
  unfolding darr_free
  free_steps fuel s s1 s2 c head st at n loop made gone =
      rw (at, ◌>>=◌, n, loop, ◌>>=◌, made, ◌>>=◌, gone)

  -- Where the array is the mapping `a`, the list has a link for each registered pointer variable, each
  -- once, and the fuel is more than there are links: freeing sets each registered variable to NULL,
  -- leaves the others, empties the list, and unmaps the array.
  pub darr_free-Cleared :
      (fuel : ℕ) (s : Darr T) (a : ℕ) (xs : List T) (rs : List Reg)
      → IsDarr s a xs rs
      → length rs < fuel
      → (s' : Darr T) × (darr_free fuel s ≡ ok s')
        × Cleared s'.vars rs
        × ((u : ℕ) → mem u (vars_of rs) ≡ false → get_elem? s'.vars u ≡ get_elem? s.vars u)
        × IsCircle s'.links 0 []
        × (get_elem? s'.maps a ≡ some none)
        × (s'.d_arr ≡ none)
  darr_free-Cleared fuel s a xs rs ((seg, dl, (head_in, within)), d, ps, arr, here, len, l, sizes)
        f =
      let (c, n, later) = first_behind s.links 0 (links_of rs) 0 seg in
      let (head, at, hn) = next_at s.links 0 c head_in n in
      let (vs, loop, all, same) =
        free_from-Cleared fuel s a 0 c rs seg within n (head_apart 0 (links_of rs) dl) d ps f in
      let s1 = record s { vars = vs } in
      let (st, made, size, nn, pp, others, others') = init-next s.links 0 head_in in
      let s2 = record s1 { links = st; maps = set s.maps a none } in
      (
        record s2 { d_arr = none },
        free_steps fuel s s1 s2 c head st at hn loop made
            (unmap_steps (record s1 { links = st }) a arr),
        all,
        same,
        ((nn, pp), refl, (omega (arith, size, head_in), tt)),
        get_elem?-set_self s.maps a none (lt_of_get s.maps a here),
        refl,
      )
