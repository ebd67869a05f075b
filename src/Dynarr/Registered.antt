-- ===== src/Dynarr/Registered.antt =====
-- The pointers that are kept in the list, and moving them to another mapping.
use mepl.Prelude.{
  ℕ, zero, suc, ◌<◌, ◌≡◌, refl, sym, ap, ◌∙◌, true, false, Option, some, List, [], ◌∷◌, arith, ◌==◌,
  get_elem?, lt_of_get, set, get_elem?-set_self, get_elem?-set_ne, length-set, length, ok, ◌>>=◌,
}
use mepl.Free.Links.{Link}
use mepl.Free.Links.Store.{next_of}
use mepl.Free.Links.Circle.{mem, distinct, Within, Segment, inner, first_behind, head_apart}
use mepl.Free.Freelist.Order.{next_at}
use mepl.Dynarr.{Place, Darr, store, repoint, repoint_from}

-- A link, its pointer variable, and the index of the element that it points to.
pub record Reg : Type 0 where
  pub link : ℕ
  pub var : ℕ
  pub offset : ℕ

abbrev pub links_of : List Reg → List ℕ
links_of [] = []
links_of (r ∷ rs) = r.link ∷ links_of rs

abbrev pub vars_of : List Reg → List ℕ
vars_of [] = []
vars_of (r ∷ rs) = r.var ∷ vars_of rs

abbrev pub place : ℕ → Reg → Option Place
place a r = some (record { base = a; offset = r.offset })

-- The variables point into the mapping `a`.
abbrev pub Points : List ℕ → List (Option Place) → ℕ → List Reg → Type 0
Points ptr vars a [] = Unit
Points ptr vars a (r ∷ rs) =
    ((get_elem? ptr r.link ≡ some r.var) × (get_elem? vars r.var ≡ some (place a r)))
    × Points ptr vars a rs

pub Points-set :
    (ptr : List ℕ) (vars : List (Option Place)) (a : ℕ) (rs : List Reg) (u : ℕ) (v : Option Place)
    → mem u (vars_of rs) ≡ false
    → Points ptr vars a rs
    → Points ptr (set vars u v) a rs
Points-set ptr vars a [] u v h ps = tt
Points-set ptr vars a (r ∷ rs) u v h ((at, here), ps) = (
  (at, get_elem?-set_ne vars v (λ e. ground (arith, h, e)) ∙ here),
  Points-set ptr vars a rs u v (ground (arith, h)) ps,
)

module _ {T : Type 0} where
  repoint-Points :
      (s : Darr T) (new a : ℕ) (r : Reg)
      → get_elem? s.ptr r.link ≡ some r.var
      → get_elem? s.vars r.var ≡ some (place a r)
      → s.d_arr ≡ some a
      → repoint s new r.link ≡ ok (record s { vars = set s.vars r.var (place new r) })
  unfolding repoint store
  repoint-Points s new a r at here arr =
      let same : (a == a) ≡ true = ground arith in rw (at, ◌>>=◌, here, ◌>>=◌, arr, ◌>>=◌, same)

  repoint_from_next :
      (fuel : ℕ) (s s1 : Darr T) (new p c : ℕ) (l : Link)
      → (p == 0) ≡ false
      → repoint s new p ≡ ok s1
      → get_elem? s.links p ≡ some l
      → l.next ≡ c
      → repoint_from (suc fuel) s new p ≡ repoint_from fuel s1 new c
  unfolding repoint_from
  repoint_from_next fuel s s1 new zero c l ne ran at n = cc
  repoint_from_next fuel s s1 new (suc p) c l ne ran at n = rw (ran, ◌>>=◌, at, ◌>>=◌, n)

  -- The loop, at the link behind `y`.
  pub repoint_from-Points :
      (fuel : ℕ) (s : Darr T) (new a y c : ℕ) (rs : List Reg)
      → Segment s.links y (links_of rs) 0
      → Within (length s.links) (links_of rs)
      → next_of s.links y ≡ some c
      → mem 0 (links_of rs) ≡ false
      → distinct (vars_of rs) ≡ true
      → Points s.ptr s.vars a rs
      → s.d_arr ≡ some a
      → length rs < fuel
      → (vs : List (Option Place)) × (repoint_from fuel s new c ≡ ok (record s { vars = vs }))
        × Points s.ptr vs new rs
        × ((u : ℕ) → mem u (vars_of rs) ≡ false → get_elem? vs u ≡ get_elem? s.vars u)
        × (length vs ≡ length s.vars)
  unfolding repoint_from
  repoint_from-Points zero s new a y c rs seg win n z d ps arr f = absurd (omega (arith, f))
  repoint_from-Points (suc fuel) s new a y c [] seg win n z d ps arr f =
      let at_head : c ≡ 0 = inner (sym n ∙ seg.0) in (s.vars, rw at_head, tt, (λ u h. refl), refl)
  repoint_from-Points (suc fuel) s new a y c (r ∷ rs) seg win n z d ps arr f =
      let at_r : c ≡ r.link = inner (sym n ∙ seg.0.0) in
      let (c', n', later) = first_behind s.links r.link (links_of rs) 0 seg.1 in
      let (l, here, ln) = next_at s.links r.link c' win.0 n' in
      let ran = repoint-Points s new a r ps.0.0 ps.0.1 arr in
      let s1 = record s { vars = set s.vars r.var (place new r) } in
      let apart : mem r.var (vars_of rs) ≡ false = head_apart r.var (vars_of rs) d in
      let moved = get_elem?-set_self s.vars r.var (place new r) (lt_of_get s.vars r.var ps.0.1) in
      let others = Points-set s.ptr s.vars a rs r.var (place new r) apart ps.1 in
      let (vs, rest, points, same, len) =
        repoint_from-Points fuel s1 new a r.link c' rs seg.1 win.1 n' (ground (arith, z))
          (ground (arith, d)) others arr (omega (arith, f)) in
      let step = repoint_from_next fuel s s1 new r.link c' l (ground (arith, z)) ran here ln in
      (
        vs,
        ap (λ k. repoint_from (suc fuel) s new k) at_r ∙ step ∙ rest,
        ((ps.0.0, same r.var apart ∙ moved), points),
        (λ u h.
            same u (ground (arith, h))
            ∙ get_elem?-set_ne s.vars (place new r) (λ e. ground (arith, h, e))),
        len ∙ length-set s.vars r.var (place new r),
      )
