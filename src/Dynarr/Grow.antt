-- ===== src/Dynarr/Grow.antt =====
-- Growing moves the elements and the pointers, and loses the array.
use mepl.Prelude.{
  ℕ, ◌+◌, ◌*◌, ◌%◌, ◌^◌, ◌<◌, ◌≤◌, ◌≡◌, refl, ap, ◌∙◌, subst, true, false, ◌&&◌, Option, none, some,
  List, [], ◌∷◌, ◌++◌, arith, leb, ◌==◌, get_elem?, set, get_elem?-set_self, get_elem?-set_ne,
  get_elem?-append_left, get_elem?-append_self, lt_of_get, take-length, drop-replicate,
  length-replicate, length-append, length-set, length, replicate, take, drop, ok, fault, ◌>>=◌,
}
use mepl.Free.Links.{Link}
use mepl.Free.Links.Circle.{mem, distinct, IsCircle, first_behind, head_apart}
use mepl.Free.Freelist.Order.{next_at}
use mepl.Dynarr.{Darr, do_mmap, copy, repoint_from, darr_unmap, arr_write, darr_grow, darr_push}
use mepl.Dynarr.Registered.{Reg, links_of, vars_of, Points, repoint_from-Points}

-- The array is the mapping `a`, with the elements `xs` and room behind those of d_len, and the list has
-- the links of `rs`, for a pointer variable each.
abbrev pub IsDarr : {T : Type 0} → Darr T → ℕ → List T → List Reg → Type 0
IsDarr s a xs rs =
    IsCircle s.links 0 (links_of rs)
    × (distinct (vars_of rs) ≡ true)
    × Points s.ptr s.vars a rs
    × (s.d_arr ≡ some a)
    × (get_elem? s.maps a ≡ some (some xs))
    × (length xs ≡ s.d_cap)
    × (s.d_len ≤ s.d_cap)
    × (length s.ptr ≡ length s.links)

module _ {T : Type 0} where
  copy_steps :
      (s : Darr T) (a new n : ℕ) (xs ys : List T)
      → s.d_arr ≡ some a
      → get_elem? s.maps a ≡ some (some xs)
      → get_elem? s.maps new ≡ some (some ys)
      → n ≤ length xs
      → n ≤ length ys
      → copy s new n ≡ ok (record s { maps = set s.maps new (some (take n xs ++ drop n ys)) })
  unfolding copy
  copy_steps s a new n xs ys arr here there l m =
      let test : (leb n (length xs) && leb n (length ys)) ≡ true = ground (arith, l, m) in
      rw (arr, ◌>>=◌, here, ◌>>=◌, there, ◌>>=◌, test)

  pub unmap_steps :
      (s : Darr T) (a : ℕ)
      → s.d_arr ≡ some a
      → darr_unmap s ≡ ok (record s { maps = set s.maps a none })
  unfolding darr_unmap
  unmap_steps s a arr = rw arr

module _ {T : Type 0} (zeroed : T) where
  -- A mapping that is not the last one, and the last one, behind a new one.
  copied :
      (cap : ℕ) (xs : List T)
      → length xs ≡ cap
      → take cap xs ++ drop cap (replicate (cap * 2) zeroed) ≡ xs ++ replicate cap zeroed
  copied cap xs e =
      let double : cap * 2 ≡ cap + cap = omega arith in
      let all : take cap xs ≡ xs = subst (λ n. take n xs ≡ xs) e (take-length xs) in
      rw (double, all, drop-replicate cap cap zeroed)

  grow_steps :
      (fuel : ℕ) (s s2 s3 s4 : Darr T) (c cap : ℕ) (head : Link)
      → s.d_cap * 2 % 2 ^ 64 ≡ cap
      → copy
          (record s { maps = s.maps ++ some (replicate cap zeroed) ∷ [] })
          (length s.maps)
          s.d_cap
        ≡ ok s2
      → get_elem? s2.links 0 ≡ some head
      → head.next ≡ c
      → repoint_from fuel s2 (length s.maps) c ≡ ok s3
      → darr_unmap s3 ≡ ok s4
      → darr_grow zeroed fuel true s ≡ ok (record s4 { d_arr = none; d_cap = cap })
  unfolding darr_grow do_mmap
  grow_steps fuel s s2 s3 s4 c cap head size ran at n loop gone =
      rw (size, ran, ◌>>=◌, at, ◌>>=◌, n, loop, ◌>>=◌, gone)

  -- What the mappings are, with a copy in the new one and without the old one.
  maps_after :
      (maps : List (Option (List T))) (a : ℕ) (v w : Option (List T))
      → a < length maps
      → (get_elem? (set (set (maps ++ v ∷ []) (length maps) w) a none) (length maps) ≡ some w)
        × (get_elem? (set (set (maps ++ v ∷ []) (length maps) w) a none) a ≡ some none)
  maps_after maps a v w h =
      let more = length-append maps (v ∷ []) in
      let at_new = get_elem?-set_self (maps ++ v ∷ []) (length maps) w (omega (arith, more)) in
      let kept = length-set (maps ++ v ∷ []) (length maps) w in
      (
        get_elem?-set_ne (set (maps ++ v ∷ []) (length maps) w) none (λ e. omega (arith, h, e))
            ∙ at_new,
        get_elem?-set_self (set (maps ++ v ∷ []) (length maps) w) a none
            (omega (arith, more, kept, h)),
      )

  -- Where the array is the mapping `a`, the list has a link for each registered pointer variable, each
  -- once, and these point into the array, mmap() gives a mapping, the size fits, and the fuel is more
  -- than there are links: growing makes a mapping of twice the size with the old elements first and
  -- zeros behind, moves each registered pointer to the same index there, leaves other pointers, and
  -- unmaps the old mapping; d_arr is NULL then.
  pub darr_grow-Points :
      (fuel : ℕ) (s : Darr T) (a : ℕ) (xs : List T) (rs : List Reg)
      → IsDarr s a xs rs
      → s.d_cap * 2 < 2 ^ 64
      → length rs < fuel
      → (s' : Darr T) × (darr_grow zeroed fuel true s ≡ ok s')
        × (get_elem? s'.maps (length s.maps) ≡ some (some (xs ++ replicate s.d_cap zeroed)))
        × Points s'.ptr s'.vars (length s.maps) rs
        × ((u : ℕ) → mem u (vars_of rs) ≡ false → get_elem? s'.vars u ≡ get_elem? s.vars u)
        × (get_elem? s'.maps a ≡ some none)
        × (s'.d_arr ≡ none)
        × (s'.d_cap ≡ s.d_cap * 2)
        × (s'.d_len ≡ s.d_len)
  darr_grow-Points fuel s a xs rs ((seg, dl, (head_in, within)), d, ps, arr, here, len, l, sizes)
        fits f =
      let cap = s.d_cap * 2 in
      let new = length s.maps in
      let fresh = some (replicate cap zeroed) in
      let s1 = record s { maps = s.maps ++ fresh ∷ [] } in
      let a_in = lt_of_get s.maps a here in
      let room = length-replicate cap zeroed in
      let old = get_elem?-append_left s.maps (fresh ∷ []) a a_in ∙ here in
      let ran =
        copy_steps s1 a new s.d_cap xs (replicate cap zeroed) arr old
          (get_elem?-append_self s.maps fresh) (omega (arith, len)) (omega (arith, room)) in
      let moved = some (take s.d_cap xs ++ drop s.d_cap (replicate cap zeroed)) in
      let s2 = record s1 { maps = set s1.maps new moved } in
      let (c, n, later) = first_behind s.links 0 (links_of rs) 0 seg in
      let (head, at, hn) = next_at s.links 0 c head_in n in
      let (vs, loop, points, same, count) =
        repoint_from-Points fuel s2 new a 0 c rs seg within n (head_apart 0 (links_of rs) dl) d ps
          arr f in
      let s3 = record s2 { vars = vs } in
      let s4 = record s3 { maps = set s3.maps a none } in
      let (now, gone) = maps_after s.maps a fresh moved a_in in
      (
        record s4 { d_arr = none; d_cap = cap },
        grow_steps fuel s s2 s3 s4 c cap head (omega (arith, fits)) ran at hn loop
            (unmap_steps s3 a arr),
        now ∙ ap (λ m. some (some m)) (copied s.d_cap xs len),
        points,
        same,
        gone,
        refl,
        refl,
        refl,
      )

  -- Where the array is the mapping `a` and is full, the list has a link for each registered pointer
  -- variable, each once, and these point into the array, mmap() gives a mapping, twice the capacity is
  -- below 2 ^ 64, and the fuel is more than there are links: darr_push() of any element ends with a
  -- write through NULL.
  pub darr_push-full :
      (fuel : ℕ) (s : Darr T) (a : ℕ) (xs : List T) (rs : List Reg) (v : T)
      → IsDarr s a xs rs
      → s.d_cap * 2 < 2 ^ 64
      → length rs < fuel
      → s.d_len ≡ s.d_cap
      → darr_push zeroed fuel true s v ≡ fault
  unfolding darr_push arr_write
  darr_push-full fuel s a xs rs v is fits f full =
      let (s', ran, now, points, same, gone, null, cap, len) =
        darr_grow-Points fuel s a xs rs is fits f in
      let test : (s.d_len == s.d_cap) ≡ true = ground (arith, full) in rw (test, ran, ◌>>=◌, null)
