-- ===== src/Dynarr/Push.antt =====
-- Appending where there is room.
use mepl.Prelude.{
  ℕ, zero, suc, ◌+◌, ◌%◌, ◌^◌, ◌<◌, ◌≡◌, refl, sym, ap, ◌∙◌, subst, Bool, true, false, some, List,
  [], ◌∷◌, ◌++◌, arith, ltb, ◌==◌, get_elem?, set, get_elem?-set_self, lt_of_get, length-set,
  get_elem?-append_self, length-replicate, replicate, length, take, ok, ◌>>=◌,
}
use mepl.Dynarr.{Darr, do_mmap, darr_init, arr_write, darr_push}
use mepl.Free.Links.{Link, list_init}
use mepl.Free.Links.Fresh.{init-next}
use mepl.Dynarr.Registered.{Reg}
use mepl.Dynarr.Grow.{IsDarr}

take-set :
    {T : Type 0} (xs : List T) (i : ℕ) (v : T)
    → i < length xs
    → take (suc i) (set xs i v) ≡ take i xs ++ v ∷ []
take-set [] i v h = absurd (omega (arith, h))
take-set (x ∷ xs) zero v h = refl
take-set (x ∷ xs) (suc i) v h = ap (λ ys. x ∷ ys) (take-set xs i v (omega (arith, h)))

module _ {T : Type 0} (zeroed : T) where
  push_steps :
      (fuel : ℕ) (granted : Bool) (s s2 : Darr T) (v : T) (n : ℕ)
      → (s.d_len == s.d_cap) ≡ false
      → arr_write s s.d_len v ≡ ok s2
      → (s2.d_len + 1) % 2 ^ 64 ≡ n
      → darr_push zeroed fuel granted s v ≡ ok (record s2 { d_len = n })
  unfolding darr_push
  push_steps fuel granted s s2 v n room ran size = rw (room, ◌>>=◌, ran, ◌>>=◌, size)

  write_steps :
      (s : Darr T) (a i : ℕ) (xs : List T) (v : T)
      → s.d_arr ≡ some a
      → get_elem? s.maps a ≡ some (some xs)
      → ltb i (length xs) ≡ true
      → arr_write s i v ≡ ok (record s { maps = set s.maps a (some (set xs i v)) })
  unfolding arr_write
  write_steps s a i xs v arr here h = rw (arr, ◌>>=◌, here, ◌>>=◌, h)

  -- Onto an array with room, whose elements are the mapping `xs` up to d_len, and whose size is below
  -- 2 ^ 64, a push appends the element, and the registered pointers keep pointing into the array.
  pub darr_push-room :
      (fuel : ℕ) (granted : Bool) (s : Darr T) (a : ℕ) (xs : List T) (rs : List Reg) (v : T)
      → IsDarr s a xs rs
      → s.d_len < s.d_cap
      → s.d_cap < 2 ^ 64
      → (s' : Darr T) × (ys : List T) × (darr_push zeroed fuel granted s v ≡ ok s')
        × IsDarr s' a ys rs
        × (take s'.d_len ys ≡ take s.d_len xs ++ v ∷ [])
  darr_push-room fuel granted s a xs rs v (circle, d, ps, arr, here, len, l, sizes) room small =
      let inside : s.d_len < length xs = omega (arith, room, len) in
      let ys = set xs s.d_len v in
      let s2 = record s { maps = set s.maps a (some ys) } in
      let n = s.d_len + 1 in
      let wrote = write_steps s a s.d_len xs v arr here (ground (arith, inside)) in
      let next : n ≡ suc s.d_len = omega arith in
      let kept = length-set xs s.d_len v in
      (
        record s2 { d_len = n },
        ys,
        push_steps fuel granted s s2 v n (ground (arith, room)) wrote (omega (arith, room, small)),
        (
          circle,
          d,
          ps,
          arr,
          get_elem?-set_self s.maps a (some ys) (lt_of_get s.maps a here),
          omega (arith, kept, len),
          omega (arith, room),
          sizes,
        ),
        subst (λ k. take k ys ≡ take s.d_len xs ++ v ∷ []) (sym next)
            (take-set xs s.d_len v inside),
      )

  init_steps :
      (s : Darr T) (size : ℕ) (st : List Link)
      → list_init s.links 0 ≡ ok st
      → darr_init zeroed size true s
        ≡ ok (record s {
          links = st;
          d_cap = size;
          d_len = 0;
          d_arr = some (length s.maps);
          maps = s.maps ++ some (replicate size zeroed) ∷ [];
        })
  unfolding darr_init do_mmap
  init_steps s size st made = rw made

  -- Where there is the head of the list, and mmap() gives a mapping, darr_init() makes an empty array
  -- of the size DARR_CAP_INIT, without registered pointers.
  pub darr_init-IsDarr :
      (s : Darr T) (size : ℕ)
      → 0 < length s.links
      → length s.ptr ≡ length s.links
      → (s' : Darr T) × (darr_init zeroed size true s ≡ ok s')
        × IsDarr s' (length s.maps) (replicate size zeroed) []
        × (s'.d_len ≡ 0)
        × (s'.d_cap ≡ size)
  darr_init-IsDarr s size h e =
      let (st, made, same, n, p, others, others') = init-next s.links 0 h in
      let fresh = some (replicate size zeroed) in
      (
        record s {
          links = st;
          d_cap = size;
          d_len = 0;
          d_arr = some (length s.maps);
          maps = s.maps ++ fresh ∷ [];
        },
        init_steps s size st made,
        (
          ((n, p), refl, (omega (arith, same, h), tt)),
          refl,
          tt,
          refl,
          get_elem?-append_self s.maps fresh,
          length-replicate size zeroed,
          omega arith,
          e ∙ sym same,
        ),
        refl,
        refl,
      )
