-- ===== src/Dynarr.antt =====
-- ideas/dynarr/main.c: an array that grows, and keeps a list of the pointers into it, to move them
-- with it. DBUG is off there, so that ASSERT() tests nothing. The array has elements of any type T,
-- and `zeroed` is the one whose bytes are zero. A mapping is the list of its elements, and sizes are
-- in elements: the bytes are taken to be fewer than 2 ^ 64. `d_ptrs` is link 0; a link is
-- not used again once it is freed. `granted` says whether mmap() or malloc() succeeds.
pub mod Registered
pub mod Push
pub mod Grow
pub mod Pointers
use mepl.Prelude.{
  ℕ, zero, suc, ◌+◌, ◌*◌, ◌%◌, ◌^◌, Bool, true, false, ◌&&◌, Option, none, some, List, [], ◌∷◌,
  ◌++◌, ltb, leb, ◌==◌, if◌then◌else◌, get_elem?, set, length, replicate, take, drop, died, Outcome,
  ok, exit, fault, spin, ◌>>=◌, ◌>>◌,
}
use mepl.Memory.{deref}
use mepl.Free.Links.{Link, list_init, list_rm, list_add_after}

-- A `T *`: a mapping and an index into it.
pub record Place : Type 0 where
  pub base : ℕ
  pub offset : ℕ

-- With the array: `ptr` of each link, which is the pointer variable that it stands for, and the
-- mappings, of which those that are gone are `none`, and pointer variables of the process.
pub record Darr (T : Type 0) : Type 0 where
  pub links : List Link
  pub ptr : List ℕ
  pub d_cap : ℕ
  pub d_len : ℕ
  pub d_arr : Option ℕ
  pub maps : List (Option (List T))
  pub vars : List (Option Place)

module _ {T : Type 0} (zeroed : T) where
  unfoldable pub do_mmap : Bool → ℕ → Darr T → Outcome (ℕ × Darr T)
  do_mmap false size s = exit died
  do_mmap true size s =
      ok (length s.maps, record s { maps = s.maps ++ (some (replicate size zeroed) ∷ []) })

  -- DARR_CAP_INIT is the argument `cap_init`.
  unfoldable pub darr_init : ℕ → Bool → Darr T → Outcome (Darr T)
  darr_init cap_init granted s = do
    (arr, s1) ← do_mmap granted cap_init (record s { d_cap = cap_init })
    links ← list_init s1.links 0
    ok (record s1 { links = links; d_len = 0; d_arr = some arr })

module _ {T : Type 0} where
  -- munmap() of what was mapped.
  unfoldable pub darr_unmap : Darr T → Outcome (Darr T)
  darr_unmap s = do arr ← deref s.d_arr; ok (record s { maps = set s.maps arr none })

  -- `*p->ptr = v`
  unfoldable pub store : Darr T → ℕ → Option Place → Outcome (Darr T)
  store s p v = do
    var ← deref (get_elem? s.ptr p)
    old ← deref (get_elem? s.vars var)
    ok (record s { vars = set s.vars var v })

  -- darr_ptr_for_each_safe() of darr_free(), at the link `p`
  unfoldable pub free_from : ℕ → Darr T → ℕ → Outcome (Darr T)
  free_from zero s p = spin
  free_from (suc fuel) s zero = ok s
  free_from (suc fuel) s (suc p) = do
    l ← deref (get_elem? s.links (suc p))
    s1 ← store s (suc p) none
    free_from fuel s1 l.next

  unfoldable pub darr_free : ℕ → Darr T → Outcome (Darr T)
  darr_free fuel s = do
    head ← deref (get_elem? s.links 0)
    s1 ← free_from fuel s head.next
    links ← list_init s1.links 0
    s2 ← darr_unmap (record s1 { links = links })
    ok (record s2 { d_arr = none })

  -- A new link for the variable `pp`, put behind the head.
  unfoldable pub darr_add_ptr : Bool → Darr T → ℕ → Outcome (ℕ × Darr T)
  darr_add_ptr false s pp = exit died
  darr_add_ptr true s pp = do
    let p = length s.links
    links ← list_init (s.links ++ (record { next = 0; prev = 0 } ∷ [])) p
    links' ← list_add_after links 0 p
    ok (p, record s { links = links'; ptr = s.ptr ++ (pp ∷ []) })

  -- `*pp`, which is `p`, becomes NULL.
  unfoldable pub darr_rm_ptr : Darr T → ℕ → Outcome (Option ℕ × Darr T)
  darr_rm_ptr s p = do links ← list_rm s.links p; ok (none, record s { links = links })

  -- `*p->ptr = &new[*p->ptr - d_arr]`
  unfoldable pub repoint : Darr T → ℕ → ℕ → Outcome (Darr T)
  repoint s new p = do
    var ← deref (get_elem? s.ptr p)
    old ← deref (get_elem? s.vars var)
    at ← deref old
    arr ← deref s.d_arr
    if at.base == arr then store s p (some (record { base = new; offset = at.offset })) else fault

  -- darr_ptr_for_each() of darr_grow(), at the link `p`
  unfoldable pub repoint_from : ℕ → Darr T → ℕ → ℕ → Outcome (Darr T)
  repoint_from zero s new p = spin
  repoint_from (suc fuel) s new zero = ok s
  repoint_from (suc fuel) s new (suc p) = do
    s1 ← repoint s new (suc p)
    l ← deref (get_elem? s.links (suc p))
    repoint_from fuel s1 new l.next

  -- `memcpy(new, d_arr, …)` of `n` elements
  unfoldable pub copy : Darr T → ℕ → ℕ → Outcome (Darr T)
  copy s new n = do
    arr ← deref s.d_arr
    map ← deref (get_elem? s.maps arr)
    from ← deref map
    map' ← deref (get_elem? s.maps new)
    to ← deref map'
    if leb n (length from) && leb n (length to)
        then ok (record s { maps = set s.maps new (some (take n from ++ drop n to)) })
        else fault

  -- d_arr[i] = v
  unfoldable pub arr_write : Darr T → ℕ → T → Outcome (Darr T)
  arr_write s i v = do
    arr ← deref s.d_arr
    map ← deref (get_elem? s.maps arr)
    xs ← deref map
    if ltb i (length xs) then ok (record s { maps = set s.maps arr (some (set xs i v)) }) else fault

-- The pointer that becomes d_arr is the one that is NULL, not `new`.
module _ {T : Type 0} (zeroed : T) where
  unfoldable pub darr_grow : ℕ → Bool → Darr T → Outcome (Darr T)
  darr_grow fuel granted s = do
    let cap = s.d_cap * 2 % 2 ^ 64
    (new, s1) ← do_mmap zeroed granted cap s
    s2 ← copy s1 new s.d_cap
    head ← deref (get_elem? s2.links 0)
    s3 ← repoint_from fuel s2 new head.next
    s4 ← darr_unmap s3
    ok (record s4 { d_arr = none; d_cap = cap })

  unfoldable pub darr_push : ℕ → Bool → Darr T → T → Outcome (Darr T)
  darr_push fuel granted s v = do
    s1 ← if s.d_len == s.d_cap then darr_grow fuel granted s else ok s
    s2 ← arr_write s1 s1.d_len v
    ok (record s2 { d_len = (s2.d_len + 1) % 2 ^ 64 })
