-- ===== src/Tests/Arrays.antt =====
-- A dynamic array of two elements, with a pointer to the second one.
use mepl.Prelude.{
  ℕ, ◌*◌, ◌<◌, ◌≡◌, refl, none, some, List, [], ◌∷◌, arith, get_elem?, length, take, true, false,
  ok, fault,
}
use mepl.Free.Links.Circle.{mem, IsCircle}
use mepl.Dynarr.{Darr, darr_grow, darr_push, darr_free, darr_add_ptr}
use mepl.Dynarr.Registered.{Reg, vars_of, Points}
use mepl.Dynarr.Push.{darr_push-room}
use mepl.Dynarr.Grow.{IsDarr, darr_grow-Points, darr_push-full}
use mepl.Dynarr.Pointers.{darr_add_ptr-IsDarr}
use mepl.Dynarr.Pointers.Free.{Cleared, darr_free-Cleared}

abbrev array : ℕ → Darr ℕ
array len = record {
  links = record { next = 1; prev = 1 } ∷ record { next = 0; prev = 0 } ∷ [];
  ptr = 9 ∷ 0 ∷ [];
  d_cap = 2;
  d_len = len;
  d_arr = some 0;
  maps = some (7 ∷ 8 ∷ []) ∷ [];
  vars = some (record { base = 0; offset = 1 }) ∷ some (record { base = 0; offset = 0 }) ∷ [];
}

abbrev registered : List Reg
registered = record { link = 1; var = 0; offset = 1 } ∷ []

array-IsDarr : (len : ℕ) → len < 3 → IsDarr (array len) 0 (7 ∷ 8 ∷ []) registered
array-IsDarr len h = (
  (((refl, refl), (refl, refl)), refl, (omega arith, (omega arith, tt))),
  refl,
  ((refl, refl), tt),
  refl,
  refl,
  refl,
  omega (arith, h),
  refl,
)

darr_grow-Points_example :
    (s' : Darr ℕ) × (darr_grow 0 5 true (array 2) ≡ ok s')
    × (get_elem? s'.maps (length (array 2).maps) ≡ some (some (7 ∷ 8 ∷ 0 ∷ 0 ∷ [])))
    × Points s'.ptr s'.vars (length (array 2).maps) registered
    × ((u : ℕ)
        → mem u (vars_of registered) ≡ false
        → get_elem? s'.vars u ≡ get_elem? (array 2).vars u)
    × (get_elem? s'.maps 0 ≡ some none)
    × (s'.d_arr ≡ none)
    × (s'.d_cap ≡ (array 2).d_cap * 2)
    × (s'.d_len ≡ 2)
darr_grow-Points_example =
    darr_grow-Points 0 5 (array 2) 0 (7 ∷ 8 ∷ []) registered (array-IsDarr 2 (omega arith))
      (omega arith) (omega arith)

darr_push-full_example : darr_push 0 5 true (array 2) 9 ≡ fault
darr_push-full_example =
    darr_push-full 0 5 (array 2) 0 (7 ∷ 8 ∷ []) registered 9 (array-IsDarr 2 (omega arith))
      (omega arith) (omega arith) refl

darr_push-room_example :
    (s' : Darr ℕ) × (ys : List ℕ) × (darr_push 0 5 true (array 1) 9 ≡ ok s')
    × IsDarr s' 0 ys registered
    × (take s'.d_len ys ≡ 7 ∷ 9 ∷ [])
darr_push-room_example =
    darr_push-room 0 5 true (array 1) 0 (7 ∷ 8 ∷ []) registered 9 (array-IsDarr 1 (omega arith))
      (omega arith) (omega arith)

darr_add_ptr-IsDarr_example :
    (s' : Darr ℕ) × (darr_add_ptr true (array 2) 1 ≡ ok (2, s'))
    × IsDarr s' 0 (7 ∷ 8 ∷ []) (record { link = 2; var = 1; offset = 0 } ∷ registered)
darr_add_ptr-IsDarr_example =
    darr_add_ptr-IsDarr (array 2) 0 (7 ∷ 8 ∷ []) registered 1 0 (array-IsDarr 2 (omega arith)) refl
      refl

darr_free-Cleared_example :
    (s' : Darr ℕ) × (darr_free 5 (array 2) ≡ ok s')
    × Cleared s'.vars registered
    × ((u : ℕ)
        → mem u (vars_of registered) ≡ false
        → get_elem? s'.vars u ≡ get_elem? (array 2).vars u)
    × IsCircle s'.links 0 []
    × (get_elem? s'.maps 0 ≡ some none)
    × (s'.d_arr ≡ none)
darr_free-Cleared_example =
    darr_free-Cleared 5 (array 2) 0 (7 ∷ 8 ∷ []) registered (array-IsDarr 2 (omega arith))
      (omega arith)
