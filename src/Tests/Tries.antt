-- ===== src/Tests/Tries.antt =====
-- The sets of pointers on some pointers.
use mepl.Prelude.{ℕ, ◌≡◌, Bool, true, ◌||◌, List, [], ◌∷◌, arith, ok, fault}
use mepl.Ptrset.{same_ptr}
use mepl.Ptrset.ListSet.{list_set_new, list_set_add, list_set_has}
use mepl.Ptrset.ListSet.Sorted.{list_set_new-Sorted}
use mepl.Ptrset.ListSet.Member.{list_set_has-list_set_add}
use mepl.Ptrset.Fixset.{Fixset, fixset_new, fixset_add, fixset_has}
use mepl.Ptrset.Fixset.Member.{same_but_last, fixset_has-fixset_add}
use mepl.Ptrset.DynarrSet.{DynarrSet, dynarr_set_new, dynarr_set_add, dynarr_set_has}
use mepl.Ptrset.DynarrSet.First.{dynarr_set_first}

abbrev one : List ℕ
one = 7 ∷ 0 ∷ 3 ∷ 1 ∷ []

abbrev two : List ℕ
two = 7 ∷ 0 ∷ 3 ∷ 2 ∷ []

list_set_has-list_set_add_example :
    list_set_has (list_set_add list_set_new one) two
    ≡ (same_ptr one two || list_set_has list_set_new two)
list_set_has-list_set_add_example =
    list_set_has-list_set_add list_set_new one two list_set_new-Sorted (omega arith)

fixset_has-fixset_add_example :
    (s : Fixset) × (before : Bool) × (fixset_add 8 fixset_new one ≡ ok s)
    × (fixset_has 8 fixset_new two ≡ ok before)
    × (fixset_has 8 s two ≡ ok (same_but_last one two || before))
fixset_has-fixset_add_example =
    fixset_has-fixset_add 8 fixset_new one two (ground arith) (ground arith) (omega arith)

dynarr_set_first_example :
    (s : DynarrSet) × (dynarr_set_add dynarr_set_new one ≡ ok s)
    × (dynarr_set_has s one ≡ ok true)
    × (dynarr_set_has s (8 ∷ []) ≡ fault)
    × (dynarr_set_add s (8 ∷ []) ≡ fault)
dynarr_set_first_example = dynarr_set_first 7 (0 ∷ 3 ∷ 1 ∷ []) 8 [] (omega arith)
