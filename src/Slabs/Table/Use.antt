-- ===== src/Slabs/Table/Use.antt =====
-- The table from slab_tab_init() to slab_tab_exit_check().
use mepl.Prelude.{
  ℕ, ◌≡◌, refl, ap, true, List, [], ◌∷◌, ◌==◌, if◌then◌else◌, Bool-cases, inl, inr, length, ok,
  ◌>>=◌,
}
use mepl.Slabs.Stack.Free.{all_free}
use mepl.Slabs.Stack.Held.{IsShared, stack_init-IsShared, stack_full-IsShared}
use mepl.Slabs.Table.{
  Entry, SlabTab, slab_size, full_check, exit_check_from, slab_tab_exit_check, init_entries,
  slab_tab_init,
}
use mepl.Slabs.Table.Find.{names_of}

-- The elements of each slab are free, or among those that are `held` of it.
abbrev pub AllShared : List Entry → List (List ℕ) → Type 0
AllShared [] [] = Unit
AllShared (ep ∷ eps) (h ∷ hs) =
    ((xs : List ℕ) × IsShared slab_size ep.ste_slab xs h) × AllShared eps hs
AllShared _ _ = ⊥

-- The entries have space for their pointers.
abbrev pub Sized : List Entry → Type 0
Sized [] = Unit
Sized (ep ∷ eps) = (length ep.ste_slab.free ≡ slab_size) × Sized eps

abbrev pub none_held : List Entry → List (List ℕ)
none_held [] = []
none_held (ep ∷ eps) = [] ∷ none_held eps

init_entries-AllShared :
    (eps : List Entry)
    → Sized eps
    → (eps' : List Entry) × (init_entries eps ≡ ok eps')
      × AllShared eps' (none_held eps)
      × (names_of eps' ≡ names_of eps)
unfolding init_entries
init_entries-AllShared [] h = ([], refl, tt, refl)
init_entries-AllShared (ep ∷ eps) (h, hs) =
    let (sp, ran, shared) = stack_init-IsShared slab_size ep.ste_slab h in
    let (eps', rest, all, same) = init_entries-AllShared eps hs in
    (
      record ep { ste_slab = sp } ∷ eps',
      rw (ran, ◌>>=◌, rest),
      ((all_free ep.ste_slab.pool slab_size, shared), all),
      ap (λ ns. ep.ste_name ∷ ns) same,
    )

-- Where each entry has space for its pointers, slab_tab_init() makes a table of which nothing is
-- held, with the same names.
pub slab_tab_init-AllShared :
    (t : SlabTab)
    → Sized t.slab_tab
    → (t' : SlabTab) × (slab_tab_init t ≡ ok t')
      × AllShared t'.slab_tab (none_held t.slab_tab)
      × (names_of t'.slab_tab ≡ names_of t.slab_tab)
      × (t'.slab_init ≡ true)
unfolding slab_tab_init
slab_tab_init-AllShared t h =
    let (eps, ran, all, same) = init_entries-AllShared t.slab_tab h in
    (record { slab_tab = eps; slab_init = true }, rw ran, all, same, refl)

-- The names of the entries of which something is held.
abbrev pub names_held : List Entry → List (List ℕ) → List (List ℕ)
names_held [] hs = []
names_held (ep ∷ eps) [] = []
names_held (ep ∷ eps) (h ∷ hs) =
    if length h == 0 then names_held eps hs else ep.ste_name ∷ names_held eps hs

exit_check-names :
    (eps : List Entry) (hs : List (List ℕ))
    → AllShared eps hs
    → exit_check_from true eps ≡ names_held eps hs
unfolding exit_check_from full_check
exit_check-names [] [] h = refl
exit_check-names [] (x ∷ hs) h = absurd h
exit_check-names (ep ∷ eps) [] h = absurd h
exit_check-names (ep ∷ eps) (x ∷ hs) ((xs, shared), all) =
    let full = stack_full-IsShared slab_size ep.ste_slab xs x shared in
    let rest = exit_check-names eps hs all in
    elim (Bool-cases (length x == 0)) [
      | inl empty ↦ rw (full, empty, rest)
      | inr some_held ↦ rw (full, some_held, rest)
    ]

-- Where the elements of each slab are free or held, slab_tab_exit_check() of a DBUG build warns of
-- the slabs of which something is held, and of no other.
pub slab_tab_exit_check-held :
    (t : SlabTab) (hs : List (List ℕ))
    → AllShared t.slab_tab hs
    → slab_tab_exit_check true t ≡ names_held t.slab_tab hs
unfolding slab_tab_exit_check
slab_tab_exit_check-held t hs h = exit_check-names t.slab_tab hs h
