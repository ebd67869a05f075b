-- ===== src/Slabs/Table/Give.antt =====
-- Getting elements by the name of their type, and giving them back.
use mepl.Prelude.{
  ℕ, zero, suc, ◌<◌, ◌≡◌, refl, ap, ◌∙◌, subst, Bool, true, false, ◌&&◌, none, some, List, [], ◌∷◌,
  ◌++◌, arith, ltb, length, get_elem?, set, died, ok, exit, ◌>>=◌,
}
use mepl.Memory.{same_bytes}
use mepl.Memory.Text.{NoNul}
use mepl.Free.Links.Circle.{mem, without}
use mepl.Slabs.Stack.{FreeStack, stack_mine, stack_empty}
use mepl.Slabs.Stack.Held.{IsShared, stack_get-IsShared, stack_put-IsShared, held-mine}
use mepl.Slabs.Table.{
  Entry, SlabTab, names, slab_size, slab_tab_size, ptr_mine, init_check, check_or_die,
  slab_tab_find, slab_tab_get, slab_tab_put,
}
use mepl.Slabs.Table.Find.{names_of, name, find_name}
use mepl.Slabs.Table.Use.{AllShared}

-- A table after slab_tab_init() of which `hs` are held, a list for each slab.
abbrev pub IsTable : SlabTab → List (List ℕ) → Type 0
IsTable t hs = (names_of t.slab_tab ≡ names) × (t.slab_init ≡ true) × AllShared t.slab_tab hs

abbrev without_nul : List ℕ → Bool
without_nul [] = true
without_nul (x ∷ xs) = ltb 0 x && without_nul xs

without_nul-NoNul : (xs : List ℕ) → without_nul xs ≡ true → NoNul xs
without_nul-NoNul [] h = tt
without_nul-NoNul (zero ∷ xs) h = cc
without_nul-NoNul (suc x ∷ xs) h = (omega arith, without_nul-NoNul xs (ground (arith, h)))

pub name-NoNul : (i : ℕ) → i < slab_tab_size → NoNul (name i)
name-NoNul zero h = without_nul-NoNul (name 0) refl
name-NoNul (suc zero) h = without_nul-NoNul (name 1) refl
name-NoNul (suc (suc zero)) h = without_nul-NoNul (name 2) refl
name-NoNul (suc (suc (suc i))) h = absurd (omega arith)

pub name-some : (i : ℕ) → i < slab_tab_size → 0 < length (name i)
name-some zero h = omega arith
name-some (suc zero) h = omega arith
name-some (suc (suc zero)) h = omega arith
name-some (suc (suc (suc i))) h = absurd (omega arith)

name-same : (i : ℕ) → i < slab_tab_size → same_bytes (name i) (name i) ≡ true
name-same zero h = refl
name-same (suc zero) h = refl
name-same (suc (suc zero)) h = refl
name-same (suc (suc (suc i))) h = absurd (omega arith)

abbrev with_slab : SlabTab → ℕ → Entry → FreeStack → SlabTab
with_slab t i ep sp = record t { slab_tab = set t.slab_tab i (record ep { ste_slab = sp }) }

names_of-set :
    (eps : List Entry) (i : ℕ) (ep : Entry) (sp : FreeStack)
    → get_elem? eps i ≡ some ep
    → names_of (set eps i (record ep { ste_slab = sp })) ≡ names_of eps
names_of-set [] i ep sp h = refl
names_of-set (a ∷ eps) zero ep sp h = cc
names_of-set (a ∷ eps) (suc i) ep sp h = ap (λ ns. a.ste_name ∷ ns) (names_of-set eps i ep sp h)

-- What is known of one slab.
AllShared-at :
    (eps : List Entry) (hs : List (List ℕ)) (i : ℕ) (ep : Entry)
    → AllShared eps hs
    → get_elem? eps i ≡ some ep
    → (xs : List ℕ) × (held : List ℕ) × (get_elem? hs i ≡ some held)
      × IsShared slab_size ep.ste_slab xs held
AllShared-at [] hs i ep all e = cc
AllShared-at (a ∷ eps) [] i ep all e = absurd all
AllShared-at (a ∷ eps) (x ∷ hs) zero ep ((xs, shared), all) e =
    let same : a ≡ ep = cc in
    (xs, x, refl, subst (λ b. IsShared slab_size b.ste_slab xs x) same shared)
AllShared-at (a ∷ eps) (x ∷ hs) (suc i) ep (one, all) e = AllShared-at eps hs i ep all e

AllShared-set :
    (eps : List Entry) (hs : List (List ℕ)) (i : ℕ) (ep : Entry) (xs held : List ℕ)
    → AllShared eps hs
    → IsShared slab_size ep.ste_slab xs held
    → AllShared (set eps i ep) (set hs i held)
AllShared-set [] [] i ep xs held all one = tt
AllShared-set [] (x ∷ hs) i ep xs held all one = absurd all
AllShared-set (a ∷ eps) [] i ep xs held all one = absurd all
AllShared-set (a ∷ eps) (x ∷ hs) zero ep xs held (old, all) one = ((xs, one), all)
AllShared-set (a ∷ eps) (x ∷ hs) (suc i) ep xs held (old, all) one =
    (old, AllShared-set eps hs i ep xs held all one)

passes : (debug b : Bool) → b ≡ true → check_or_die debug b ≡ ok tt
passes true true h = refl
passes true false h = cc
passes false b h = refl

module _ (debug : Bool) (t : SlabTab) (hs : List (List ℕ)) (post : List ℕ) (i : ℕ) (ep : Entry)
    (inside : i < slab_tab_size) (table : IsTable t hs)
    (here : get_elem? t.slab_tab i ≡ some ep) where
  finds : slab_tab_find debug t (some (name i ++ 0 ∷ post)) ≡ ok i
  finds =
      find_name t (name i) post table.0 (name-NoNul i inside) (name-some i inside) debug i inside
        (name-same i inside)

  initialised : init_check debug t ≡ ok tt
  unfolding init_check
  initialised = passes debug t.slab_init table.1

  keeps :
      (sp : FreeStack) (xs held : List ℕ)
      → IsShared slab_size sp xs held
      → IsTable (with_slab t i ep sp) (set hs i held)
  keeps sp xs held shared = (
    names_of-set t.slab_tab i ep sp here ∙ table.0,
    table.1,
    AllShared-set t.slab_tab hs i (record ep { ste_slab = sp }) xs held (table.2) shared,
  )

  -- From a table after slab_tab_init() whose elements are each free or held, slab_tab_get() with the
  -- name of an entry where some element is free gives an element that is not held of it; then each
  -- is free or held, with this one.
  pub slab_tab_get-IsTable :
      (held : List ℕ)
      → get_elem? hs i ≡ some held
      → stack_empty ep.ste_slab ≡ false
      → (p : ℕ) × (t' : SlabTab) × (slab_tab_get debug t (some (name i ++ 0 ∷ post)) ≡ ok (p, t'))
        × IsTable t' (set hs i (p ∷ held))
        × (stack_mine slab_size ep.ste_slab p ≡ true)
        × (mem p held ≡ false)
  unfolding slab_tab_get
  slab_tab_get-IsTable held at some_free =
      let (xs, x, same, one) = AllShared-at t.slab_tab hs i ep (table.2) here in
      let is_x : x ≡ held = cc in
      let shared = subst (λ a. IsShared slab_size ep.ste_slab xs a) is_x one in
      let (p, sp, ys, got, shared', mine, fresh) =
        stack_get-IsShared slab_size ep.ste_slab xs held shared some_free in
      (
        p,
        with_slab t i ep sp,
        rw (finds, ◌>>=◌, here, ◌>>=◌, initialised, ◌>>=◌, some_free, got),
        keeps sp ys (p ∷ held) shared',
        mine,
        fresh,
      )

  -- To a table after slab_tab_init() whose elements are each free or held, slab_tab_put() with the
  -- name of an entry gives back what is held of it, and clears the caller's pointer.
  pub slab_tab_put-IsTable :
      (held : List ℕ) (p : ℕ)
      → get_elem? hs i ≡ some held
      → mem p held ≡ true
      → (t' : SlabTab) × (slab_tab_put debug t (some (name i ++ 0 ∷ post)) p ≡ ok (none, t'))
        × IsTable t' (set hs i (without p held))
  unfolding slab_tab_put ptr_mine
  slab_tab_put-IsTable held p at is_held =
      let (xs, x, same, one) = AllShared-at t.slab_tab hs i ep (table.2) here in
      let is_x : x ≡ held = cc in
      let shared = subst (λ a. IsShared slab_size ep.ste_slab xs a) is_x one in
      let (sp, put, shared') = stack_put-IsShared slab_size ep.ste_slab xs held p shared is_held in
      let mine = held-mine slab_size ep.ste_slab xs held p shared is_held in
      let passed : ptr_mine debug ep p ≡ ok tt =
        passes debug (stack_mine slab_size ep.ste_slab p) mine in
      (
        with_slab t i ep sp,
        rw (finds, ◌>>=◌, here, ◌>>=◌, initialised, ◌>>=◌, passed, ◌>>=◌, put),
        keeps sp (p ∷ xs) (without p held) shared',
      )

-- For a table after slab_tab_init(): in a DBUG build, slab_tab_put() with the name of an entry ends
-- the process where the element is outside of the pool of this entry.
pub slab_tab_put-died :
    (t : SlabTab) (hs : List (List ℕ)) (post : List ℕ) (i : ℕ) (ep : Entry) (p : ℕ)
    → i < slab_tab_size
    → IsTable t hs
    → get_elem? t.slab_tab i ≡ some ep
    → stack_mine slab_size ep.ste_slab p ≡ false
    → slab_tab_put true t (some (name i ++ 0 ∷ post)) p ≡ exit died
unfolding slab_tab_put ptr_mine
slab_tab_put-died t hs post i ep p inside table here other =
    let found = finds true t hs post i ep inside table here in
    let ready = initialised true t hs post i ep inside table here in
    rw (found, ◌>>=◌, here, ◌>>=◌, ready, ◌>>=◌, other)
