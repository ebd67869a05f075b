-- ===== src/Tests/Slabs.antt =====
-- Runs of the table of slabs.
use mepl.Prelude.{
  one_if, count, ℕ, zero, suc, ◌+◌, ◌<◌, ◌≡◌, ◌≢◌, refl, sym, ap, ◌∙◌, ==_iff, Bool-cases, inl, inr,
  Bool, true, false, ◌&&◌, Option, none, some, List, [], ◌∷◌, ◌++◌, arith, ◌==◌, get_elem?, set,
  length, replicate, ok,
}
use mepl.Free.Links.Circle.{mem, without}
use mepl.Slabs.Stack.{FreeStack, stack_mine, stack_empty}
use mepl.Slabs.Stack.Free.{Below, all_free}
use mepl.Slabs.Stack.Held.{IsShared, all_free-mine, count-all_free}
use mepl.Slabs.Table.{Entry, SlabTab, names, slab_size, slab_tab_find, slab_tab_get, slab_tab_put}
use mepl.Slabs.Table.Find.{name, position, checked, slab_tab_find-position}
use mepl.Slabs.Table.Give.{
  IsTable, name-NoNul, name-some, slab_tab_get-IsTable, slab_tab_put-IsTable,
}
use mepl.Slabs.Waiting.{
  want, asleep, has, putting, gave, World, Reach, next, here, put_move, read_place,
}
use mepl.Slabs.Waiting.Safe.{IsSafe, Reach-IsSafe}
use mepl.Slabs.Waiting.Race.{element_twice}
use mepl.Slabs.Waiting.Lost.{lost_wakeup}

abbrev new_entry : ℕ → List ℕ → Entry
new_entry pool n = record {
  ste_slab = record { pool = pool; free = replicate 256 0; fp = 0 };
  ste_name = n;
}

abbrev new_table : SlabTab
new_table = record {
  slab_tab = new_entry 1000 (name 0) ∷ new_entry 2000 (name 1) ∷ new_entry 3000 (name 2) ∷ [];
  slab_init = false;
}

abbrev ascending : ℕ → ℕ → List ℕ
ascending pool zero = []
ascending pool (suc n) = pool ∷ ascending (pool + 1) n

abbrev is_at : Option ℕ → ℕ → Bool
is_at none p = false
is_at (some q) p = q == p

abbrev is_below : List ℕ → List ℕ → Bool
is_below free [] = true
is_below free (p ∷ xs) = is_at (get_elem? free (length xs)) p && is_below free xs

is_at-eq : (o : Option ℕ) (p : ℕ) → is_at o p ≡ true → o ≡ some p
is_at-eq none p h = cc
is_at-eq (some q) p h = ap some ((==_iff q p).0 h)

is_below-Below : (free xs : List ℕ) → is_below free xs ≡ true → Below free xs
is_below-Below free [] h = tt
is_below-Below free (p ∷ xs) h = elim (Bool-cases (is_at (get_elem? free (length xs)) p)) [
  | inl same ↦ (
    is_at-eq (get_elem? free (length xs)) p same,
    is_below-Below free xs (ap (λ b. b && is_below free xs) (sym same) ∙ h),
  )
  | inr other ↦ absurd (ground (arith, h, other))
]

-- A slab of which the last element is held.
abbrev used_slab : FreeStack
used_slab = record { pool = 1000; free = ascending 1000 256; fp = 255 }

abbrev full_slab : ℕ → FreeStack
full_slab pool = record { pool = pool; free = ascending pool 256; fp = 256 }

count-one : (a q n m : ℕ) → one_if (a == q) + n ≡ m → count q (a ∷ []) + n ≡ m
count-one a q n m h = omega (arith, h)

used_slab-counts :
    (q : ℕ)
    → count q (1255 ∷ []) + count q (all_free 1000 255) ≡ one_if (stack_mine 256 used_slab q)
unfolding stack_mine
used_slab-counts q =
    count-one 1255 q (count q (all_free 1000 255)) (one_if (stack_mine 256 used_slab q))
      (count-all_free 1000 256 q)

used_slab-IsShared : IsShared 256 used_slab (all_free 1000 255) (1255 ∷ [])
used_slab-IsShared = (
  (refl, refl, omega arith, is_below-Below used_slab.free (all_free 1000 255) refl),
  refl,
  used_slab-counts,
)

full_slab-IsShared :
    (pool : ℕ)
    → is_below (ascending pool 256) (all_free pool 256) ≡ true
    → IsShared 256 (full_slab pool) (all_free pool 256) []
full_slab-IsShared pool h = (
  (refl, refl, omega arith, is_below-Below (full_slab pool).free (all_free pool 256) h),
  refl,
  λ q. all_free-mine 256 q (full_slab pool),
)

-- The second slab lends nothing, the first one element.
abbrev lent_table : SlabTab
lent_table = record {
  slab_tab =
      record { ste_slab = used_slab; ste_name = name 0 }
      ∷ record { ste_slab = full_slab 2000; ste_name = name 1 }
      ∷ record { ste_slab = full_slab 3000; ste_name = name 2 }
      ∷ [];
  slab_init = true;
}

abbrev lent : List (List ℕ)
lent = (1255 ∷ []) ∷ [] ∷ [] ∷ []

lent_table-IsTable : IsTable lent_table lent
lent_table-IsTable = (
  refl,
  refl,
  (
    (all_free 1000 255, used_slab-IsShared),
    (
      (all_free 2000 256, full_slab-IsShared 2000 refl),
      ((all_free 3000 256, full_slab-IsShared 3000 refl), tt),
    ),
  ),
)

slab_tab_find-position_example :
    slab_tab_find true lent_table (some (b'A' ∷ b'S' ∷ b'T' ∷ b'_' ∷ b'I' ∷ b'F' ∷ 0 ∷ []))
    ≡ checked (position 0 names (b'A' ∷ b'S' ∷ b'T' ∷ b'_' ∷ b'I' ∷ b'F' ∷ []))
slab_tab_find-position_example =
    slab_tab_find-position lent_table (name 2) [] refl (name-NoNul 2 (omega arith))
      (name-some 2 (omega arith))

full_slab-some_free : stack_empty (full_slab 2000) ≡ false
unfolding stack_empty
full_slab-some_free = refl

slab_tab_get-IsTable_example :
    (p : ℕ) × (t' : SlabTab) × (slab_tab_get true lent_table (some (name 1 ++ 0 ∷ [])) ≡ ok (p, t'))
    × IsTable t' (set lent 1 (p ∷ []))
    × (stack_mine slab_size (full_slab 2000) p ≡ true)
    × (mem p [] ≡ false)
slab_tab_get-IsTable_example =
    slab_tab_get-IsTable true lent_table lent [] 1
      (record { ste_slab = full_slab 2000; ste_name = name 1 }) (omega arith) lent_table-IsTable
      refl [] refl full_slab-some_free

abbrev used_entry : Entry
used_entry = record { ste_slab = used_slab; ste_name = name 0 }

slab_tab_put-IsTable_example :
    (t' : SlabTab) × (slab_tab_put true lent_table (some (name 0 ++ 0 ∷ [])) 1255 ≡ ok (none, t'))
    × IsTable t' (set lent 0 (without 1255 (1255 ∷ [])))
slab_tab_put-IsTable_example =
    slab_tab_put-IsTable true lent_table lent [] 0 used_entry (omega arith) lent_table-IsTable refl
      (1255 ∷ []) 1255 refl refl

not_used_slab : stack_mine slab_size used_slab 2000 ≡ false
unfolding stack_mine
not_used_slab = refl

-- Two elements, with a thread each.
abbrev lent_slab : FreeStack
lent_slab = record { pool = 10; free = 10 ∷ 11 ∷ []; fp = 0 }

abbrev lent_world : World
lent_world = record { slab = lent_slab; locked = false; threads = want ∷ has 10 ∷ has 11 ∷ [] }

lent_slab-empty : stack_empty lent_slab ≡ true
unfolding stack_empty
lent_slab-empty = refl

nobody_asleep : (j : ℕ) → get_elem? (has 11 ∷ []) j ≢ some asleep
nobody_asleep zero e = cc
nobody_asleep (suc j) e = cc

lost_wakeup_example :
    (sp' : FreeStack) × (stack_empty sp' ≡ false)
    × Reach lent_world
        (record { slab = sp'; locked = false; threads = asleep ∷ want ∷ has 11 ∷ [] })
lost_wakeup_example =
    lost_wakeup lent_slab 10 (has 11 ∷ []) (omega arith) lent_slab-empty nobody_asleep

-- Both threads put at the same time.
abbrev both_put : World
both_put = record {
  slab = lent_slab;
  locked = false;
  threads = want ∷ putting 10 0 ∷ putting 11 0 ∷ [];
}

Reach-IsSafe_example : IsSafe both_put
Reach-IsSafe_example =
    Reach-IsSafe lent_world both_put (refl, omega arith, refl)
      (next 2 (next 1 here (put_move 1 refl (read_place lent_slab 10)))
        (put_move 2 refl (read_place lent_slab 11)))

-- The first of two elements is free.
abbrev half_slab : FreeStack
half_slab = record { pool = 10; free = 10 ∷ 11 ∷ []; fp = 1 }

element_twice_example :
    (sp' : FreeStack) × Reach
      (record { slab = half_slab; locked = false; threads = want ∷ has 11 ∷ [] })
      (record { slab = sp'; locked = false; threads = has 10 ∷ gave ∷ [] })
    × (0 < sp'.fp)
    × (get_elem? sp'.free 0 ≡ some 10)
element_twice_example = element_twice half_slab 11 0 10 [] refl refl (omega arith)
