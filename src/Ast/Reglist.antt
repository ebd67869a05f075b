-- ===== src/Ast/Reglist.antt =====
-- ideas/ast/reglist.h and ideas/ast/reglist.c: the stack of the free registers. A pointer to a name
-- is its index in `r_regs`; die_c() ends the process.
use mepl.Prelude.{
  ℕ, ◌+◌, ◌-◌, List, [], ◌∷◌, ltb, ◌==◌, if◌then◌else◌, get_elem?, set, length, died, Outcome, ok,
  exit, fault, ◌>>=◌,
}
use mepl.Memory.{deref}

abbrev pub reg_count : ℕ
reg_count = 3

pub record Reglist : Type 0 where
  -- the index that `r_p` points at
  pub r_p : ℕ
  pub r_regs : List (List ℕ)

-- REGS
abbrev pub regs : List (List ℕ)
regs = (b'r' ∷ b'0' ∷ []) ∷ (b'r' ∷ b'1' ∷ []) ∷ (b'r' ∷ b'2' ∷ []) ∷ []

unfoldable pub reglist_init : Reglist
reglist_init = record { r_p = reg_count; r_regs = regs }

-- The name that a pointer points at.
unfoldable pub name_at : Reglist → ℕ → Outcome (List ℕ)
name_at r i = deref (get_elem? r.r_regs i)

unfoldable pub reglist_get : Reglist → Outcome (ℕ × Reglist)
reglist_get r = if r.r_p == 0 then exit died else ok (r.r_p - 1, record r { r_p = r.r_p - 1 })

unfoldable pub reglist_last : Reglist → Outcome ℕ
reglist_last r = if r.r_p == reg_count then exit died else ok (r.r_p + 1)

unfoldable pub reglist_put : Reglist → ℕ → Outcome Reglist
reglist_put r reg = if r.r_p == reg_count then exit died else (do
  name ← name_at r reg
  if ltb r.r_p (length r.r_regs)
      then ok (record { r_p = r.r_p + 1; r_regs = set r.r_regs r.r_p name })
      else fault)
