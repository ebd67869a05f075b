-- ===== src/Free/Links.antt =====
-- ideas/free/list.h: a circular list with links both ways. The links of all lists are in a store,
-- and a pointer to one is its index.
pub mod Store
pub mod Circle
pub mod Changes
pub mod Fresh
use mepl.Prelude.{ℕ, List, get_elem?, set, Outcome, ok, ◌>>=◌}
use mepl.Memory.{deref}

pub record Link : Type 0 where
  pub next : ℕ
  pub prev : ℕ

-- p->next = v
unfoldable pub set_next : List Link → ℕ → ℕ → Outcome (List Link)
set_next st p v = do l ← deref (get_elem? st p); ok (set st p (record l { next = v }))

-- p->prev = v
unfoldable pub set_prev : List Link → ℕ → ℕ → Outcome (List Link)
set_prev st p v = do l ← deref (get_elem? st p); ok (set st p (record l { prev = v }))

unfoldable pub list_init : List Link → ℕ → Outcome (List Link)
list_init st p = do st1 ← set_next st p p; set_prev st1 p p

unfoldable pub list_rm : List Link → ℕ → Outcome (List Link)
list_rm st p = do
  l ← deref (get_elem? st p)
  st1 ← set_prev st l.next l.prev
  set_next st1 l.prev l.next

unfoldable pub list_add_after : List Link → ℕ → ℕ → Outcome (List Link)
list_add_after st before p = do
  l ← deref (get_elem? st before)
  st1 ← set_next st p l.next
  st2 ← set_prev st1 p before
  st3 ← set_next st2 before p
  set_prev st3 l.next p
