-- ===== src/Ast/Gen/Whole.antt =====
-- The code for a whole expression.
use mepl.Prelude.{
  ℕ, ◌<◌, ◌≡◌, refl, ap, ◌∙◌, arith, some, List, [], ◌∷◌, ◌++◌, get_elem?, get_or,
  get_elem?-eq-get_or, died, Outcome, ok, exit, ◌>>=◌,
}
use mepl.Ast.{Ast, prim, bin_op, prim_count, bin_op_count}
use mepl.Ast.Reglist.{Reglist, name_at, reglist_init, reglist_get, reglist_last, reglist_put, regs}
use mepl.Ast.Gen.{Insn, mov, cmd, bin_op_cmds, mov_for, prim_gen, op_gen, visit, gen}

abbrev r : ℕ → List ℕ
r n = get_or regs n []

-- Whatever the names of the registers are, `n` of them are free.
abbrev at : (a b c : List ℕ) → ℕ → Reglist
at a b c n = record { r_p = n; r_regs = a ∷ b ∷ c ∷ [] }

cmd_entry : (t : ℕ) → t < bin_op_count → get_elem? bin_op_cmds t ≡ some (get_or bin_op_cmds t [])
unfolding bin_op_cmds
cmd_entry t h = get_elem?-eq-get_or bin_op_cmds t [] h

module _ {V : Type 0} where
  -- Every literal has one of the six types, and every operator is one of the five.
  abbrev pub IsAst : Ast V → Type 0
  IsAst (prim type val) = type < prim_count
  IsAst (bin_op type left right) = (type < bin_op_count) × IsAst left × IsAst right

  -- What gen() makes of an expression: `mov` for a literal, two of them and a command for an
  -- operator on literals, and the end of the process for all others.
  abbrev pub code_for : Ast V → Outcome (List (Insn V))
  code_for (prim type val) = ok (mov (r 2) type val ∷ [])
  code_for (bin_op type (prim t v) (prim t' v')) =
      ok (mov (r 2) t v ∷ mov (r 1) t' v' ∷ cmd (get_or bin_op_cmds type []) (r 0) (r 2) ∷ [])
  code_for (bin_op type left right) = exit died

  module _ (a b c : List ℕ) where
    visit-at-zero : (ast : Ast V) → visit ast (at a b c 0) ≡ exit died
    unfolding visit prim_gen reglist_get
    visit-at-zero (prim type val) = refl
    visit-at-zero (bin_op type left right) = rw (visit-at-zero left)

    visit-at-one :
        (type : ℕ) (left right : Ast V) → visit (bin_op type left right) (at a b c 1) ≡ exit died
    unfolding visit prim_gen reglist_get name_at
    visit-at-one type (prim t v) right = rw (visit-at-zero right)
    visit-at-one type (bin_op t l l') right = rw (visit-at-one t l l')

    visit-at-two :
        (type : ℕ) (left right : Ast V) → visit (bin_op type left right) (at a b c 2) ≡ exit died
    unfolding visit prim_gen reglist_get reglist_last op_gen name_at
    visit-at-two type (prim t v) (prim t' v') = refl
    visit-at-two type (prim t v) (bin_op t' l l') = rw (visit-at-one t' l l')
    visit-at-two type (bin_op t l l') right = rw (visit-at-two t l l')

    op_gen-at-zero : (type : ℕ) → op_gen {V = V} (at a b c 0) type ≡ exit died
    unfolding op_gen reglist_last reglist_get
    op_gen-at-zero type = refl

    prim_gen-at-one :
        (t : ℕ) (v : V) → visit (prim t v) (at a b c 1) ≡ ok (mov_for a t v, at a b c 0)
    unfolding visit prim_gen reglist_get name_at
    prim_gen-at-one t v = refl

  module _ (type : ℕ) (left right : Ast V) (r0 : Reglist) where
    visit-left : visit left r0 ≡ exit died → visit (bin_op type left right) r0 ≡ exit died
    unfolding visit
    visit-left e = rw e

    module _ {out : List (Insn V)} {r1 : Reglist} (e : visit left r0 ≡ ok (out, r1)) where
      visit-right : visit right r1 ≡ exit died → visit (bin_op type left right) r0 ≡ exit died
      unfolding visit
      visit-right f = rw (e, f)

      module _ {out' : List (Insn V)} {r2 : Reglist} (f : visit right r1 ≡ ok (out', r2)) where
        visit-op :
            {o : Outcome (List (Insn V) × Reglist)}
            → op_gen r2 type ≡ o
            → visit (bin_op type left right) r0 ≡ (o >>= λ x. ok (out ++ (out' ++ x.0), x.1))
        unfolding visit
        visit-op g = rw (e, f, g)

  mov_for-mov :
      (name : List ℕ) (t : ℕ) (v : V) → t < prim_count → mov_for name t v ≡ mov name t v ∷ []
  unfolding mov_for
  mov_for-mov name t v h = ground (arith, h)

  -- An operator on literals leaves one register, of three.
  visit-prims :
      (type t t' : ℕ) (v v' : V)
      → type < bin_op_count
      → t < prim_count
      → t' < prim_count
      → visit (bin_op type (prim t v) (prim t' v')) reglist_init
        ≡ ok (
          mov (r 2) t v ∷ mov (r 1) t' v' ∷ cmd (get_or bin_op_cmds type []) (r 0) (r 2) ∷ [],
          at (r 2) (r 1) (r 2) 1,
        )
  unfolding visit prim_gen op_gen reglist_init reglist_get reglist_last reglist_put name_at
  visit-prims type t t' v v' h ht ht' =
      rw (cmd_entry type h, mov_for-mov (r 2) t v ht, mov_for-mov (r 1) t' v' ht')

  visit-prim :
      (t : ℕ) (v : V)
      → visit (prim t v) reglist_init ≡ ok (mov_for (r 2) t v, at (r 0) (r 1) (r 2) 2)
  unfolding visit prim_gen reglist_init reglist_get name_at
  visit-prim t v = refl

  visit-right-bin_op :
      (type t t' : ℕ) (v : V) (l l' : Ast V)
      → visit (bin_op type (prim t v) (bin_op t' l l')) reglist_init ≡ exit died
  visit-right-bin_op type t t' v l l' =
      visit-right type (prim t v) (bin_op t' l l') reglist_init (visit-prim t v)
        (visit-at-two _ _ _ t' l l')

  visit-left-bin_op :
      (k type : ℕ) (l l' right : Ast V)
      → IsAst (bin_op type l l')
      → visit (bin_op k (bin_op type l l') right) reglist_init ≡ exit died
  visit-left-bin_op k type (prim t v) (prim t' v') (prim u w) h =
      visit-op k _ (prim u w) reglist_init (visit-prims type t t' v v' h.0 h.1 h.2)
        (prim_gen-at-one _ _ _ u w) (op_gen-at-zero _ _ _ k)
  visit-left-bin_op k type (prim t v) (prim t' v') (bin_op u m m') h =
      visit-right k _ (bin_op u m m') reglist_init (visit-prims type t t' v v' h.0 h.1 h.2)
        (visit-at-one _ _ _ u m m')
  visit-left-bin_op k type (prim t v) (bin_op t' l l') right h =
      visit-left k _ right reglist_init (visit-right-bin_op type t t' v l l')
  visit-left-bin_op k type (bin_op t l l') right' right h =
      visit-left k _ right reglist_init (visit-left-bin_op type t l l' right' h.1)

  gen-of :
      (ast : Ast V) {out : List (Insn V)} {r1 : Reglist}
      → visit ast reglist_init ≡ ok (out, r1)
      → gen ast ≡ ok out
  unfolding gen
  gen-of ast e = rw e

  gen-died : (ast : Ast V) → visit ast reglist_init ≡ exit died → gen ast ≡ exit died
  unfolding gen
  gen-died ast e = rw e

  -- For an expression whose literals have types of the six of the enum, and whose operators are of the
  -- five types, with a new visitor: a literal is moved
  -- to a register; an operator on two literals moves them to r2 and r1, and its command is given
  -- r0 and r2; for every other expression the process ends by die_c(), out of registers.
  pub gen-code_for : (ast : Ast V) → IsAst ast → gen ast ≡ code_for ast
  gen-code_for (prim t v) h = gen-of (prim t v) (visit-prim t v) ∙ ap ok (mov_for-mov (r 2) t v h)
  gen-code_for (bin_op type (prim t v) (prim t' v')) h =
      gen-of _ (visit-prims type t t' v v' h.0 h.1 h.2)
  gen-code_for (bin_op type (prim t v) (bin_op t' l l')) h =
      gen-died _ (visit-right-bin_op type t t' v l l')
  gen-code_for (bin_op type (bin_op t l l') right) h =
      gen-died _ (visit-left-bin_op type t l l' right h.1)
