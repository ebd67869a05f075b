-- ===== src/Ast/Gen.antt =====
-- ideas/ast/gen.c: code for an expression, as the list of the lines that are printed. What was
-- printed before the process ends is not kept.
pub mod Whole
use mepl.Prelude.{ℕ, List, [], ◌∷◌, ◌++◌, ltb, if◌then◌else◌, get_elem?, Outcome, ok, ◌>>=◌}
use mepl.Memory.{deref}
use mepl.Ast.{Ast, prim, bin_op, prim_count}
use mepl.Ast.Reglist.{Reglist, name_at, reglist_init, reglist_get, reglist_last, reglist_put}

-- A line: `mov` of a literal to a register, or a command with two registers.
pub data Insn (V : Type 0) : Type 0 where
  mov : List ℕ → ℕ → V → Insn V
  cmd : List ℕ → List ℕ → List ℕ → Insn V

-- AST_BIN_OP_CMD
unfoldable pub bin_op_cmds : List (List ℕ)
bin_op_cmds =
    (b'a' ∷ b'd' ∷ b'd' ∷ [])
    ∷ (b's' ∷ b'u' ∷ b'b' ∷ [])
    ∷ (b'd' ∷ b'i' ∷ b'v' ∷ [])
    ∷ (b'm' ∷ b'o' ∷ b'd' ∷ [])
    ∷ (b'm' ∷ b'u' ∷ b'l' ∷ [])
    ∷ []

module _ {V : Type 0} where
  -- AST_PRIM_SWITCH() with AST_PRIM_GEN(): for a type outside of the enum nothing is printed.
  unfoldable pub mov_for : List ℕ → ℕ → V → List (Insn V)
  mov_for name type val = if ltb type prim_count then mov name type val ∷ [] else []

  unfoldable pub prim_gen : Reglist → ℕ → V → Outcome (List (Insn V) × Reglist)
  prim_gen r type val = do
    (dst, r') ← reglist_get r
    name ← name_at r' dst
    ok (mov_for name type val, r')

  -- bin_op_gen() behind the visits of the operands
  unfoldable pub op_gen : Reglist → ℕ → Outcome (List (Insn V) × Reglist)
  op_gen r type = do
    src ← reglist_last r
    (dst, r') ← reglist_get r
    name ← deref (get_elem? bin_op_cmds type)
    dst_name ← name_at r' dst
    src_name ← name_at r' src
    r'' ← reglist_put r' src
    ok (cmd name dst_name src_name ∷ [], r'')

  -- `ap->a_visit(ap, vp)` with the visitor of ast_gen_visitor_init()
  unfoldable pub visit : Ast V → Reglist → Outcome (List (Insn V) × Reglist)
  visit (prim type val) r = prim_gen r type val
  visit (bin_op type left right) r = do
    (out, r1) ← visit left r
    (out', r2) ← visit right r1
    (out'', r3) ← op_gen r2 type
    ok (out ++ (out' ++ out''), r3)

  -- Code for an expression, from a new visitor.
  unfoldable pub gen : Ast V → Outcome (List (Insn V))
  gen ast = do (out, r) ← visit ast reglist_init; ok out
