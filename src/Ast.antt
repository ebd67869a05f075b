-- ===== src/Ast.antt =====
-- ideas/ast: expressions, and the visitor that prints code for them (ast.h, visitor.h, prim.c,
-- bin_op.c, var_def.c,
-- reglist.c, gen.c, dump.c). The values of the literals are a parameter: printing them is
-- fprintf()'s. A pointer to a node is the node, and nodes do not change.
pub mod Sketch
pub mod Reglist
pub mod Gen
pub mod Dump
use mepl.Prelude.{ℕ, Option, none, List}
use mathlib.Core.Option

-- `struct ast_prim` and `struct ast_bin_op`, as the visitor of gen.c sees them: a literal's type
-- (AST_PRIM_INT, …) with its value, and an operator (AST_BIN_OP_ADD, …) with its operands.
pub data Ast (V : Type 0) : Type 0 where
  prim : ℕ → V → Ast V
  bin_op : ℕ → Ast V → Ast V → Ast V

abbrev pub prim_count : ℕ
prim_count = 6

abbrev pub bin_op_count : ℕ
bin_op_count = 5

-- `struct ast_var_def`; its strings may be NULL, and so may its value.
pub record VarDef (V : Type 0) : Type 0 where
  pub avd_init : Option (Ast V)
  pub avd_dtype : Option (List ℕ)
  pub avd_name : Option (List ℕ)

module _ {V : Type 0} where
  -- The new definition, which keeps the value that stood there, and the two variables of the caller.
  unfoldable pub ast_var_def_init :
      VarDef V → Option (List ℕ) → Option (List ℕ) → VarDef V × Option (List ℕ) × Option (List ℕ)
  ast_var_def_init dp dtype name = (record dp { avd_dtype = dtype; avd_name = name }, none, none)

  -- Zeroes the definition; each of the two variables is given its string, unless its pointer is
  -- NULL.
  unfoldable pub ast_var_def_free :
      VarDef V
      → Option (Option (List ℕ))
      → Option (Option (List ℕ))
      → VarDef V × Option (Option (List ℕ)) × Option (Option (List ℕ))
  ast_var_def_free dp dtypepp namepp = (
    record { avd_init = none; avd_dtype = none; avd_name = none },
    Option.map (λ _. dp.avd_dtype) dtypepp,
    Option.map (λ _. dp.avd_name) namepp,
  )
