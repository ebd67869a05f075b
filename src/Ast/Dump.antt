-- ===== src/Ast/Dump.antt =====
-- ideas/ast/dump.h and ideas/ast/dump.c: printing an expression, as the list of what is printed.
-- `adv_space`, the only state of the visitor that changes, is passed on; it stays far below the
-- largest int, and starts at 0 or above.
pub mod Render
use mepl.Prelude.{
  ℕ, ◌+◌, ◌-◌, Option, none, some, List, [], ◌∷◌, ◌++◌, get_elem?, Outcome, ok, ◌>>=◌,
}
use mepl.Memory.{deref}
use mepl.Ast.{Ast, prim, bin_op, VarDef}

-- What one call prints: `pad` is the spaces that indent() prints to stderr, `comma` the ",\n" that
-- prim_dump() prints to stdout; all else goes to `adv_fp`.
pub data Print (V : Type 0) : Type 0 where
  pad : ℕ → Print V
  start end left_field right_field val_field comma : Print V
  type_field dtype_field name_field : List ℕ → Print V
  value : ℕ → V → Print V

-- AST_BIN_OP_NAME
unfoldable pub bin_op_names : List (List ℕ)
bin_op_names =
    (b'a' ∷ b's' ∷ b't' ∷ b'_' ∷ b'a' ∷ b'd' ∷ b'd' ∷ [])
    ∷ (b'a' ∷ b's' ∷ b't' ∷ b'_' ∷ b's' ∷ b'u' ∷ b'b' ∷ [])
    ∷ (b'a' ∷ b's' ∷ b't' ∷ b'_' ∷ b'd' ∷ b'i' ∷ b'v' ∷ [])
    ∷ (b'a' ∷ b's' ∷ b't' ∷ b'_' ∷ b'm' ∷ b'o' ∷ b'd' ∷ [])
    ∷ (b'a' ∷ b's' ∷ b't' ∷ b'_' ∷ b'm' ∷ b'u' ∷ b'l' ∷ [])
    ∷ []

-- AST_PRIM_NAME
unfoldable pub prim_names : List (List ℕ)
prim_names =
    (b'a' ∷ b's' ∷ b't' ∷ b'_' ∷ b'i' ∷ b'n' ∷ b't' ∷ [])
    ∷ (b'a' ∷ b's' ∷ b't' ∷ b'_' ∷ b'l' ∷ b'o' ∷ b'n' ∷ b'g' ∷ [])
    ∷ (b'a' ∷ b's' ∷ b't' ∷ b'_' ∷ b'f' ∷ b'l' ∷ b'o' ∷ b'a' ∷ b't' ∷ [])
    ∷ (b'a' ∷ b's' ∷ b't' ∷ b'_' ∷ b'd' ∷ b'o' ∷ b'u' ∷ b'b' ∷ b'l' ∷ b'e' ∷ [])
    ∷ (b'a' ∷ b's' ∷ b't' ∷ b'_' ∷ b'c' ∷ b'h' ∷ b'a' ∷ b'r' ∷ [])
    ∷ (b'a' ∷ b's' ∷ b't' ∷ b'_' ∷ b'c' ∷ b's' ∷ b't' ∷ b'r' ∷ [])
    ∷ []

-- "ast_var_def"
abbrev pub var_def_name : List ℕ
var_def_name = b'a' ∷ b's' ∷ b't' ∷ b'_' ∷ b'v' ∷ b'a' ∷ b'r' ∷ b'_' ∷ b'd' ∷ b'e' ∷ b'f' ∷ []

abbrev pub inc : ℕ → ℕ → ℕ
inc space amt = space + amt

abbrev pub dec : ℕ → ℕ → ℕ
dec space amt = space - amt

module _ {V : Type 0} where
  -- AST_DUMP_START, AST_DUMP_TYPE, AST_DUMP_FIELD and AST_DUMP_END
  abbrev pub dump_start : ℕ → List (Print V)
  dump_start space = pad space ∷ start ∷ []

  abbrev pub dump_field : ℕ → Print V → List (Print V)
  dump_field space text = pad (space + 2) ∷ text ∷ []

  abbrev pub dump_end : ℕ → List (Print V)
  dump_end space = pad space ∷ end ∷ []

  -- `a_visit`, with the visitor of ast_dump_visitor_init(): what is printed, and `adv_space`.
  unfoldable pub dump : Ast V → ℕ → Outcome (List (Print V) × ℕ)
  dump (prim type val) space = do
    name ← deref (get_elem? prim_names type)
    ok (
      dump_start space
          ++ (dump_field space (type_field name)
              ++ (dump_field space val_field ++ (value type val ∷ comma ∷ dump_end space))),
      space,
    )
  dump (bin_op type left right) space = do
    name ← deref (get_elem? bin_op_names type)
    (out, space1) ← dump left (inc space 4)
    let space2 = dec space1 4
    (out', space3) ← dump right (inc space2 4)
    let space4 = dec space3 4
    ok (
      dump_start space
          ++ (dump_field space (type_field name)
              ++ (dump_field space left_field
                  ++ (out ++ (dump_field space2 right_field ++ (out' ++ dump_end space4))))),
      space4,
    )

  -- `if (expr != NULL)` of var_def_dump()
  unfoldable pub dump_init : Option (Ast V) → ℕ → Outcome (List (Print V) × ℕ)
  dump_init none space = ok ([], space)
  dump_init (some expr) space = do (out, space1) ← dump expr (inc space 4); ok (out, dec space1 4)

  -- fprintf() is given strings that are not NULL.
  unfoldable pub var_def_dump : VarDef V → ℕ → Outcome (List (Print V) × ℕ)
  var_def_dump dp space = do
    dtype ← deref dp.avd_dtype
    name ← deref dp.avd_name
    (out, space1) ← dump_init dp.avd_init space
    ok (
      dump_start space
          ++ (dump_field space (type_field var_def_name)
              ++ (dump_field space (dtype_field dtype)
                  ++ (dump_field space (name_field name) ++ (out ++ dump_end space1)))),
      space1,
    )
