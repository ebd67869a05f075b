-- ===== src/Ast/Sketch/Doubled.antt =====
-- What the first version prints of an operator: the left operand, twice.
use mepl.Prelude.{ℕ, ◌+◌, ◌<◌, ◌≡◌, List, [], ◌++◌, get_or, get_elem?-eq-get_or, length, ok, ◌>>=◌}
use mepl.Ast.Sketch.{
  Node, ast_bin_op, ast_prim, ast_bin_op_names, ast_prim_names, indent, start_text, end_text,
  type_text, left_text, right_text, val_text, comma_text, show_prim, a_dump,
}

module _ {V : Type 0} where
  -- The types of a literal, and of an operator and its left operand, have names.
  abbrev pub IsNamed : Node V → Type 0
  IsNamed (ast_bin_op left right type) = (type < length ast_bin_op_names) × IsNamed left
  IsNamed (ast_prim v type) = type < length ast_prim_names

  -- Each right operand is replaced by the left one.
  abbrev pub doubled : Node V → Node V
  doubled (ast_bin_op left right type) = ast_bin_op (doubled left) (doubled left) type
  doubled (ast_prim v type) = ast_prim v type

module _ {V : Type 0} (show : ℕ → V → List ℕ) where
  -- The text of an expression, with both operands.
  abbrev pub text : Node V → ℕ → List ℕ
  text (ast_bin_op left right type) space =
      indent space
      ++ start_text
      ++ indent (space + 2)
      ++ type_text (get_or ast_bin_op_names type [])
      ++ left_text
      ++ text left (space + 2)
      ++ right_text
      ++ text right (space + 2)
      ++ indent space
      ++ end_text
  text (ast_prim v type) space =
      indent space
      ++ start_text
      ++ indent (space + 2)
      ++ type_text (get_or ast_prim_names type [])
      ++ indent (space + 2)
      ++ val_text
      ++ show_prim show type v
      ++ comma_text
      ++ indent space
      ++ end_text

  -- Where the types have names, a_dump prints the text of the expression in which each right operand
  -- is replaced by the left one.
  pub a_dump-doubled :
      (n : Node V) (space : ℕ) → IsNamed n → a_dump show n space ≡ ok (text (doubled n) space)
  unfolding a_dump
  a_dump-doubled (ast_bin_op left right type) space (h, hs) =
      rw (get_elem?-eq-get_or ast_bin_op_names type [] h, ◌>>=◌, a_dump-doubled left (space + 2) hs)
  a_dump-doubled (ast_prim v type) space h = rw (get_elem?-eq-get_or ast_prim_names type [] h)
