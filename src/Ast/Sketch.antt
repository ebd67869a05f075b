-- ===== src/Ast/Sketch.antt =====
-- ideas/ast.c: the first version of the expressions, with the functions that print them. What is
-- printed is a list of characters. `show` is what printf() makes of the field of the union that the
-- type of a literal selects; the spaces are never negative.
pub mod Doubled
use mepl.Prelude.{ℕ, zero, suc, ◌+◌, List, [], ◌∷◌, ◌++◌, get_elem?, Outcome, ok, ◌>>=◌}
use mepl.Memory.{deref}

-- The struct that holds the `struct ast`, by the function in a_dump. `V` is the union.
pub data Node (V : Type 0) : Type 0 where
  ast_bin_op : (left right : Node V) (type : ℕ) → Node V
  ast_prim : V → (type : ℕ) → Node V

-- AST_BIN_OP_NAMES
abbrev pub ast_bin_op_names : List (List ℕ)
ast_bin_op_names =
    (b'a' ∷ b's' ∷ b't' ∷ b'_' ∷ b'a' ∷ b'd' ∷ b'd' ∷ [])
    ∷ (b'a' ∷ b's' ∷ b't' ∷ b'_' ∷ b's' ∷ b'u' ∷ b'b' ∷ [])
    ∷ (b'a' ∷ b's' ∷ b't' ∷ b'_' ∷ b'd' ∷ b'i' ∷ b'v' ∷ [])
    ∷ (b'a' ∷ b's' ∷ b't' ∷ b'_' ∷ b'm' ∷ b'o' ∷ b'd' ∷ [])
    ∷ (b'a' ∷ b's' ∷ b't' ∷ b'_' ∷ b'm' ∷ b'u' ∷ b'l' ∷ [])
    ∷ []

-- AST_PRIM_NAMES
abbrev pub ast_prim_names : List (List ℕ)
ast_prim_names =
    (b'a' ∷ b's' ∷ b't' ∷ b'_' ∷ b'i' ∷ b'n' ∷ b't' ∷ b'{' ∷ b'}' ∷ [])
    ∷ (b'a' ∷ b's' ∷ b't' ∷ b'_' ∷ b'l' ∷ b'o' ∷ b'n' ∷ b'g' ∷ b'{' ∷ b'}' ∷ [])
    ∷ (b'a' ∷ b's' ∷ b't' ∷ b'_' ∷ b'f' ∷ b'l' ∷ b'o' ∷ b'a' ∷ b't' ∷ b'{' ∷ b'}' ∷ [])
    ∷ []

unfoldable pub indent : ℕ → List ℕ
indent zero = []
indent (suc space) = b' ' ∷ indent space

-- "{\n", "},\n", ".type = %s{},\n", ".left = ", ".right = ", ".val  = " and ",\n"
abbrev pub start_text : List ℕ
start_text = b'{' ∷ b'\n' ∷ []

abbrev pub end_text : List ℕ
end_text = b'}' ∷ b',' ∷ b'\n' ∷ []

abbrev pub type_text : List ℕ → List ℕ
type_text name =
    b'.' ∷ b't' ∷ b'y' ∷ b'p' ∷ b'e' ∷ b' ' ∷ b'=' ∷ b' ' ∷ name ++ b'{' ∷ b'}' ∷ b',' ∷ b'\n' ∷ []

abbrev pub left_text : List ℕ
left_text = b'.' ∷ b'l' ∷ b'e' ∷ b'f' ∷ b't' ∷ b' ' ∷ b'=' ∷ b' ' ∷ []

abbrev pub right_text : List ℕ
right_text = b'.' ∷ b'r' ∷ b'i' ∷ b'g' ∷ b'h' ∷ b't' ∷ b' ' ∷ b'=' ∷ b' ' ∷ []

abbrev pub val_text : List ℕ
val_text = b'.' ∷ b'v' ∷ b'a' ∷ b'l' ∷ b' ' ∷ b' ' ∷ b'=' ∷ b' ' ∷ []

abbrev pub comma_text : List ℕ
comma_text = b',' ∷ b'\n' ∷ []

module _ {V : Type 0} (show : ℕ → V → List ℕ) where
  -- The switch: a type that has no case prints nothing.
  unfoldable pub show_prim : ℕ → V → List ℕ
  show_prim zero v = show 0 v
  show_prim (suc zero) v = show 1 v
  show_prim (suc (suc zero)) v = show 2 v
  show_prim _ v = []

  -- `ap->a_dump(ap, space)`
  unfoldable pub a_dump : Node V → ℕ → Outcome (List ℕ)
  a_dump (ast_bin_op left right type) space = do
    name ← deref (get_elem? ast_bin_op_names type)
    first ← a_dump left (space + 2)
    second ← a_dump left (space + 2)
    ok (
        indent space
        ++ start_text
        ++ indent (space + 2)
        ++ type_text name
        ++ left_text
        ++ first
        ++ right_text
        ++ second
        ++ indent space
        ++ end_text)
  a_dump (ast_prim v type) space = do
    name ← deref (get_elem? ast_prim_names type)
    ok (
        indent space
        ++ start_text
        ++ indent (space + 2)
        ++ type_text name
        ++ indent (space + 2)
        ++ val_text
        ++ show_prim type v
        ++ comma_text
        ++ indent space
        ++ end_text)
