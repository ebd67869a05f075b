-- ===== src/Tests/Expressions.antt =====
-- The visitors on an expression, whose literals have numbers as values.
use mepl.Prelude.{ℕ, ◌≡◌, ◌+◌, List, [], ◌∷◌, arith, ok}
use mepl.Ast.{Ast, prim, bin_op}
use mepl.Ast.Gen.{gen}
use mepl.Ast.Gen.Whole.{code_for, gen-code_for}
use mepl.Ast.Sketch.{Node, ast_bin_op, ast_prim, a_dump}
use mepl.Ast.Sketch.Doubled.{doubled, text, a_dump-doubled}
use mepl.Ast.Dump.{dump}
use mepl.Ast.Dump.Render.{render, dump-render}

-- 2 * 3
abbrev product : Ast ℕ
product = bin_op 4 (prim 0 2) (prim 0 3)

-- 1 + 2 * 3
abbrev total : Ast ℕ
total = bin_op 0 (prim 0 1) product

gen-code_for_example : gen total ≡ code_for total
gen-code_for_example = gen-code_for total (ground arith)

dump-render_example : dump total 0 ≡ ok (render 0 total, 0)
dump-render_example = dump-render total 0 (ground arith)

-- 1 + 2, of the first version, whose literals are shown as one character
abbrev sum : Node ℕ
sum = ast_bin_op (ast_prim 1 0) (ast_prim 2 0) 0

abbrev show_char : ℕ → ℕ → List ℕ
show_char type v = (v + b'0') ∷ []

a_dump-doubled_example : a_dump show_char sum 0 ≡ ok (text show_char (doubled sum) 0)
a_dump-doubled_example = a_dump-doubled show_char sum 0 (omega arith, omega arith)
