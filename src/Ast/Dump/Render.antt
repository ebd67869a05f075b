-- ===== src/Ast/Dump/Render.antt =====
-- What is printed for an expression, by the depth of each part.
use mepl.Prelude.{
  ℕ, ◌+◌, ◌-◌, ◌<◌, ◌≡◌, refl, Option, none, some, List, [], ◌∷◌, ◌++◌, arith, get_elem?, get_or,
  get_elem?-eq-get_or, ok,
}
use mepl.Ast.{Ast, prim, bin_op, VarDef, prim_count, bin_op_count}
use mepl.Ast.Dump.{
  Print, pad, start, end, left_field, right_field, val_field, comma, type_field, dtype_field,
  name_field, value, bin_op_names, prim_names, var_def_name, dump, dump_init, var_def_dump,
}

prim_entry : (t : ℕ) → t < prim_count → get_elem? prim_names t ≡ some (get_or prim_names t [])
unfolding prim_names
prim_entry t h = get_elem?-eq-get_or prim_names t [] h

op_entry : (t : ℕ) → t < bin_op_count → get_elem? bin_op_names t ≡ some (get_or bin_op_names t [])
unfolding bin_op_names
op_entry t h = get_elem?-eq-get_or bin_op_names t [] h

module _ {V : Type 0} where
  -- The types of the literals and of the operators are those that the tables have a name for.
  abbrev pub IsNamed : Ast V → Type 0
  IsNamed (prim type val) = type < prim_count
  IsNamed (bin_op type left right) = (type < bin_op_count) × IsNamed left × IsNamed right

  abbrev pub line : ℕ → Print V → List (Print V)
  line depth text = pad depth ∷ text ∷ []

  -- Between braces stand the type and the fields, two columns further right; an operand begins
  -- four columns further right than its operator.
  abbrev pub render : ℕ → Ast V → List (Print V)
  render depth (prim type val) =
      line depth start
      ++ (line (depth + 2) (type_field (get_or prim_names type []))
          ++ (line (depth + 2) val_field ++ (value type val ∷ comma ∷ line depth end)))
  render depth (bin_op type left right) =
      line depth start
      ++ (line (depth + 2) (type_field (get_or bin_op_names type []))
          ++ (line (depth + 2) left_field
              ++ (render (depth + 4) left
                  ++ (line (depth + 2) right_field
                      ++ (render (depth + 4) right ++ line depth end)))))

  dump-prim :
      (type : ℕ) (val : V) (space : ℕ)
      → type < prim_count
      → dump (prim type val) space ≡ ok (render space (prim type val), space)
  unfolding dump
  dump-prim type val space h = rw (prim_entry type h)

  dump-bin_op :
      (type : ℕ) (left right : Ast V) (space : ℕ)
      → type < bin_op_count
      → dump left (space + 4) ≡ ok (render (space + 4) left, space + 4)
      → dump right (space + 4) ≡ ok (render (space + 4) right, space + 4)
      → dump (bin_op type left right) space ≡ ok (render space (bin_op type left right), space)
  unfolding dump
  dump-bin_op type left right space h e f =
      let back : space + 4 - 4 ≡ space = omega arith in rw (op_entry type h, e, back, f, back)

  -- For an expression whose types are all named, dump() prints what render() has for the depth that
  -- `adv_space` starts with, and leaves `adv_space` as it was.
  pub dump-render :
      (ast : Ast V) (space : ℕ) → IsNamed ast → dump ast space ≡ ok (render space ast, space)
  dump-render (prim type val) space h = dump-prim type val space h
  dump-render (bin_op type left right) space h =
      dump-bin_op type left right space h.0 (dump-render left (space + 4) h.1)
        (dump-render right (space + 4) h.2)

  abbrev pub IsNamedInit : Option (Ast V) → Type 0
  IsNamedInit none = Unit
  IsNamedInit (some expr) = IsNamed expr

  abbrev pub render_init : ℕ → Option (Ast V) → List (Print V)
  render_init depth none = []
  render_init depth (some expr) = render (depth + 4) expr

  abbrev pub render_def : ℕ → List ℕ → List ℕ → Option (Ast V) → List (Print V)
  render_def depth dtype name expr =
      line depth start
      ++ (line (depth + 2) (type_field var_def_name)
          ++ (line (depth + 2) (dtype_field dtype)
              ++ (line (depth + 2) (name_field name)
                  ++ (render_init depth expr ++ line depth end))))

  dump_init-some :
      (expr : Ast V) (space : ℕ)
      → dump expr (space + 4) ≡ ok (render (space + 4) expr, space + 4)
      → dump_init (some expr) space ≡ ok (render (space + 4) expr, space)
  unfolding dump_init
  dump_init-some expr space e = let back : space + 4 - 4 ≡ space = omega arith in rw (e, back)

  dump_init-render :
      (expr : Option (Ast V)) (space : ℕ)
      → IsNamedInit expr
      → dump_init expr space ≡ ok (render_init space expr, space)
  unfolding dump_init
  dump_init-render none space h = refl
  dump_init-render (some expr) space h = dump_init-some expr space (dump-render expr (space + 4) h)

  -- For a definition with a type and a name, and an expression, if there is one, whose types are
  -- all named, var_def_dump() prints what render_def() has for the depth that `adv_space` starts
  -- with, and leaves `adv_space` as it was.
  pub var_def_dump-render :
      (dp : VarDef V) (space : ℕ) (dtype name : List ℕ)
      → dp.avd_dtype ≡ some dtype
      → dp.avd_name ≡ some name
      → IsNamedInit dp.avd_init
      → var_def_dump dp space ≡ ok (render_def space dtype name dp.avd_init, space)
  unfolding var_def_dump
  var_def_dump-render dp space dtype name e f h = rw (e, f, dump_init-render dp.avd_init space h)
