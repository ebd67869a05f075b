-- ===== src/Tests/Realloc.antt =====
-- An allocator that grants every request, and zeroes what it adds.
use mepl.Prelude.{
  ℕ, zero, suc, ◌≤◌, ◌≡◌, refl, sym, ap, ◌∙◌, Option, none, some, [], ◌∷◌, ◌++◌, arith, length,
}
use mepl.Memory.{Block}
use mepl.Dstr.Put.{IsRealloc}

abbrev pub resize : ℕ → Block → Block
resize zero b = []
resize (suc n) [] = 0 ∷ resize n []
resize (suc n) (x ∷ b) = x ∷ resize n b

abbrev pub old_or_nil : Option Block → Block
old_or_nil none = []
old_or_nil (some b) = b

abbrev pub grow : Option Block → ℕ → Option Block
grow o n = some (resize n (old_or_nil o))

length-resize : (n : ℕ) (b : Block) → length (resize n b) ≡ n
length-resize zero b = refl
length-resize (suc n) [] = ap suc (length-resize n [])
length-resize (suc n) (x ∷ b) = ap suc (length-resize n b)

resize-keeps :
    (old : Block) (n : ℕ) → length old ≤ n → (rest : Block) × (resize n old ≡ old ++ rest)
resize-keeps [] n h = (resize n [], refl)
resize-keeps (x ∷ old) zero h = absurd (omega arith)
resize-keeps (x ∷ old) (suc n) h =
    let (rest, e) = resize-keeps old n (omega arith) in (rest, ap (λ b. x ∷ b) e)

is_some : {a b : Block} → some a ≡ some b → a ≡ b
is_some e = cc

pub grow-IsRealloc : IsRealloc grow 1000
grow-IsRealloc = record {
  grants = λ o n h. (_, refl);
  size = λ o n b e. ap length (sym (is_some e)) ∙ length-resize n (old_or_nil o);
  keeps = λ old n b h e. let (rest, k) = resize-keeps old n h in (rest, sym (is_some e) ∙ k);
  small = omega arith;
}
