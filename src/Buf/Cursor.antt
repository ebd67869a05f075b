-- ===== src/Buf/Cursor.antt =====
-- A place in a nil-terminated string, as `c_p`, `u_p` and `s_p` point at one.
use mepl.Prelude.{
  ℕ, ◌+◌, ◌<◌, ◌≡◌, refl, sym, ap, ◌∙◌, false, List, [], ◌∷◌, ◌++◌, arith, ◌==◌, length, drop,
  replicate, length-append, length-drop, ok,
}
use mathlib.Core.List.{append_assoc}
use native.Mathlib.Numerals.{add-one}
use mepl.Memory.{Block, load, store, strlen, blit}
use mepl.Memory.Blocks.{load-append, store-append, blit-eq-append}
use mepl.Memory.Text.{NoNul, NoNul-append, strlen-append}

-- At the offset `p` of the block the string `cs` is still to be read.
pub record Cursor (b : Block) (p : ℕ) (cs : List ℕ) : Type 0 where
  pub pre : List ℕ
  pub post : List ℕ
  pub split : b ≡ pre ++ (cs ++ 0 ∷ post)
  pub place : p ≡ length pre
  pub read : NoNul pre
  pub unread : NoNul cs

pub Cursor-start : (cs post : List ℕ) → NoNul cs → Cursor (cs ++ 0 ∷ post) 0 cs
Cursor-start cs post h = record {
  pre = [];
  post = post;
  split = refl;
  place = refl;
  read = tt;
  unread = h;
}

-- An array of zeros is an empty string.
pub Cursor-zeros : (n : ℕ) → Cursor (replicate (n + 1) 0) 0 []
Cursor-zeros n = record {
  pre = [];
  post = replicate n 0;
  split = ap (λ k. replicate k 0) (add-one n);
  place = refl;
  read = tt;
  unread = tt;
}

module _ {b : Block} {p : ℕ} where
  pub load-end : Cursor b p [] → load b p ≡ ok 0
  load-end c = rw (c.split, c.place) (load-append c.pre c.post 0)

  module _ {x : ℕ} {cs : List ℕ} (c : Cursor b p (x ∷ cs)) where
    pub load-next : load b p ≡ ok x
    load-next = rw (c.split, c.place) (load-append c.pre (cs ++ 0 ∷ c.post) x)

    pub not_nil : (x == 0) ≡ false
    not_nil = let h = c.unread.0 in ground arith

    pub Cursor-next : Cursor b (p + 1) cs
    Cursor-next = record {
      pre = c.pre ++ x ∷ [];
      post = c.post;
      split = c.split ∙ sym (append_assoc c.pre (x ∷ []) (cs ++ 0 ∷ c.post));
      place = omega (arith, c.place, length-append c.pre (x ∷ []));
      read = NoNul-append c.pre (x ∷ []) c.read (c.unread.0, tt);
      unread = c.unread.1;
    }

  module _ {cs : List ℕ} (c : Cursor b p cs) where
    pub strlen-Cursor : strlen b ≡ ok (p + length cs)
    strlen-Cursor =
        rw (c.split, ← append_assoc c.pre cs (0 ∷ c.post), c.place, ← length-append c.pre cs)
          (strlen-append (c.pre ++ cs) c.post (NoNul-append c.pre cs c.read c.unread))

    pub Cursor-lt : p + length cs < length b
    Cursor-lt = omega (
      arith,
      ap length c.split,
      c.place,
      length-append c.pre (cs ++ 0 ∷ c.post),
      length-append cs (0 ∷ c.post),
    )

-- A chunk of input written to the front of an array, and the nil stored behind it.
pub fill-Cursor :
    (b : Block) (chunk : List ℕ)
    → length chunk < length b
    → (post : Block) × (store (blit chunk b) (length chunk) 0 ≡ ok (chunk ++ 0 ∷ post))
      × (length (chunk ++ 0 ∷ post) ≡ length b)
fill-Cursor b chunk h = go (drop (length chunk) b) refl
  where
    written : blit chunk b ≡ chunk ++ drop (length chunk) b
    written = blit-eq-append chunk b (omega arith)

    go :
        (rest : Block)
        → drop (length chunk) b ≡ rest
        → (post : Block) × (store (blit chunk b) (length chunk) 0 ≡ ok (chunk ++ 0 ∷ post))
          × (length (chunk ++ 0 ∷ post) ≡ length b)
    go [] e = absurd (omega (arith, ap length e, length-drop (length chunk) b))
    go (y ∷ post) e = (
      post,
      rw (written, e) (store-append chunk post y 0),
      omega (arith, ap length e, length-drop (length chunk) b, length-append chunk (0 ∷ post)),
    )
