-- ===== src/Lex/State.antt =====
-- A lexer whose buf gives a known text, and a step of it: a character read, a character pushed.
use mepl.Prelude.{
  ℕ, ◌<◌, ◌≡◌, refl, ap, ◌∙◌, Bool, true, false, Option, some, List, [], ◌∷◌, ◌++◌, arith, leb,
  length, ok, subst,
}
use mepl.Memory.{Block, ℤ, pos, from_char, to_char}
use mepl.Dstr.{Dstr, dstr_push}
use mepl.Dstr.Content.{Holds}
use mepl.Dstr.Put.{IsRealloc}
use mepl.Dstr.Push.{Room, dstr_push-Holds}
use mepl.Buf.{Buf, IsStream, buf_eof}
use mepl.Lex.{Lex, lex_getc, lex_ok, push, tt_count}

-- The lexer's last token has type `t` and the lexeme `w`, and its buf still gives `cs`.
pub data Ready {b : Buf} (str : IsStream b) : Lex b → ℕ → List ℕ → List ℕ → Type 0 where
  ready :
      (d : Dstr) (s : b.State) (t : ℕ) {w cs : List ℕ}
      → Holds d w
      → str.Gives s cs
      → t < tt_count
      → Ready str (record { l_lex = d; l_buf = some s; l_type = t; l_putback = pos 0 }) t w cs

-- An ASCII byte is read as its code, and stored as it was.
pub from_char-ascii : (x : ℕ) → x < 128 → from_char x ≡ pos x
unfolding from_char
from_char-ascii x h = ground arith

pub to_char-pos : (x : ℕ) → x < 256 → to_char (pos x) ≡ x
unfolding to_char
to_char-pos x h = omega arith

module _ {b : Buf} (str : IsStream b) where
  -- On a lexer in any state that lex_next() leaves, lex_ok() passes, in a DBUG build too.
  pub lex_ok-Ready :
      (debug : Bool) {lp : Lex b} {t : ℕ} {w cs : List ℕ}
      → Ready str lp t w cs
      → lex_ok debug lp ≡ ok tt
  unfolding lex_ok
  lex_ok-Ready false r = refl
  lex_ok-Ready true {cs} (ready d s t h g l) =
      let low : leb tt_count t ≡ false = ground arith in rw (low, str.ready s cs g)

  lexer : Dstr → b.State → ℕ → Lex b
  lexer d s t = record { l_lex = d; l_buf = some s; l_type = t; l_putback = pos 0 }

  lex_getc-of :
      (d : Dstr) (s s' : b.State) (t : ℕ) (c : ℤ)
      → b.b_getc s ≡ ok (c, s')
      → lex_getc (lexer d s t) ≡ ok (c, lexer d s' t)
  unfolding lex_getc lexer
  lex_getc-of d s s' t c e = rw e

  pub getc-eof :
      {lp : Lex b} {t : ℕ} {w : List ℕ}
      → Ready str lp t w []
      → (lp' : Lex b) × (lex_getc lp ≡ ok (buf_eof, lp')) × Ready str lp' t w []
  unfolding lexer
  getc-eof (ready d s t h g l) =
      let (s', read, g') = str.at_end s g in
      (lexer d s' t, lex_getc-of d s s' t buf_eof read, ready d s' t h g' l)

  pub getc-cons :
      {lp : Lex b} {t : ℕ} {w : List ℕ} {x : ℕ} {cs : List ℕ}
      → x < 128
      → Ready str lp t w (x ∷ cs)
      → (lp' : Lex b) × (lex_getc lp ≡ ok (pos x, lp')) × Ready str lp' t w cs
  unfolding lexer
  getc-cons {x} {cs} a (ready d s t h g l) =
      let (s', read, g') = str.next s x cs g in
      let read' = read ∙ ap (λ c. ok (c, s')) (from_char-ascii x a) in
      (lexer d s' t, lex_getc-of d s s' t (pos x) read', ready d s' t h g' l)

  module _ (debug : Bool) {realloc : Option Block → ℕ → Option Block} {limit : ℕ}
      (is : IsRealloc realloc limit) where
    push-of :
        (d d' : Dstr) (s : b.State) (t : ℕ) (c : ℤ)
        → dstr_push debug realloc d c ≡ ok d'
        → push debug realloc (lexer d s t) c ≡ ok (lexer d' s t)
    unfolding push lexer
    push-of d d' s t c e = rw e

    pub push-Ready :
        {lp : Lex b} {t : ℕ} {w : List ℕ} {x : ℕ} {cs : List ℕ}
        → 0 < x
        → x < 128
        → Room limit (length w)
        → Ready str lp t w cs
        → (lp' : Lex b) × (push debug realloc lp (pos x) ≡ ok lp')
          × Ready str lp' t (w ++ x ∷ []) cs
    unfolding lexer
    push-Ready {w} {x} n a room (ready d s t h g l) =
        let same = to_char-pos x (omega arith) in
        let (d', pushed, h') = dstr_push-Holds debug realloc is (pos x) (rw same n) h room in
        let h'' = subst (λ k. Holds d' (w ++ k ∷ [])) same h' in
        (lexer d' s t, push-of d d' s t (pos x) pushed, ready d' s t h'' g l)
