-- ===== src/Buf/Nstr/Stream.antt =====
-- A buf over a string with a length gives all of its bytes.
use mepl.Prelude.{
  ℕ, ◌+◌, ◌≡◌, refl, sym, ◌∙◌, Bool, true, false, none, some, List, [], ◌∷◌, ◌++◌, arith, ◌==◌,
  length, length-append, ok, dbug-false,
}
use mathlib.Core.List.{append_assoc}
use mepl.Memory.{Block, from_char, load}
use mepl.Memory.Blocks.{load-append}
use mepl.Buf.{IsStream, first, behind, nstr_getc, buf_eof}
use mepl.Buf.Nstr.{BufNstr, buf_nstr_ok, buf_nstr_empty, buf_nstr_init, buf_nstr_getc, nstr_buf}

-- The bytes `cs` from the offset `p` on are still to be read; what stands behind the string is
-- `post`.
pub data Gives : BufNstr → List ℕ → Type 0 where
  gives :
      (str pre cs post : Block) (p len : ℕ)
      → str ≡ pre ++ (cs ++ post)
      → p ≡ length pre
      → len ≡ length pre + length cs
      → Gives (record { n_buf = nstr_getc; n_len = len; n_str = some str; n_p = some p }) cs

-- The tests of a DBUG build pass.
pub buf_nstr_ok-Gives :
    (debug : Bool) {b : BufNstr} {cs : List ℕ} → Gives b cs → buf_nstr_ok debug b ≡ ok tt
unfolding buf_nstr_ok
buf_nstr_ok-Gives false h = refl
buf_nstr_ok-Gives true (gives str pre cs post p len split place total) = ground arith

module _ (debug : Bool) where
  pub getc-nil : {b : BufNstr} → Gives b [] → buf_nstr_getc debug b ≡ ok (buf_eof, b)
  unfolding buf_nstr_getc buf_nstr_empty
  getc-nil (gives str pre _ post p len split place total) =
      let done : (p == len) ≡ true = ground arith in
      rw (buf_nstr_ok-Gives debug (gives str pre [] post p len split place total), done)

  pub getc-cons :
      {b : BufNstr} {x : ℕ} {cs : List ℕ}
      → Gives b (x ∷ cs)
      → (b' : BufNstr) × (buf_nstr_getc debug b ≡ ok (from_char x, b')) × Gives b' cs
  unfolding buf_nstr_getc buf_nstr_empty
  getc-cons {x} {cs} (gives str pre _ post p len split place total) =
      let more : (p == len) ≡ false = ground arith in
      let here : load str p ≡ ok x = rw (split, place) (load-append pre (cs ++ post) x) in
      (
        _,
        rw (
          buf_nstr_ok-Gives debug (gives str pre (x ∷ cs) post p len split place total),
          more,
          here,
        ),
        gives str (pre ++ x ∷ []) cs post (p + 1) len
            (split ∙ sym (append_assoc pre (x ∷ []) (cs ++ post)))
            (omega (arith, length-append pre (x ∷ []))) (omega (arith, length-append pre (x ∷ []))),
      )

  -- buf_nstr_getc(), on a
  -- buf that still gives the bytes `cs`, returns the first of them, or BUF_EOF where there is none,
  -- and leaves one that gives those behind.
  pub buf_nstr_getc-Gives :
      {s : BufNstr} (cs : List ℕ)
      → Gives s cs
      → (s' : BufNstr) × (buf_nstr_getc debug s ≡ ok (first cs, s')) × Gives s' (behind cs)
  buf_nstr_getc-Gives [] g = (_, getc-nil g, g)
  buf_nstr_getc-Gives (x ∷ cs) g = getc-cons g

  pub ready-Gives : (b : BufNstr) (cs : List ℕ) → Gives b cs → (nstr_buf debug).has_getc b ≡ true
  ready-Gives _ cs (gives str pre _ post p len split place total) = refl

  -- buf_nstr_getc() hands out the bytes of the string, and then BUF_EOF.
  abbrev pub nstr_stream : IsStream (nstr_buf debug)
  nstr_stream = record {
    Gives = Gives;
    ready = ready-Gives;
    at_end = λ s g. buf_nstr_getc-Gives [] g;
    next = λ s x cs g. buf_nstr_getc-Gives (x ∷ cs) g;
  }

  -- For a block that begins with the bytes `cs`, and their number, buf_nstr_init() succeeds, sets the
  -- caller's variable to NULL, and the buf gives `cs`.
  pub buf_nstr_init-Gives :
      (cs post : List ℕ)
      → (b : BufNstr) × (buf_nstr_init debug (some (cs ++ post)) (length cs) ≡ ok (b, none))
        × Gives b cs
  unfolding buf_nstr_init
  buf_nstr_init-Gives cs post = (
    _,
    rw (dbug-false debug),
    gives (cs ++ post) [] cs post 0 (length cs) refl refl (omega arith),
  )
