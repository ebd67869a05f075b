-- ===== src/Buf/Stdio/Stream.antt =====
-- A buf over a stdio stream gives the bytes of the stream.
use mepl.Prelude.{
  ℕ, ◌+◌, ◌<◌, ◌≡◌, refl, sym, ap, ◌∙◌, inl, inr, Bool, true, false, some, List, [], ◌∷◌, ◌++◌,
  arith, ltb, Bool-cases, length, length-replicate, ok, dbug-false, subst, after,
}
use mepl.Memory.{Block, from_char, store}
use mepl.Memory.Text.{NoNul, NoNul-parts}
use mepl.Buf.{IsStream, first, behind, stdio_getc, buf_eof}
use mepl.Buf.Cursor.{
  Cursor, Cursor-start, Cursor-zeros, Cursor-next, load-next, load-end, not_nil, Cursor-lt,
}
use mepl.Buf.Stdio.{
  fgets, BufStdio, State, buf_stdio_ok, buf_stdio_empty, buf_stdio_next, buf_stdio_fill,
  buf_stdio_init, buf_stdio_free, buf_stdio_getc, stdio_buf,
}
use mepl.Buf.Stdio.Fgets.{sound, fgets-nil, fgets-cons, stored-line}

-- The bytes in the array from `s_p` on, and those that the stream still holds, are to be read.
pub data Gives (data_size : ℕ) : State → List ℕ → Type 0 where
  gives :
      (b : Block) (p : ℕ) (cs left : List ℕ) {all : List ℕ}
      → Cursor b p cs
      → length b ≡ data_size + 1
      → NoNul left
      → all ≡ cs ++ left
      → Gives data_size
          (record { s_buf = stdio_getc; s_p = some p; s_open = true; s_data = b }, sound left)
          all

abbrev buf_at : Block → ℕ → BufStdio
buf_at b p = record { s_buf = stdio_getc; s_p = some p; s_open = true; s_data = b }

module _ (debug : Bool) (data_size : ℕ) (b : Block) (p : ℕ) where
  -- The tests of a DBUG build pass.
  pub buf_stdio_ok-Gives :
      {cs : List ℕ}
      → Cursor b p cs
      → length b ≡ data_size + 1
      → buf_stdio_ok debug data_size (buf_at b p) ≡ ok tt
  unfolding buf_stdio_ok
  buf_stdio_ok-Gives c e =
      let inside : ltb data_size p ≡ false = ground (arith, Cursor-lt c) in
      elim (Bool-cases debug) [ inl on ↦ rw (on, inside) | inr off ↦ rw off ]

  getc-here :
      (x : ℕ) (cs left : List ℕ)
      → Cursor b p (x ∷ cs)
      → length b ≡ data_size + 1
      → buf_stdio_getc debug data_size (buf_at b p, sound left)
        ≡ ok (from_char x, (buf_at b (p + 1), sound left))
  unfolding buf_stdio_getc buf_stdio_empty buf_stdio_next
  getc-here x cs left c e = rw (buf_stdio_ok-Gives c e, load-next c, not_nil c)

  module _ (c : Cursor b p []) (e : length b ≡ data_size + 1) where
    getc-fill :
        (x : ℕ) (left rest : List ℕ) {cs : List ℕ} (read stored : Block)
        → fgets b data_size (sound left) ≡ (true, read, sound rest)
        → store read data_size 0 ≡ ok stored
        → Cursor stored 0 (x ∷ cs)
        → buf_stdio_getc debug data_size (buf_at b p, sound left)
          ≡ ok (from_char x, (buf_at stored 1, sound rest))
    unfolding buf_stdio_getc buf_stdio_empty buf_stdio_fill buf_stdio_next
    getc-fill x left rest read stored r w c' =
        rw (buf_stdio_ok-Gives c e, load-end c, r, w) (rw (load-next c'))

    getc-eof :
        buf_stdio_getc debug data_size (buf_at b p, sound []) ≡ ok (buf_eof, (buf_at b p, sound []))
    unfolding buf_stdio_getc buf_stdio_empty buf_stdio_fill
    getc-eof = rw (buf_stdio_ok-Gives c e, load-end c, fgets-nil b data_size)

module _ (debug : Bool) (data_size : ℕ) where
  pub getc-nil :
      {s : State}
      → Gives data_size s []
      → (buf_stdio_getc debug data_size s ≡ ok (buf_eof, s)) × Gives data_size s []
  getc-nil (gives b p [] [] c e n h) = (getc-eof debug data_size b p c e, gives b p [] [] c e n h)
  getc-nil (gives b p [] (y ∷ left) c e n h) = cc
  getc-nil (gives b p (y ∷ cs) left c e n h) = cc

module _ (debug : Bool) (data_size : ℕ) (two : 1 < data_size) where
  pub getc-cons :
      {s : State} {x : ℕ} {cs : List ℕ}
      → Gives data_size s (x ∷ cs)
      → (s' : State) × (buf_stdio_getc debug data_size s ≡ ok (from_char x, s'))
        × Gives data_size s' cs
  getc-cons (gives b p [] [] c e n h) = cc
  getc-cons {x} {cs} (gives b p [] (y ∷ left) c e n h) =
      let (line, rest, parts, short, read) = fgets-cons b data_size y left two in
      let (post, w, len) = stored-line b data_size (y ∷ line) e (omega arith) in
      let clean = NoNul-parts line rest (subst NoNul (sym parts) n.1) in
      let c' = Cursor-start (y ∷ line) post (n.0, clean.0) in
      let same : y ≡ x = cc in
      let s' : State = (buf_at (y ∷ (line ++ 0 ∷ post)) 1, sound rest) in
      (
        s',
        getc-fill debug data_size b p c e y (y ∷ left) rest _ _ read w c'
            ∙ ap (λ z. ok (from_char z, s')) same,
        gives _ 1 line rest (Cursor-next c') len clean.1 cc,
      )
  getc-cons {x} {cs} (gives b p (y ∷ front) left c e n h) =
      let same : y ≡ x = cc in
      let s' : State = (buf_at b (p + 1), sound left) in
      (
        s',
        getc-here debug data_size b p y front left c e ∙ ap (λ z. ok (from_char z, s')) same,
        gives b (p + 1) front left (Cursor-next c) e n cc,
      )

  -- With a BUF_STDIO_DATA_SIZE of two or more, buf_stdio_getc(), on a
  -- buf that still gives the bytes `cs`, returns the first of them, or BUF_EOF where there is none,
  -- and leaves one that gives those behind.
  pub buf_stdio_getc-Gives :
      {s : State} (cs : List ℕ)
      → Gives data_size s cs
      → (s' : State) × (buf_stdio_getc debug data_size s ≡ ok (first cs, s'))
        × Gives data_size s' (behind cs)
  buf_stdio_getc-Gives [] g = (_, (getc-nil debug data_size g).0, (getc-nil debug data_size g).1)
  buf_stdio_getc-Gives (x ∷ cs) g = getc-cons g

  pub ready-Gives :
      (s : State) (cs : List ℕ)
      → Gives data_size s cs
      → (stdio_buf debug data_size).has_getc s ≡ true
  ready-Gives _ cs (gives b p front left c e n h) = refl

  -- buf_stdio_getc() hands out the bytes of the stream, and then BUF_EOF.
  abbrev pub stdio_stream : IsStream (stdio_buf debug data_size)
  stdio_stream = record {
    Gives = Gives data_size;
    ready = ready-Gives;
    at_end = λ s g. buf_stdio_getc-Gives [] g;
    next = λ s x cs g. buf_stdio_getc-Gives (x ∷ cs) g;
  }

module _ (debug : Bool) (data_size : ℕ) where
  -- For an open stream that holds the bytes `left`, none of them nil, and has no error,
  -- buf_stdio_init() succeeds and the buf gives `left`.
  pub buf_stdio_init-Gives :
      (left : List ℕ)
      → NoNul left
      → (b : BufStdio) × (buf_stdio_init debug data_size true ≡ ok b)
        × Gives data_size (b, sound left) left
  unfolding buf_stdio_init
  buf_stdio_init-Gives left n = (
    _,
    rw (dbug-false debug),
    gives _ 0 [] left (Cursor-zeros data_size) (length-replicate (data_size + 1) 0) n refl,
  )

  pub buf_stdio_free-Gives :
      {s : State} {cs : List ℕ}
      → Gives data_size s cs
      → (b : BufStdio) × (buf_stdio_free debug data_size s.0 ≡ ok b)
  unfolding buf_stdio_free
  buf_stdio_free-Gives (gives b p front left c e n h) =
      (_, after _ (buf_stdio_ok-Gives debug data_size b p c e) refl)
