-- ===== src/Buf/Unix/Stream.antt =====
-- A buf over a file descriptor gives the bytes that read() delivers.
use mepl.Prelude.{
  ℕ, ◌+◌, ◌≤◌, ◌<◌, ◌≡◌, refl, ap, ◌∙◌, inl, inr, Bool, true, false, some, List, [], ◌∷◌, ◌++◌,
  arith, ltb, Bool-cases, length, length-replicate, ok, dbug-false,
}
use mepl.Memory.{Block, pos, from_char, store, blit}
use mepl.Memory.Text.{NoNul}
use mepl.Buf.{IsStream, first, behind, unix_getc, buf_eof}
use mepl.Buf.Cursor.{
  Cursor, Cursor-start, Cursor-zeros, Cursor-next, load-next, load-end, not_nil, fill-Cursor,
  Cursor-lt,
}
use mepl.Buf.Unix.{
  BufUnix, Read, got, failed, State, buf_unix_ok, buf_unix_empty, buf_unix_next, buf_unix_fill,
  buf_unix_init, buf_unix_getc, unix_buf,
}

-- The bytes that the calls of read() are going to store.
abbrev pub text : List Read → List ℕ
text [] = []
text (got chunk ∷ reads) = chunk ++ text reads
text (failed ∷ reads) = []

module _ (data_size : ℕ) where
  -- No call fails, none stores more than it was asked for, and none stores a nil or nothing.
  abbrev pub AllRead : List Read → Type 0
  AllRead [] = Unit
  AllRead (got chunk ∷ reads) =
      (0 < length chunk) × (length chunk ≤ data_size) × NoNul chunk × AllRead reads
  AllRead (failed ∷ reads) = ⊥

  pub data Gives : State → List ℕ → Type 0 where
    gives :
        (b : Block) (p : ℕ) (fd : ℕ) (cs : List ℕ) (reads : List Read) {all : List ℕ}
        → Cursor b p cs
        → length b ≡ data_size + 1
        → AllRead reads
        → all ≡ cs ++ text reads
        → Gives (record { u_buf = unix_getc; u_p = some p; u_data = b; u_fd = pos fd }, reads) all

abbrev buf_at : Block → ℕ → ℕ → BufUnix
buf_at b p fd = record { u_buf = unix_getc; u_p = some p; u_data = b; u_fd = pos fd }

module _ (debug : Bool) (data_size : ℕ) (b : Block) (p fd : ℕ) where
  -- The tests of a DBUG build pass.
  pub buf_unix_ok-Gives :
      {cs : List ℕ}
      → Cursor b p cs
      → length b ≡ data_size + 1
      → buf_unix_ok debug data_size (buf_at b p fd) ≡ ok tt
  unfolding buf_unix_ok
  buf_unix_ok-Gives c e =
      let inside : ltb data_size p ≡ false = ground (arith, Cursor-lt c) in
      elim (Bool-cases debug) [ inl on ↦ rw (on, inside) | inr off ↦ rw off ]

  getc-here :
      (x : ℕ) (cs : List ℕ) (reads : List Read)
      → Cursor b p (x ∷ cs)
      → length b ≡ data_size + 1
      → buf_unix_getc debug data_size (buf_at b p fd, reads)
        ≡ ok (from_char x, (buf_at b (p + 1) fd, reads))
  unfolding buf_unix_getc buf_unix_empty buf_unix_next
  getc-here x cs reads c e = rw (buf_unix_ok-Gives c e, load-next c, not_nil c)

  module _ (stored : Block) (c : Cursor b p []) (e : length b ≡ data_size + 1) where
    getc-fill :
        (x : ℕ) (cs : List ℕ) (reads : List Read)
        → store (blit (x ∷ cs) b) (length (x ∷ cs)) 0 ≡ ok stored
        → Cursor stored 0 (x ∷ cs)
        → buf_unix_getc debug data_size (buf_at b p fd, got (x ∷ cs) ∷ reads)
          ≡ ok (from_char x, (buf_at stored 1 fd, reads))
    unfolding buf_unix_getc buf_unix_empty buf_unix_fill buf_unix_next
    getc-fill x cs reads w c' =
        rw (buf_unix_ok-Gives c e, load-end c, w, load-next c', not_nil c') (rw (load-next c'))

    getc-eof :
        store b 0 0 ≡ ok stored
        → Cursor stored 0 []
        → buf_unix_getc debug data_size (buf_at b p fd, []) ≡ ok (buf_eof, (buf_at stored 0 fd, []))
    unfolding buf_unix_getc buf_unix_empty buf_unix_fill
    getc-eof w c' = rw (buf_unix_ok-Gives c e, load-end c, w, load-end c')

module _ (debug : Bool) (data_size : ℕ) where
  pub getc-nil :
      {s : State}
      → Gives data_size s []
      → (s' : State) × (buf_unix_getc debug data_size s ≡ ok (buf_eof, s')) × Gives data_size s' []
  getc-nil (gives b p fd [] [] c e all h) =
      let (post, w, len) = fill-Cursor b [] (omega arith) in
      let c' = Cursor-start [] post tt in
      (
        _,
        getc-eof debug data_size b p fd (0 ∷ post) c e w c',
        gives _ 0 fd [] [] c' (len ∙ e) tt refl,
      )
  getc-nil (gives b p fd [] (got [] ∷ reads) c e all h) = absurd (omega arith)
  getc-nil (gives b p fd [] (got (y ∷ chunk) ∷ reads) c e all h) = cc
  getc-nil (gives b p fd [] (failed ∷ reads) c e all h) = absurd all
  getc-nil (gives b p fd (y ∷ cs) reads c e all h) = cc

  pub getc-cons :
      {s : State} {x : ℕ} {cs : List ℕ}
      → Gives data_size s (x ∷ cs)
      → (s' : State) × (buf_unix_getc debug data_size s ≡ ok (from_char x, s'))
        × Gives data_size s' cs
  getc-cons (gives b p fd [] [] c e all h) = cc
  getc-cons (gives b p fd [] (got [] ∷ reads) c e all h) = absurd (omega arith)
  getc-cons {x} {cs} (gives b p fd [] (got (y ∷ chunk) ∷ reads) c e all h) =
      let (post, w, len) = fill-Cursor b (y ∷ chunk) (omega arith) in
      let c' = Cursor-start (y ∷ chunk) post all.2 in
      let same : y ≡ x = cc in
      let s' : State = (buf_at (y ∷ (chunk ++ 0 ∷ post)) 1 fd, reads) in
      (
        s',
        getc-fill debug data_size b p fd _ c e y chunk reads w c'
            ∙ ap (λ z. ok (from_char z, s')) same,
        gives _ 1 fd chunk reads (Cursor-next c') (len ∙ e) all.3 cc,
      )
  getc-cons (gives b p fd [] (failed ∷ reads) c e all h) = absurd all
  getc-cons {x} {cs} (gives b p fd (y ∷ rest) reads c e all h) =
      let same : y ≡ x = cc in
      let s' : State = (buf_at b (p + 1) fd, reads) in
      (
        s',
        getc-here debug data_size b p fd y rest reads c e ∙ ap (λ z. ok (from_char z, s')) same,
        gives b (p + 1) fd rest reads (Cursor-next c) e all cc,
      )

  -- buf_unix_getc(), on a
  -- buf that still gives the bytes `cs`, returns the first of them, or BUF_EOF where there is none,
  -- and leaves one that gives those behind.
  pub buf_unix_getc-Gives :
      {s : State} (cs : List ℕ)
      → Gives data_size s cs
      → (s' : State) × (buf_unix_getc debug data_size s ≡ ok (first cs, s'))
        × Gives data_size s' (behind cs)
  buf_unix_getc-Gives [] g = getc-nil g
  buf_unix_getc-Gives (x ∷ cs) g = getc-cons g

  pub ready-Gives :
      (s : State) (cs : List ℕ)
      → Gives data_size s cs
      → (unix_buf debug data_size).has_getc s ≡ true
  ready-Gives _ cs (gives b p fd front reads c e all h) = refl

  -- buf_unix_getc() hands out the bytes that read() stores, and then BUF_EOF.
  abbrev pub unix_stream : IsStream (unix_buf debug data_size)
  unix_stream = record {
    Gives = Gives data_size;
    ready = ready-Gives;
    at_end = λ s g. buf_unix_getc-Gives [] g;
    next = λ s x cs g. buf_unix_getc-Gives (x ∷ cs) g;
  }

  -- For a file descriptor that is not negative, on which no read() fails, stores more than it was
  -- asked for, stores a nil, or nothing before the end, buf_unix_init() succeeds and the buf gives
  -- what the calls of read() store, one after the other.
  pub buf_unix_init-Gives :
      (fd : ℕ) (reads : List Read)
      → AllRead data_size reads
      → (b : BufUnix) × (buf_unix_init debug data_size (pos fd) ≡ ok b)
        × Gives data_size (b, reads) (text reads)
  unfolding buf_unix_init
  buf_unix_init-Gives fd reads all = (
    _,
    rw (dbug-false debug),
    gives _ 0 fd [] reads (Cursor-zeros data_size) (length-replicate (data_size + 1) 0) all refl,
  )
