-- ===== src/Slab/Ring/Queue.antt =====
-- A ring holds a queue.
use mepl.Prelude.{
  ℕ, suc, ◌+◌, ◌-◌, ◌%◌, ◌^◌, ◌≤◌, ◌<◌, ◌≡◌, refl, sym, ap, ◌∙◌, true, some, List, [], ◌∷◌, ◌++◌,
  arith, ltb, leb, ◌==◌, length, get_elem?, get_elem?-append_left, get_elem?-append_self, set,
  length-append, length-set, ok, subst,
}
use mepl.Slab.{is_power_of_2}
use mepl.Slab.Ring.Place.{
  place, power_bound, is_power_of_2-power, place_bound, wrap_inc-place, wrap_dec-place, place-step,
  place-front, place-back, set-at,
}
use mepl.Slab.Mask.{power_positive}
use mepl.Slab.Ring.{
  Ring, wrap_inc, wrap_dec, base_check, ring_init, ring_full, ring_empty, ring_wr_back,
  ring_rd_back, ring_rd_front,
}

-- The ring has 2 ^ k places, and from `r_rd` on they hold `xs`, up to `r_wr`.
pub record IsQueue {A : Type 0} (k : ℕ) (r : Ring A) (xs : List A) : Type 0 where
  pub buf : List A
  pub here : r.r_buf ≡ some buf
  pub total : length buf ≡ 2 ^ k
  pub power : r.r_size ≡ 2 ^ k
  pub bound : k < 64
  pub start : r.r_rd < 2 ^ k
  pub len : r.r_len ≡ length xs
  pub fits : length xs ≤ 2 ^ k
  pub stop : r.r_wr ≡ place (2 ^ k) r.r_rd (length xs)
  pub at : (i : ℕ) → i < length xs → get_elem? buf (place (2 ^ k) r.r_rd i) ≡ get_elem? xs i

module _ {A : Type 0} (k : ℕ) where
  base_check-IsQueue : {r : Ring A} {xs : List A} → IsQueue k r xs → base_check r ≡ ok tt
  unfolding base_check
  base_check-IsQueue {r} {xs} q =
      let p = q.here in
      let a : ltb r.r_rd r.r_size ≡ true = rw q.power (ground (arith, q.start)) in
      let b : ltb r.r_wr r.r_size ≡ true =
        rw (q.power, q.stop)
          (ground
            (arith, place_bound (2 ^ k) r.r_rd (length xs) q.start q.fits (power_positive k))) in
      let c : leb r.r_len r.r_size ≡ true = rw (q.power, q.len) (ground (arith, q.fits)) in
      let d : is_power_of_2 r.r_size ≡ true = rw q.power (is_power_of_2-power k) in
      rw (p, a, b, c, d)

  -- On a ring that holds the queue `xs`, ring_full() says whether `xs` fills its places, and
  -- ring_empty() whether there is nothing in it.
  pub ring_full-IsQueue :
      {r : Ring A} {xs : List A}
      → IsQueue k r xs
      → (ring_full r ≡ ok (length xs == 2 ^ k)) × (ring_empty r ≡ ok (length xs == 0))
  unfolding ring_full ring_empty
  ring_full-IsQueue q =
      (rw (base_check-IsQueue q, q.len, q.power), rw (base_check-IsQueue q, q.len))

module _ {A : Type 0} (k : ℕ) where
  ring_wr_back-of :
      (r : Ring A) (v : A) (buf : List A)
      → base_check r ≡ ok tt
      → r.r_buf ≡ some buf
      → r.r_wr < length buf
      → ring_wr_back r v
        ≡ ok (record r {
          r_buf = some (set buf r.r_wr v);
          r_wr = wrap_inc r.r_wr r.r_size;
          r_len = (r.r_len + 1) % 2 ^ 64;
        })
  unfolding ring_wr_back
  ring_wr_back-of r v buf c e h =
      let inside : ltb r.r_wr (length buf) ≡ true = ground arith in rw (c, e, inside)

  ring_rd_front-of :
      (r : Ring A) (v : A) (buf : List A)
      → base_check r ≡ ok tt
      → r.r_buf ≡ some buf
      → get_elem? buf r.r_rd ≡ some v
      → ring_rd_front r
        ≡ ok (
          v,
          record r { r_rd = wrap_inc r.r_rd r.r_size; r_len = (r.r_len + (2 ^ 64 - 1)) % 2 ^ 64 },
        )
  unfolding ring_rd_front
  ring_rd_front-of r v buf c e h = rw (c, e, h)

  ring_rd_back-of :
      (r : Ring A) (v : A) (buf : List A)
      → base_check r ≡ ok tt
      → r.r_buf ≡ some buf
      → get_elem? buf (wrap_dec r.r_wr r.r_size) ≡ some v
      → ring_rd_back r
        ≡ ok (
          v,
          record r { r_wr = wrap_dec r.r_wr r.r_size; r_len = (r.r_len + (2 ^ 64 - 1)) % 2 ^ 64 },
        )
  unfolding ring_rd_back
  ring_rd_back-of r v buf c e h = rw (c, e, h)

  -- For a size that is a power of 2 under 2 ^ 64, and memory for that many elements, ring_init()
  -- succeeds, and the ring holds the empty queue.
  pub ring_init-IsQueue :
      (mem : List A)
      → k < 64
      → length mem ≡ 2 ^ k
      → (r : Ring A) × (ring_init mem (2 ^ k) ≡ ok r) × IsQueue k r []
  unfolding ring_init
  ring_init-IsQueue mem h e =
      let power = is_power_of_2-power k in
      (
        record { r_wr = 0; r_rd = 0; r_len = 0; r_size = 2 ^ k; r_buf = some mem },
        rw power,
        record {
          buf = mem;
          here = refl;
          total = e;
          power = refl;
          bound = h;
          start = power_positive k;
          len = refl;
          fits = omega arith;
          stop = ground (arith, power_positive k);
          at = λ i l. absurd (omega arith);
        },
      )

  -- If a ring holds the queue `xs` and has a free place, ring_wr_back() of `v` succeeds, and the
  -- ring then holds `xs` with `v` behind.
  pub ring_wr_back-IsQueue :
      {r : Ring A} {xs : List A} (v : A)
      → IsQueue k r xs
      → length xs < 2 ^ k
      → (r' : Ring A) × (ring_wr_back r v ≡ ok r') × IsQueue k r' (xs ++ v ∷ [])
  ring_wr_back-IsQueue {r} {xs} v q room =
      let size = 2 ^ k in
      let n = length xs in
      let most = power_bound k 63 (omega (arith, q.bound)) in
      let longer = length-append xs (v ∷ []) in
      let inside = place_bound size r.r_rd n q.start q.fits (power_positive k) in
      let next = wrap_inc-place k q.bound r.r_wr (subst (λ w. w < size) (sym q.stop) inside) in
      (
        _,
        ring_wr_back-of r v q.buf (base_check-IsQueue k q) q.here
            (omega (arith, q.stop, q.total, inside)),
        record {
          buf = set q.buf r.r_wr v;
          here = refl;
          total = length-set q.buf r.r_wr v ∙ q.total;
          power = q.power;
          bound = q.bound;
          start = q.start;
          len = omega (arith, q.len);
          fits = omega arith;
          stop =
              ap (λ z. wrap_inc r.r_wr z) q.power
              ∙ next
              ∙ ap (λ w. place size w 1) q.stop
              ∙ place-step size r.r_rd n q.start room
              ∙ ap (place size r.r_rd) (sym longer);
          at = λ i h.
              set-at size r.r_rd q.buf xs v r.r_wr q.start room q.total q.stop q.at i
                (omega (arith, longer));
        },
      )

  -- If a ring holds a queue with `x` in front of `xs`, ring_rd_front() succeeds with `x`, and the ring
  -- then holds `xs`.
  pub ring_rd_front-IsQueue :
      {r : Ring A} {x : A} {xs : List A}
      → IsQueue k r (x ∷ xs)
      → (r' : Ring A) × (ring_rd_front r ≡ ok (x, r')) × IsQueue k r' xs
  ring_rd_front-IsQueue {r} {x} {xs} q =
      let size = 2 ^ k in
      let most = power_bound k 63 (omega (arith, q.bound)) in
      let whole = q.fits in
      let front : place size r.r_rd 0 ≡ r.r_rd = ground (arith, q.start) in
      let next = ap (λ z. wrap_inc r.r_rd z) q.power ∙ wrap_inc-place k q.bound r.r_rd q.start in
      let inside = place_bound size r.r_rd 1 q.start (omega arith) (power_positive k) in
      (
        _,
        ring_rd_front-of r x q.buf (base_check-IsQueue k q) q.here
            (ap (get_elem? q.buf) (sym front) ∙ q.at 0 (omega arith)),
        record {
          buf = q.buf;
          here = q.here;
          total = q.total;
          power = q.power;
          bound = q.bound;
          start = subst (λ w. w < size) (sym next) inside;
          len = omega (arith, q.len);
          fits = omega arith;
          stop =
              q.stop
              ∙ sym (place-front size r.r_rd (length xs) q.start (omega arith))
              ∙ ap (λ w. place size w (length xs)) (sym next);
          at = λ i h.
              ap (λ w. get_elem? q.buf (place size w i)) next
              ∙ ap (get_elem? q.buf) (place-front size r.r_rd i q.start (omega arith))
              ∙ q.at (suc i) (omega arith);
        },
      )

  -- If a ring holds the queue `xs` with `v` behind, ring_rd_back() succeeds with `v`, and the ring then
  -- holds `xs`.
  pub ring_rd_back-IsQueue :
      {r : Ring A} {xs : List A} {v : A}
      → IsQueue k r (xs ++ v ∷ [])
      → (r' : Ring A) × (ring_rd_back r ≡ ok (v, r')) × IsQueue k r' xs
  ring_rd_back-IsQueue {r} {xs} {v} q =
      let size = 2 ^ k in
      let n = length xs in
      let longer = length-append xs (v ∷ []) in
      let most = power_bound k 63 (omega (arith, q.bound)) in
      let whole = q.fits in
      let stop : r.r_wr ≡ place size r.r_rd (n + 1) = q.stop ∙ ap (place size r.r_rd) longer in
      let inside : r.r_wr < size =
        subst (λ w. w < size) (sym stop)
          (place_bound size r.r_rd (n + 1) q.start (omega arith) (power_positive k)) in
      let next : wrap_dec r.r_wr r.r_size ≡ place size r.r_rd n =
        ap (λ z. wrap_dec r.r_wr z) q.power
        ∙ wrap_dec-place k q.bound r.r_wr inside
        ∙ ap (λ w. place size w (size - 1)) stop
        ∙ place-back size r.r_rd n q.start (omega arith) in
      (
        _,
        ring_rd_back-of r v q.buf (base_check-IsQueue k q) q.here
            (ap (get_elem? q.buf) next ∙ q.at n (omega arith) ∙ get_elem?-append_self xs v),
        record {
          buf = q.buf;
          here = q.here;
          total = q.total;
          power = q.power;
          bound = q.bound;
          start = q.start;
          len = omega (arith, q.len);
          fits = omega arith;
          stop = next;
          at = λ i h. q.at i (omega arith) ∙ get_elem?-append_left xs (v ∷ []) i h;
        },
      )
