-- ===== src/Tests/Rings.antt =====
-- A ring of four places.
use mepl.Prelude.{ℕ, zero, suc, ◌<◌, get_elem?, ◌≡◌, refl, some, [], ◌∷◌, arith, ok}
use mepl.Slab.Ring.{Ring, ring_wr_back, ring_rd_front}
use mepl.Slab.Ring.Place.{place}
use mepl.Slab.Ring.Queue.{IsQueue, ring_wr_back-IsQueue, ring_rd_front-IsQueue}

-- 7, then 8, round the end of the memory
abbrev wrapped : Ring ℕ
wrapped = record { r_wr = 1; r_rd = 3; r_len = 2; r_size = 4; r_buf = some (8 ∷ 0 ∷ 0 ∷ 7 ∷ []) }

wrapped-IsQueue : IsQueue 2 wrapped (7 ∷ 8 ∷ [])
wrapped-IsQueue = record {
  buf = 8 ∷ 0 ∷ 0 ∷ 7 ∷ [];
  here = refl;
  total = refl;
  power = refl;
  bound = omega arith;
  start = omega arith;
  len = refl;
  fits = omega arith;
  stop = refl;
  at = held;
}
  where
    held :
        (i : ℕ)
        → i < 2
        → get_elem? {A = ℕ} (8 ∷ 0 ∷ 0 ∷ 7 ∷ []) (place 4 3 i) ≡ get_elem? (7 ∷ 8 ∷ []) i
    held zero h = refl
    held (suc zero) h = refl
    held (suc (suc i)) h = absurd (omega arith)

ring_wr_back-IsQueue_example :
    (r : Ring ℕ) × (ring_wr_back wrapped 9 ≡ ok r) × IsQueue 2 r (7 ∷ 8 ∷ 9 ∷ [])
ring_wr_back-IsQueue_example = ring_wr_back-IsQueue 2 9 wrapped-IsQueue (omega arith)

ring_rd_front-IsQueue_example :
    (r : Ring ℕ) × (ring_rd_front wrapped ≡ ok (7, r)) × IsQueue 2 r (8 ∷ [])
ring_rd_front-IsQueue_example = ring_rd_front-IsQueue 2 wrapped-IsQueue
