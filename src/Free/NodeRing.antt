-- ===== src/Free/NodeRing.antt =====
-- ideas/free/ring.h: RING_DEF(LINKAGE, T, NAME, SIZE), with SIZE as the argument `size`, for pointers
-- to pools, which are the pools' indices.
use mepl.Prelude.{
  ℕ, ◌+◌, ◌-◌, ◌%◌, ◌^◌, Bool, List, ltb, ◌==◌, if◌then◌else◌, length, get_elem?, set, Outcome, ok,
  fault, ◌>>=◌,
}
use Prim.Native.Nat.{bit_and}
use mepl.Memory.{deref}

pub record NodeRing : Type 0 where
  pub r_wr : ℕ
  pub r_rd : ℕ
  pub r_len : ℕ
  pub r_buf : List ℕ

-- RING_INC()
unfoldable pub ring_inc : ℕ → ℕ → ℕ
ring_inc p size = bit_and ((p + 1) % 2 ^ 64) (size - 1)

unfoldable pub node_ring_init : NodeRing → NodeRing
node_ring_init r = record r { r_wr = 0; r_rd = 0; r_len = 0 }

unfoldable pub node_ring_full : ℕ → NodeRing → Bool
node_ring_full size r = r.r_len == size

unfoldable pub node_ring_empty : NodeRing → Bool
node_ring_empty r = r.r_len == 0

unfoldable pub node_ring_put : ℕ → NodeRing → ℕ → Outcome NodeRing
node_ring_put size r v =
    if ltb r.r_wr (length r.r_buf)
    then ok (record r { r_buf = set r.r_buf r.r_wr v; r_wr = ring_inc r.r_wr size })
    else fault

unfoldable pub node_ring_get : ℕ → NodeRing → Outcome (ℕ × NodeRing)
node_ring_get size r = do
  tmp ← deref (get_elem? r.r_buf r.r_rd)
  ok (tmp, record r { r_rd = ring_inc r.r_rd size; r_len = (r.r_len + (2 ^ 64 - 1)) % 2 ^ 64 })
