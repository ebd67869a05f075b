-- ===== src/Slab/Ring.antt =====
-- ideas/slab_v2/ring.h: a ring buffer, for the elements of any type. The memory that ALLOC() gives
-- is a parameter of init; freed memory is not modelled.
pub mod Place
pub mod Queue
use mepl.Prelude.{
  ℕ, ◌+◌, ◌-◌, ◌%◌, ◌^◌, Bool, not, Option, none, some, List, ltb, leb, ◌==◌, if◌then◌else◌, length,
  get_elem?, set, Outcome, ok, fault, ◌>>=◌, ◌>>◌,
}
use Prim.Native.Nat.{bit_and}
use mepl.Memory.{deref, is_null}
use mepl.Slab.{is_power_of_2, assert}

pub record Ring (A : Type 0) : Type 0 where
  pub r_wr : ℕ
  pub r_rd : ℕ
  pub r_len : ℕ
  pub r_size : ℕ
  pub r_buf : Option (List A)

unfoldable pub wrap_inc : ℕ → ℕ → ℕ
wrap_inc p size = bit_and ((p + 1) % 2 ^ 64) (size - 1)

-- `p - 1` wraps.
unfoldable pub wrap_dec : ℕ → ℕ → ℕ
wrap_dec p size = bit_and ((p + (2 ^ 64 - 1)) % 2 ^ 64) (size - 1)

module _ {A : Type 0} where
  -- ring_base_check()
  unfoldable pub base_check : Ring A → Outcome (Unit {0})
  base_check r = do
    assert (not (is_null r.r_buf))
    assert (ltb r.r_rd r.r_size)
    assert (ltb r.r_wr r.r_size)
    assert (leb r.r_len r.r_size)
    assert (is_power_of_2 r.r_size)

  -- `mem` is the new memory.
  unfoldable pub ring_init : List A → ℕ → Outcome (Ring A)
  ring_init mem size = do
    assert (is_power_of_2 size)
    ok (record { r_wr = 0; r_rd = 0; r_len = 0; r_size = size; r_buf = some mem })

  unfoldable pub ring_free : Ring A → Outcome (Ring A)
  ring_free r = do base_check r; ok (record r { r_buf = none })

  unfoldable pub ring_full : Ring A → Outcome Bool
  ring_full r = do base_check r; ok (r.r_len == r.r_size)

  unfoldable pub ring_empty : Ring A → Outcome Bool
  ring_empty r = do base_check r; ok (r.r_len == 0)

  unfoldable pub ring_wr_back : Ring A → A → Outcome (Ring A)
  ring_wr_back r v = do
    base_check r
    buf ← deref r.r_buf
    if ltb r.r_wr (length buf)
        then ok (record r {
          r_buf = some (set buf r.r_wr v);
          r_wr = wrap_inc r.r_wr r.r_size;
          r_len = (r.r_len + 1) % 2 ^ 64;
        })
        else fault

  unfoldable pub ring_rd_back : Ring A → Outcome (A × Ring A)
  ring_rd_back r = do
    base_check r
    buf ← deref r.r_buf
    let wr = wrap_dec r.r_wr r.r_size
    v ← deref (get_elem? buf wr)
    ok (v, record r { r_wr = wr; r_len = (r.r_len + (2 ^ 64 - 1)) % 2 ^ 64 })

  unfoldable pub ring_rd_front : Ring A → Outcome (A × Ring A)
  ring_rd_front r = do
    base_check r
    buf ← deref r.r_buf
    v ← deref (get_elem? buf r.r_rd)
    ok (v, record r { r_rd = wrap_inc r.r_rd r.r_size; r_len = (r.r_len + (2 ^ 64 - 1)) % 2 ^ 64 })
