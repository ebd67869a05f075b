-- ===== src/Slab.antt =====
-- ideas/slab_v2: the parts of a slab allocator. lib.h there defines DBUG, so ASSERT() is assert().
pub mod Mask
pub mod Ring
use mepl.Prelude.{ℕ, ◌-◌, Bool, true, false, ◌&&◌, ltb, ◌==◌, failed_check, Outcome, ok, exit}
use Prim.Native.Nat.{bit_and}

unfoldable pub is_power_of_2 : ℕ → Bool
is_power_of_2 n = ltb 0 n && (bit_and n (n - 1) == 0)

-- `ASSERT(cond)`
abbrev pub assert : Bool → Outcome (Unit {0})
assert true = ok tt
assert false = exit failed_check
