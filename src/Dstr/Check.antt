-- ===== src/Dstr/Check.antt =====
-- The tests of a DBUG build pass on every valid string, so both builds do the same on it.
use mepl.Prelude.{ℕ, ◌≡◌, refl, Bool, true, false, List, arith, ok}
use mepl.Memory.Blocks.{load-append}
use mepl.Dstr.{Dstr, zeroed, dstr_init, dstr_ok, dstr_free, dstr_clear, cur}
use mepl.Dstr.Content.{Holds, in_short, in_heap}

pub dstr_ok-Holds : (debug : Bool) {d : Dstr} {xs : List ℕ} → Holds d xs → dstr_ok debug d ≡ ok tt
unfolding dstr_ok cur
dstr_ok-Holds false h = refl
dstr_ok-Holds true (in_short xs post n e) = rw (load-append xs post 0) (ground arith)
dstr_ok-Holds true (in_heap xs post short room n e l c) = rw (load-append xs post 0) (ground arith)

-- On a string that holds any bytes, dstr_clear() passes the tests of a DBUG build and makes the
-- string that dstr_init() makes.
pub dstr_clear-Holds :
    (debug : Bool) {d : Dstr} {xs : List ℕ} → Holds d xs → dstr_clear debug d ≡ ok dstr_init
unfolding dstr_clear
dstr_clear-Holds debug h = rw (dstr_ok-Holds debug h)

-- On a string that holds any bytes, dstr_free() passes the tests of a DBUG build and zeroes it.
pub dstr_free-Holds :
    (debug : Bool) {d : Dstr} {xs : List ℕ} → Holds d xs → dstr_free debug d ≡ ok zeroed
unfolding dstr_free
dstr_free-Holds debug h = rw (dstr_ok-Holds debug h)
