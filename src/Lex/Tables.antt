-- ===== src/Lex/Tables.antt =====
-- CHAR_FN, SINGLE and KWORDS, entry by entry.
use mepl.Prelude.{
  ℕ, zero, suc, ◌<◌, ◌≡◌, refl, Bool, true, false, ◌&&◌, arith, ◌==◌, if◌then◌else◌, Outcome, ok,
  exit, fault, spin,
}
use mepl.Memory.{pos}
use mepl.Lex.{
  CharFn, err_fn, id_fn, str_fn, single_fn, char_fns, ascii_fns, high_fns, char_fn, single_type,
  singles, tt_assign,
}
use mepl.Lex.Scan.{is_lower}

-- The function for an ASCII character.
unfoldable pub fn_for : ℕ → CharFn
fn_for x =
    if x == b'"'
    then str_fn
    else if x == b'='
    then single_fn
    else if is_lower x
    then id_fn
    else err_fn

same_fn : CharFn → CharFn → Bool
same_fn err_fn err_fn = true
same_fn id_fn id_fn = true
same_fn str_fn str_fn = true
same_fn single_fn single_fn = true
same_fn _ _ = false

is_fn : Outcome CharFn → CharFn → Bool
is_fn (ok f) g = same_fn f g
is_fn (exit e) g = false
is_fn fault g = false
is_fn spin g = false

is_fn_sound : (o : Outcome CharFn) (g : CharFn) → is_fn o g ≡ true → o ≡ ok g
unfolding is_fn same_fn
is_fn_sound (ok f) g h = ground arith
is_fn_sound (exit e) g h = cc
is_fn_sound fault g h = cc
is_fn_sound spin g h = cc

-- Whether a test passes for each number under a bound.
passes : (ℕ → Bool) → ℕ → Bool
passes test zero = true
passes test (suc bound) = passes test bound && test bound

passes_at : (test : ℕ → Bool) (bound k : ℕ) → k < bound → passes test bound ≡ true → test k ≡ true
unfolding passes
passes_at test zero k under all = absurd (omega arith)
passes_at test (suc bound) k under all = ground (arith, passes_at test bound k)

table : passes (λ x. is_fn (char_fn (pos x)) (fn_for x)) 256 ≡ true
unfolding passes is_fn same_fn char_fn char_fns ascii_fns high_fns fn_for
table = refl

-- Each of the 256 entries of CHAR_FN: `str` for a quote, `single` for '=', `id` for the letters
-- from a to z, and `err` for all others.
pub char_fn_entry : (x : ℕ) → x < 256 → char_fn (pos x) ≡ ok (fn_for x)
char_fn_entry x h = is_fn_sound _ _ (passes_at _ 256 x h table)

pub single_type-assign : single_type (pos b'=') ≡ ok tt_assign
unfolding single_type singles
single_type-assign = refl
