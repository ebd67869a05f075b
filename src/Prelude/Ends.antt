-- ===== src/Prelude/Ends.antt =====
-- How a call of a C function ends, and sequencing. `exit` is a call of exit(EXIT_FAILURE) by
-- die(), usage() or a failed dbug() test of lib/include/lib.h; `fault` is an access outside of an
-- object or through NULL; `spin` means that the fuel of a loop ran out.

use mathlib.Core.Bool.{Bool, true, false}
use mathlib.Core.Path.{◌≡◌, refl, ap, ◌∙◌}

pub data Exit : Type 0 where
  died misused failed_check : Exit

pub data Outcome {ℓ} (A : Type ℓ) : Type ℓ where
  ok : A → Outcome A
  exit : Exit → Outcome A
  fault : Outcome A
  spin : Outcome A

infixl 5 ◌>>=◌ ◌>>◌
abbrev pub ◌>>=◌ {ℓ κ} : {A : Type ℓ} {B : Type κ} → Outcome A → (A → Outcome B) → Outcome B
ok a >>= f = f a
exit e >>= f = exit e
fault >>= f = fault
spin >>= f = spin

abbrev pub ◌>>◌ {ℓ} : {B : Type ℓ} → Outcome (Unit {0}) → Outcome B → Outcome B
m >> k = m >>= λ _. k

-- `dbug(cond, …)`: in a build with DBUG (`debug`) a condition that holds ends the process.
abbrev pub dbug : Bool → Bool → Outcome (Unit {0})
dbug true true = exit failed_check
dbug true false = ok tt
dbug false cond = ok tt

-- A call that succeeds, and what follows it.
pub after {ℓ κ} :
    {A : Type ℓ} {B : Type κ} (f : A → Outcome B) {m : Outcome A} {a : A} {r : Outcome B}
    → m ≡ ok a
    → f a ≡ r
    → (m >>= f) ≡ r
after f e h = ap (λ m. m >>= f) e ∙ h

pub dbug-false : (debug : Bool) → dbug debug false ≡ ok tt
dbug-false true = refl
dbug-false false = refl
