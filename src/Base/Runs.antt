-- ===== src/Base/Runs.antt =====
-- Runs that may stop: what a run returns, or why the program goes no further.
use mathlib.Core.Bool.{Bool, true, false}

-- `exit_failure` is `exit(EXIT_FAILURE)`, `assertion` a failed `assert`, `null_pointer` an access
-- through a null pointer, `out_of_range` an access outside a mapped array or an `at` that throws,
-- `undefined` any other undefined behaviour (`front` of an empty container, a function that ends
-- with no return), `spinning` a loop that waits for another thread, and `out_of_fuel` a bound of the
-- model that was too small.
pub data Stop : Type 0 where
  exit_failure assertion null_pointer out_of_range undefined spinning out_of_fuel : Stop

pub data Run {ℓ} (A : Type ℓ) : Type ℓ where
  ok : A → Run A
  stop : Stop → Run A

-- A test that has to hold for the run to go on.
abbrev pub require : Bool → Stop → Run (Unit {0})
require holds reason = elim holds [ true ↦ ok tt | false ↦ stop reason ]

infixl 5 ◌>>=◌
abbrev pub ◌>>=◌ {ℓ κ} : {A : Type ℓ} {B : Type κ} → Run A → (A → Run B) → Run B
stop reason >>= next = stop reason
ok result >>= next = next result

infixl 5 ◌>>◌
abbrev pub ◌>>◌ {ℓ} : {B : Type ℓ} → Run (Unit {0}) → Run B → Run B
first >> second = first >>= λ _. second
