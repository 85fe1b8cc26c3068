-- ===== src/Base/Outcome.antt =====
-- How a piece of kernel code ends.
use mathlib.Core.Bool.{Bool, true, false}
use mathlib.Core.Option.{Option, none, some}

-- `panic` is a call of the panic handler (a failed `assert!`, `unwrap`, `expect` or index), `hang`
-- waits for ever on a lock that is not given back, and `out_of_fuel` is a loop that is still
-- running when the model's fuel is used up.
pub data Exec {ℓ} (A : Type ℓ) : Type ℓ where
  ok : A → Exec A
  panic : Exec A
  hang : Exec A
  out_of_fuel : Exec A

infixl 5 ◌>>=◌ ◌>>◌
abbrev pub ◌>>=◌ {ℓ κ} : {A : Type ℓ} {B : Type κ} → Exec A → (A → Exec B) → Exec B
ok a >>= f = f a
panic >>= f = panic
hang >>= f = hang
out_of_fuel >>= f = out_of_fuel

abbrev pub ◌>>◌ {ℓ} : {B : Type ℓ} → Exec (Unit {0}) → Exec B → Exec B
m >> k = m >>= λ _. k

-- `assert!`
abbrev pub assert : Bool → Exec (Unit {0})
assert true = ok tt
assert false = panic

-- `unwrap`, `expect`, and indexing through `get_elem?`
abbrev pub expect {ℓ} : {A : Type ℓ} → Option A → Exec A
expect none = panic
expect (some a) = ok a
