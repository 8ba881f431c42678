-- ===== src/Base/Outcome.antt =====
-- How a call ends: normally, with undefined behaviour of C (a null or freed pointer, a read out of
-- bounds), or with the model's fuel spent.
use mathlib.Core.Option.{Option, none, some}

pub data Fault : Type 0 where
  null_pointer use_after_free out_of_bounds : Fault

pub data Run {ℓ} (A : Type ℓ) : Type ℓ where
  ok : A → Run A
  fault : Fault → Run A
  out_of_fuel : Run A

infixl 5 ◌>>=◌
abbrev pub ◌>>=◌ {ℓ κ} : {A : Type ℓ} {B : Type κ} → Run A → (A → Run B) → Run B
ok a >>= f = f a
fault e >>= f = fault e
out_of_fuel >>= f = out_of_fuel

abbrev pub or_fault {ℓ} : {A : Type ℓ} → Option A → Fault → Run A
or_fault (some a) e = ok a
or_fault none e = fault e
