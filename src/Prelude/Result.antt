-- ===== src/Prelude/Result.antt =====
-- C++ exceptions as values. The text of an exception is a list of bytes.
use mathlib.Core.Path.{◌≡◌, refl}
use mathlib.Core.Bool.{Bool, true, false}
use log_generator.Prelude.Text.{Bytes}

pub data Exception : Type 0 where
  invalid_argument : Bytes → Exception
  overflow_error : Bytes → Exception
  runtime_error : Bytes → Exception
  out_of_range : Bytes → Exception

-- `error.what()`.
abbrev pub what : Exception → Bytes
what (invalid_argument m) = m
what (overflow_error m) = m
what (runtime_error m) = m
what (out_of_range m) = m

pub data Result {ℓ} (A : Type ℓ) : Type ℓ where
  throws : Exception → Result A
  ok : A → Result A

module _ {ℓ κ} {A : Type ℓ} {B : Type κ} where
  infixl 5 ◌>>=◌
  abbrev pub ◌>>=◌ : Result A → (A → Result B) → Result B
  throws e >>= _ = throws e
  ok a >>= next = next a

  pub >>=-eq-ok :
      (r : Result A) (next : A → Result B) {b : B}
      → (r >>= next) ≡ ok b
      → (a : A) × (r ≡ ok a) × (next a ≡ ok b)
  >>=-eq-ok (throws e) next h = cc
  >>=-eq-ok (ok a) next h = (a, refl, h)

-- Statements, one after the other.
infixl 5 ◌>>◌
abbrev pub ◌>>◌ {ℓ} : {B : Type ℓ} → Result (Unit {0}) → Result B → Result B
first >> second = first >>= λ _. second

-- `if (bad) throw e;`
abbrev pub throw_if : Bool → Exception → Result (Unit {0})
throw_if false e = ok tt
throw_if true e = throws e

pub throw_if-eq-ok : (b : Bool) (e : Exception) → throw_if b e ≡ ok tt → b ≡ false
throw_if-eq-ok false e h = refl
throw_if-eq-ok true e h = cc

pub ok-injective {ℓ} : {A : Type ℓ} {x y : A} → ok x ≡ ok y → x ≡ y
ok-injective h = cc
