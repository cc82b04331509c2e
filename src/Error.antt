-- ===== src/Error.antt =====
-- Exceptions and results: what the C++ functions return, throw or leave undefined.
use trustflow.Base.{ℕ, String, Str, Bool, true, false, List, ◌≡◌, refl}

-- An argument of a `fmt` template.
pub data Arg : Type 0 where
  text : Str → Arg
  number : ℕ → Arg

-- The text of an error: the template of the source and its arguments.
pub record Message : Type 0 where
  pub template : String
  pub arguments : List Arg

-- The classes of exceptions that the handlers tell apart.
-- `YACL_ENFORCE` and `YACL_THROW` raise a `yacl::Exception` that is none of the first two.
pub data Exception : Type 0 where
  argument_error : Message → Exception
  invalid_format : Message → Exception
  yacl_exception : Message → Exception
  std_exception : Message → Exception

-- `undefined` stands for undefined behaviour, such as a read out of bounds.
pub data Result {ℓ} (A : Type ℓ) : Type ℓ where
  ok : A → Result A
  throw : Exception → Result A
  undefined : Result A

-- What follows runs on the value; an exception, or undefined behaviour, skips it.
infixl 5 ◌>>=◌ ◌>>◌
abbrev pub ◌>>=◌ {ℓ κ} : {V : Type ℓ} {W : Type κ} → Result V → (V → Result W) → Result W
undefined >>= next = undefined
throw x >>= next = throw x
ok v >>= next = next v

-- A statement without a value.
abbrev pub ◌>>◌ {κ} : {W : Type κ} → Result (Unit {0}) → Result W → Result W
statement >> next = statement >>= λ _. next

abbrev pub error : String → List Arg → Exception
error template arguments = yacl_exception (record { template = template; arguments = arguments })

-- `YACL_ENFORCE(c, template, arguments...)`
abbrev pub enforce : Bool → String → List Arg → Result (Unit {0})
enforce true template arguments = ok tt
enforce false template arguments = throw (error template arguments)

-- `YACL_THROW(template, arguments...)`
abbrev pub yacl_throw {ℓ} : {A : Type ℓ} → String → List Arg → Result A
yacl_throw template arguments = throw (error template arguments)

-- A result that neither throws nor is undefined has a value, which the last argument goes on from.
pub with_value {ℓ κ} :
    {A : Type ℓ} {C : Type κ} (r : Result A)
    → ((x : Exception) → r ≡ throw x → ⊥)
    → (r ≡ undefined → ⊥)
    → ((a : A) → r ≡ ok a → C)
    → C
with_value (ok a) f g c = c a refl
with_value (throw x) f g c = absurd (f x refl)
with_value undefined f g c = absurd (g refl)
