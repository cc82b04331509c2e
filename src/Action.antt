-- ===== src/Action.antt =====
-- Code that reads and changes a state and may throw: the state comes back after an exception too,
-- since what was written stays written.
use trustflow.Base.{◌≡◌, refl, String, Bool, List}
use trustflow.Error.{Result, ok, throw, undefined, Exception, Arg}
use trustflow.Error

abbrev pub Action : Type 0 → Type 0 → Type 0
Action S A = S → Result A × S

module _ {S : Type 0} where
  abbrev pub pure : {A : Type 0} → A → Action S A
  pure a s = (ok a, s)

  -- A function that leaves the state alone.
  abbrev pub lift : {A : Type 0} → Result A → Action S A
  lift r s = (r, s)

  -- A call of an outside service, which always answers.
  abbrev pub call : {A : Type 0} → (S → A × S) → Action S A
  call f s = let (a, s) = f s in (ok a, s)

  abbrev pub after : {A B : Type 0} → Result A × S → (A → Action S B) → Result B × S
  after (ok a, s) next = next a s
  after (throw x, s) next = (throw x, s)
  after (undefined, s) next = (undefined, s)

  abbrev pub enforce : Bool → String → List Arg → Action S (Unit {0})
  enforce b template arguments = lift (Error.enforce b template arguments)

  abbrev pub yacl_throw : {A : Type 0} → String → List Arg → Action S A
  yacl_throw template arguments = lift (Error.yacl_throw template arguments)

  -- A run that neither throws nor is undefined has a value and a state to go on from.
  pub with_run :
      {A C : Type 0} (r : Result A × S)
      → ((x : Exception) (s : S) → r ≡ (throw x, s) → ⊥)
      → ((s : S) → r ≡ (undefined, s) → ⊥)
      → ((a : A) (s : S) → r ≡ (ok a, s) → C)
      → C
  with_run (ok a, s) f g c = c a s refl
  with_run (throw x, s) f g c = absurd (f x s refl)
  with_run (undefined, s) f g c = absurd (g s refl)

infixl 5 ◌>>=◌ ◌>>◌
abbrev pub ◌>>=◌ : {S A B : Type 0} → Action S A → (A → Action S B) → Action S B
◌>>=◌ m next s = after (m s) next

abbrev pub ◌>>◌ : {S B : Type 0} → Action S (Unit {0}) → Action S B → Action S B
m >> next = m >>= λ _. next
