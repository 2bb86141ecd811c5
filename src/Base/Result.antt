-- ===== src/Base/Result.antt =====
-- Exceptions as values, and methods that mutate a state and may raise.
use mathlib.Core.Path.{◌≡◌, refl}
use mathlib.Core.Bool.{Bool}
use network_backend_article.Base.Tests.{if◌then◌else◌}

-- The exception classes that the modelled code raises or lets through.
pub data Error : Type 0 where
  conflict value_error type_error overflow_error attribute_error key_error index_error : Error
  integrity_error zero_division protocol_error struct_error bad_request gone driver_error : Error

pub data Result {ℓ} (A : Type ℓ) : Type ℓ where
  ok : A → Result A
  err : Error → Result A

abbrev pub Action {ℓ} : Type ℓ → Type ℓ → Type ℓ
Action S A = S → Result A × S

module _ {ℓ} {S A : Type ℓ} where
  abbrev pub pure : A → Action S A
  pure a s = (ok a, s)

  -- What was written before the raise stays written.
  abbrev pub raise : Error → Action S A
  raise e s = (err e, s)

  abbrev pub gets : (S → A) → Action S A
  gets f s = (ok (f s), s)

  abbrev pub lift : Result A → Action S A
  lift r s = (r, s)

infixl 10 ◌>>=◌ ◌>>◌
abbrev pub ◌>>=◌ {ℓ} : {S A B : Type ℓ} → Action S A → (A → Action S B) → Action S B
◌>>=◌ m f s = let (r, s') = m s in elim r [ ok a ↦ f a s' | err e ↦ (err e, s') ]

abbrev pub ◌>>◌ {ℓ} : {S A B : Type ℓ} → Action S A → Action S B → Action S B
m >> k = m >>= λ _. k

module _ {S : Type 0} where
  abbrev pub raise_if : Bool → Error → Action S (Unit {0})
  raise_if c e s = (if c then err e else ok tt, s)

  abbrev pub modify : (S → S) → Action S (Unit {0})
  modify f s = (ok tt, f s)

-- A rule for a block that begins with a check: the check changes nothing, what follows it does
-- well on its result, and so does every exception.
module _ {S A B : Type 0} (Q : Result B × S → Type 0) (f : A → Action S B) where
  after_check :
      (s : S) (r : Result A × S)
      → r.1 ≡ s
      → ((a : A) → r.0 ≡ ok a → Q (f a s))
      → ((e : Error) → Q (err e, s))
      → Q (elim r.0 [ ok a ↦ f a r.1 | err e ↦ (err e, r.1) ])
  after_check s (ok a, s') same good bad = rw same (good a refl)
  after_check s (err e, s') same good bad = rw same (bad e)

  pub bind_check :
      (x : Action S A) (s : S)
      → (x s).1 ≡ s
      → ((a : A) → (x s).0 ≡ ok a → Q (f a s))
      → ((e : Error) → Q (err e, s))
      → Q ((x >>= f) s)
  bind_check x s = after_check s (x s)
