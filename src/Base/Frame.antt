-- ===== src/Base/Frame.antt =====
-- What an action leaves unchanged, also where it raises.
use Prim.Native.Nat.{ℕ, ◌+◌}
use native.Mathlib.Omega.{arith}
use mathlib.Core.Path.{◌≡◌, refl, ◌∙◌}
use network_backend_article.Base.Result.{Action, Result, ok, err, ◌>>=◌, ◌>>◌}

-- The view `v` of the state is the same after the action.
unfoldable pub Keeps : {S A X : Type 0} → (S → X) → Action S A → Type 0
Keeps {S} v f = (s : S) → v (f s).1 ≡ v s

module _ {S A B X : Type 0} (v : S → X) where
  after :
      (k : A → Action S B) (s : S) (r : Result A × S)
      → v r.1 ≡ v s
      → ((a : A) → Keeps v (k a))
      → v (elim r.0 as (λ _. Result B × S) [ ok a ↦ k a r.1 | err e ↦ (err e, r.1) ]).1 ≡ v s
  unfolding Keeps
  after k s (ok a, s') first then = then a s' ∙ first
  after k s (err e, s') first then = first

  pub bind-Keeps :
      (f : Action S A) (k : A → Action S B)
      → Keeps v f
      → ((a : A) → Keeps v (k a))
      → Keeps v (f >>= k)
  unfolding Keeps
  bind-Keeps f k first then s = after k s (f s) (first s) then

  pub then-Keeps : (f : Action S A) (g : Action S B) → Keeps v f → Keeps v g → Keeps v (f >> g)
  then-Keeps f g first second = bind-Keeps f (λ _. g) first (λ _. second)

-- What an action that does not raise adds to the count `v`.
unfoldable pub Adds : {S A : Type 0} → (S → ℕ) → ℕ → Action S A → Type 0
Adds {S} {A} v n f = (s : S) (a : A) → (f s).0 ≡ ok a → v (f s).1 ≡ v s + n

module _ {S A B : Type 0} (v : S → ℕ) where
  after-Adds :
      (n k : ℕ) (f : A → Action S B) (s : S) (r : Result A × S)
      → ((a : A) → r.0 ≡ ok a → v r.1 ≡ v s + n)
      → ((a : A) → Adds v k (f a))
      → (b : B)
      → (elim r.0 as (λ _. Result B × S) [ ok a ↦ f a r.1 | err e ↦ (err e, r.1) ]).0 ≡ ok b
      → v (elim r.0 as (λ _. Result B × S) [ ok a ↦ f a r.1 | err e ↦ (err e, r.1) ]).1
        ≡ v s + (n + k)
  unfolding Adds
  after-Adds n k f s (ok a, s') first then b e =
      let left = first a refl in let right = then a s' b e in omega arith
  after-Adds n k f s (err x, s') first then b e = ground arith

  pub bind-Adds :
      (n k : ℕ) (f : Action S A) (g : A → Action S B)
      → Adds v n f
      → ((a : A) → Adds v k (g a))
      → Adds v (n + k) (f >>= g)
  unfolding Adds
  bind-Adds n k f g first then s = after-Adds n k g s (f s) (first s) then

  pub then-Adds :
      (n k : ℕ) (f : Action S A) (g : Action S B)
      → Adds v n f
      → Adds v k g
      → Adds v (n + k) (f >> g)
  then-Adds n k f g first second = bind-Adds n k f (λ _. g) first (λ _. second)
