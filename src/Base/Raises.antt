-- ===== src/Base/Raises.antt =====
-- Pure code that may raise.
use mathlib.Core.Path.{◌≡◌, refl}
use mathlib.Core.Option.{Option, none, some}
use network_backend_article.Base.Result.{Result, ok, err, type_error, value_error}

infixl 10 ◌>>=◌
abbrev pub ◌>>=◌ {ℓ κ} : {A : Type ℓ} {B : Type κ} → Result A → (A → Result B) → Result B
ok a >>= f = f a
err e >>= f = err e

-- A successful bind has a successful first part.
pub bind-ok :
    {A B : Type 0} (r : Result A) (f : A → Result B) {b : B}
    → (r >>= f) ≡ ok b
    → (a : A) × (r ≡ ok a) × (f a ≡ ok b)
bind-ok (ok a) f h = (a, refl, h)
bind-ok (err e) f h = cc

-- `except (TypeError, ValueError)` around a value, with none for the handler's outcome.
abbrev pub catch_conversion {ℓ} : {A : Type ℓ} → Result A → Result (Option A)
catch_conversion (ok a) = ok (some a)
catch_conversion (err type_error) = ok none
catch_conversion (err value_error) = ok none
catch_conversion (err e) = err e
