-- ===== src/Prelude/Result.antt =====
-- `Result<T, E>` of the standard library.
use mathlib.Core.Bool.{Bool, true, false, not}
use mathlib.Core.Path.{◌≡◌, refl}
use native.Mathlib.Omega.{arith}
use postgrust_sql.Prelude.Tests.{if◌then◌else◌}

pub data Result {ℓ κ} (E : Type κ) (A : Type ℓ) : Type (ℓ ⊔ κ) where
  ok : A → Result E A
  err : E → Result E A

infixl 5 ◌>>=◌
-- `?`
abbrev pub ◌>>=◌ {ℓ κ μ} :
    {E : Type κ} {A : Type ℓ} {B : Type μ} → Result E A → (A → Result E B) → Result E B
ok a >>= f = f a
err e >>= f = err e

abbrev pub is_err {ℓ κ} : {E : Type κ} {A : Type ℓ} → Result E A → Bool
is_err (ok a) = false
is_err (err e) = true

module _ {ℓ κ} {A : Type ℓ} {E : Type κ} where
  -- a test whose success is known was passed
  pub passed :
      (b : Bool) (a a' : A) (e : E) → (if b then ok a else err e) ≡ ok a' → (b ≡ true) × (a ≡ a')
  passed true a a' e h = (refl, cc)
  passed false a a' e h = absurd (ground (arith, h))

  pub not_refused :
      (b : Bool) (a a' : A) (e : E)
      → (if not b then err e else ok a) ≡ ok a'
      → (b ≡ true) × (a ≡ a')
  not_refused true a a' e h = (refl, cc)
  not_refused false a a' e h = absurd (ground (arith, h))

  pub ok_inj : {a b : A} → ◌≡◌ {A = Result E A} (ok a) (ok b) → a ≡ b
  ok_inj h = cc

  -- a call and the rest that both succeed
  pub bind_ok {μ} :
      {B : Type μ} (o : Result E A) (f : A → Result E B) (b : B)
      → (o >>= f) ≡ ok b
      → (a : A) × (o ≡ ok a) × (f a ≡ ok b)
  bind_ok (ok a) f b h = (a, refl, h)
  bind_ok (err e) f b h = absurd (ground (arith, h))
