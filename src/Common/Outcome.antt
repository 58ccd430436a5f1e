-- ===== src/Common/Outcome.antt =====
-- Rust's `Result`, with its two types as parameters, and the chaining of `?`.
use mathlib.Core.Path.{◌≡◌, refl, subst}
use mathlib.Core.Bool.{Bool, true, false}
use mathlib.Core.Option.{Option, none, some}
use mathlib.Core.Logic.{◌⊎◌, inl, inr}
use checkspan.Common.Tests.{if◌then◌else◌}

pub data Result {ℓ κ} (A : Type ℓ) (E : Type κ) : Type (ℓ ⊔ κ) where
  ok : A → Result A E
  err : E → Result A E

module _ {ℓ κ μ} {A : Type ℓ} {B : Type μ} {E : Type κ} where
  infixl 5 ◌>>=◌ ◌>>◌
  abbrev pub ◌>>=◌ : Result A E → (A → Result B E) → Result B E
  ok a >>= f = f a
  err e >>= f = err e

  abbrev pub ◌>>◌ : Result A E → Result B E → Result B E
  m >> k = m >>= λ _. k

  -- Where a chain succeeds, its first step did, and the rest went on from what that returned.
  pub >>=_ok :
      (first : Result A E) (rest : A → Result B E) {last : B}
      → (first >>= rest) ≡ ok last
      → (mid : A) × (first ≡ ok mid) × (rest mid ≡ ok last)
  >>=_ok (err e) rest h = cc
  >>=_ok (ok mid) rest h = (mid, refl, h)

module _ {ℓ κ} {A : Type ℓ} {E : Type κ} where
  -- `ok_or_else`
  abbrev pub or_fail : Option A → E → Result A E
  or_fail none e = err e
  or_fail (some a) e = ok a

  abbrev pub map_err {μ} : {F : Type μ} → (E → F) → Result A E → Result A F
  map_err f (ok a) = ok a
  map_err f (err e) = err (f e)

  abbrev pub is_ok : Result A E → Bool
  is_ok (ok a) = true
  is_ok (err e) = false

  pub Result-cases : (r : Result A E) → ((a : A) × (r ≡ ok a)) ⊎ ((e : E) × (r ≡ err e))
  Result-cases (ok a) = inl (a, refl)
  Result-cases (err e) = inr (e, refl)

  pub or_fail_ok : (o : Option A) (e : E) (a : A) → or_fail o e ≡ ok a → o ≡ some a
  or_fail_ok none e a h = cc
  or_fail_ok (some b) e a h = cc

  pub map_err_ok {μ} :
      {F : Type μ} (f : E → F) (r : Result A E) (a : A) → map_err f r ≡ ok a → r ≡ ok a
  map_err_ok f (ok b) a h = cc
  map_err_ok f (err e) a h = cc

  pub ok-injective : {a b : A} → ◌≡◌ {A = Result A E} (ok a) (ok b) → a ≡ b
  ok-injective h = cc

-- Whatever a computation returns has the property.
abbrev pub Yields {ℓ κ μ} : {A : Type ℓ} {E : Type κ} → (A → Type μ) → Result A E → Type μ
Yields P (ok a) = P a
Yields P (err e) = Unit

module _ {ℓ κ μ} {A : Type ℓ} {E : Type κ} (P : A → Type μ) where
  pub Yields-if :
      (b : Bool) (x y : Result A E) → Yields P x → Yields P y → Yields P (if b then x else y)
  Yields-if true x y p q = p
  Yields-if false x y p q = q

  pub Yields->>= {ν} :
      {B : Type ν} (m : Result B E) (f : B → Result A E)
      → ((b : B) → Yields P (f b))
      → Yields P (m >>= f)
  Yields->>= (ok b) f p = p b
  Yields->>= (err e) f p = tt

  -- What is bound may rest on what it is bound to.
  pub Yields->>=_on {ν} :
      {B : Type ν} (m : Result B E) (f : B → Result A E)
      → ((b : B) → m ≡ ok b → Yields P (f b))
      → Yields P (m >>= f)
  Yields->>=_on (ok b) f p = p b refl
  Yields->>=_on (err e) f p = tt

  pub Yields_ok : {r : Result A E} {a : A} → Yields P r → r ≡ ok a → P a
  Yields_ok {r} {a} p h = subst (Yields P) h p
