-- ===== src/Common/Lists.antt =====
-- Lists measured and searched by native numbers and Boolean tests.
use Prim.Native.Nat.{ℕ, zero, suc, ◌+◌}
use mathlib.Core.Path.{◌≡◌, refl}
use mathlib.Core.Logic.{◌≢◌, ◌⊎◌, inl, inr}
use mathlib.Core.Bool.{Bool, true, false, not, ◌&&◌, ◌||◌}
use mathlib.Core.Option.{Option, none, some}
use mathlib.Core.List.{List, [], ◌∷◌, ◌++◌}
use native.Mathlib.Omega.{arith}
use checkspan.Common.Tests.{if◌then◌else◌}
use checkspan.Common.Equality.{Eq, ◌==◌}

module _ {ℓ} {A : Type ℓ} where
  abbrev pub length : List A → ℕ
  length [] = 0
  length (x ∷ xs) = suc (length xs)

  abbrev pub get_elem? : List A → ℕ → Option A
  get_elem? [] i = none
  get_elem? (x ∷ xs) zero = some x
  get_elem? (x ∷ xs) (suc i) = get_elem? xs i

  abbrev pub is_empty : List A → Bool
  is_empty [] = true
  is_empty (x ∷ xs) = false

  -- `iter().find(p)`
  unfoldable pub find : (A → Bool) → List A → Option A
  find p [] = none
  find p (x ∷ xs) = if p x then some x else find p xs

  -- `iter().filter(p)`
  unfoldable pub keep : (A → Bool) → List A → List A
  keep p [] = []
  keep p (x ∷ xs) = if p x then x ∷ keep p xs else keep p xs

  pub keep-append :
      (q : A → Bool) (xs : List A) (x : A)
      → q x ≡ true
      → keep q (xs ++ x ∷ []) ≡ keep q xs ++ x ∷ []
  unfolding keep
  keep-append q [] x h = ground arith
  keep-append q (y ∷ ys) x h = ground (arith, keep-append q ys x h)

  unfoldable pub any : (A → Bool) → List A → Bool
  any p [] = false
  any p (x ∷ xs) = p x || any p xs

  unfoldable pub all : (A → Bool) → List A → Bool
  all p [] = true
  all p (x ∷ xs) = p x && all p xs

  -- Every element has the property.
  abbrev pub All {κ} : (A → Type κ) → List A → Type κ
  All P [] = Unit
  All P (x ∷ xs) = P x × All P xs

  pub List-cases : (xs : List A) → (xs ≡ []) ⊎ ((x : A) × (rest : List A) × (xs ≡ x ∷ rest))
  List-cases [] = inl refl
  List-cases (x ∷ xs) = inr (x, xs, refl)

  pub length-append : (xs ys : List A) → length (xs ++ ys) ≡ length xs + length ys
  length-append [] ys = omega arith
  length-append (x ∷ xs) ys = omega (arith, length-append xs ys)

  -- `errors.push(e)` under a condition.
  abbrev pub when : Bool → A → List A
  when true a = a ∷ []
  when false a = []

  -- What is left where nothing was pushed.
  pub append_nil : (xs ys : List A) → xs ++ ys ≡ [] → (xs ≡ []) × (ys ≡ [])
  append_nil [] ys h = (refl, h)
  append_nil (x ∷ xs) ys h = cc

  pub when_nil : (b : Bool) (a : A) → when b a ≡ [] → b ≡ false
  when_nil true a h = cc
  when_nil false a h = refl

  pub unless_nil : (b : Bool) (a : A) → when (not b) a ≡ [] → b ≡ true
  unless_nil true a h = refl
  unless_nil false a h = cc

  pub is_empty-false : (xs : List A) → xs ≢ [] → is_empty xs ≡ false
  is_empty-false [] h = absurd (h refl)
  is_empty-false (x ∷ xs) h = refl

  pub is_empty_filled : (xs : List A) → is_empty xs ≡ false → xs ≢ []
  is_empty_filled [] h e = cc
  is_empty_filled (x ∷ xs) h e = cc

module _ {ℓ} {A : Type ℓ} ⦃e : Eq A⦄ where
  unfoldable pub contains : List A → A → Bool
  contains [] a = false
  contains (x ∷ xs) a = (x == a) || contains xs a

  -- The elements for which `seen.insert(x)` is false, in order: each stood earlier, or in `seen`.
  unfoldable pub repeated_from : List A → List A → List A
  unfolding contains
  repeated_from seen [] = []
  repeated_from seen (x ∷ xs) =
      if contains seen x then x ∷ repeated_from seen xs else repeated_from (x ∷ seen) xs

  unfoldable pub repeated : List A → List A
  unfolding repeated_from
  repeated xs = repeated_from [] xs
