-- ===== src/Common/Sorting.antt =====
-- `ORDER BY` with a Boolean order, and the byte order of texts.
use Prim.Native.Nat.{suc}
use mathlib.Core.Path.{◌≡◌}
use mathlib.Core.Bool.{Bool, true, false, ◌||◌, ◌&&◌}
use mathlib.Core.List.{Memᴰ, List, [], ◌∷◌}
use mathlib.Core.Logic.{inl, inr}
use native.Mathlib.Omega.{arith}
use checkspan.Common.Tests.{ltb, nat_beq, Bool-cases}
use checkspan.Common.Lists.{length, any}
use checkspan.Common.Texts.{Text}

unfoldable pub text_ltb : Text → Text → Bool
text_ltb [] [] = false
text_ltb [] (b ∷ bs) = true
text_ltb (a ∷ rest) [] = false
text_ltb (a ∷ rest) (b ∷ bs) = ltb a b || (nat_beq a b && text_ltb rest bs)

module _ {ℓ} {A : Type ℓ} (before : A → A → Bool) where
  -- Puts an element before the first that it is not after, so that equal ones keep their order.
  unfoldable pub place : A → List A → List A
  place a [] = a ∷ []
  place a (x ∷ xs) =
      let rest = x ∷ place a xs in elim (before x a) [ true ↦ rest | false ↦ a ∷ x ∷ xs ]

  unfoldable pub sorted : List A → List A
  unfolding place
  sorted [] = []
  sorted (x ∷ xs) = place x (sorted xs)

  pub length-place : (a : A) (xs : List A) → length (place a xs) ≡ suc (length xs)
  unfolding place
  length-place a [] = omega arith
  length-place a (x ∷ xs) = ground (arith, length-place a xs)

  pub length-sorted : (xs : List A) → length (sorted xs) ≡ length xs
  unfolding sorted
  length-sorted [] = omega arith
  length-sorted (x ∷ xs) = ground (arith, length-place x (sorted xs), length-sorted xs)

  pub any-place : (p : A → Bool) (a : A) (xs : List A) → any p (place a xs) ≡ (p a || any p xs)
  unfolding place any
  any-place p a [] = ground arith
  any-place p a (x ∷ xs) = ground (arith, any-place p a xs)

  -- Ordering rows loses none and adds none.
  pub any-sorted : (p : A → Bool) (xs : List A) → any p (sorted xs) ≡ any p xs
  unfolding sorted any
  any-sorted p [] = ground arith
  any-sorted p (x ∷ xs) = ground (arith, any-place p x (sorted xs), any-sorted p xs)

  pub place-member : (a r : A) (xs : List A) → Memᴰ r (place a xs) → Memᴰ r (a ∷ xs)
  unfolding place
  place-member a r [] m = m
  place-member a r (x ∷ xs) m = elim (Bool-cases (before x a)) [
    | inr e ↦ rw (place, e) at m
    | inl e ↦ elim (rw (place, e) at m) [
      | Memᴰ.head same ↦ Memᴰ.tail (Memᴰ.head same)
      | Memᴰ.tail n ↦ elim (place-member a r xs n) [
        | Memᴰ.head same ↦ Memᴰ.head same
        | Memᴰ.tail k ↦ Memᴰ.tail (Memᴰ.tail k)
      ]
    ]
  ]

  pub sorted-member : (r : A) (xs : List A) → Memᴰ r (sorted xs) → Memᴰ r xs
  unfolding sorted
  sorted-member r [] m = m
  sorted-member r (x ∷ xs) m = elim (place-member x r (sorted xs) m) [
    | Memᴰ.head e ↦ Memᴰ.head e
    | Memᴰ.tail n ↦ Memᴰ.tail (sorted-member r xs n)
  ]
