-- ===== src/Common/Equality.antt =====
-- Rust's derived `PartialEq`, as an interface: a test and the proof that it decides equality.
use Prim.Native.Nat.{ℕ}
use mathlib.Core.Path.{◌≡◌, refl, ap}
use mathlib.Core.Bool.{Bool, true, false, ◌&&◌}
use mathlib.Core.Option.{Option, none, some}
use mathlib.Core.List.{List, [], ◌∷◌}
use native.Mathlib.Omega.{arith}
use checkspan.Common.Tests.{nat_beq}

pub record Eq {ℓ} (A : Type ℓ) : Type ℓ where
  pub beq : A → A → Bool
  pub beq_sound : (a b : A) → beq a b ≡ true → a ≡ b
  pub beq_refl : (a : A) → beq a a ≡ true

infix 50 ◌==◌
abbrev pub ◌==◌ {ℓ} : {A : Type ℓ} ⦃e : Eq A⦄ → A → A → Bool
◌==◌ ⦃e⦄ = e.beq

pub nat_beq_sound : (a b : ℕ) → nat_beq a b ≡ true → a ≡ b
nat_beq_sound a b h = ground arith

pub nat_beq_refl : (a : ℕ) → nat_beq a a ≡ true
nat_beq_refl a = ground arith

instance abbrev pub nat_eq : Eq ℕ
nat_eq = record { beq = nat_beq; beq_sound = nat_beq_sound; beq_refl = nat_beq_refl }

-- An enumeration, compared by the place of its constructors.
module _ {ℓ} {A : Type ℓ} (rank : A → ℕ) (apart : (a b : A) → rank a ≡ rank b → a ≡ b) where
  pub rank_sound : (a b : A) → nat_beq (rank a) (rank b) ≡ true → a ≡ b
  rank_sound a b h = apart a b (nat_beq_sound (rank a) (rank b) h)

  abbrev pub rank_eq : Eq A
  rank_eq = record {
    beq = λ a b. nat_beq (rank a) (rank b);
    beq_sound = rank_sound;
    beq_refl = λ a. nat_beq_refl (rank a);
  }

module _ {ℓ} {A : Type ℓ} ⦃e : Eq A⦄ where
  unfoldable pub list_beq : List A → List A → Bool
  list_beq [] [] = true
  list_beq [] (y ∷ ys) = false
  list_beq (x ∷ xs) [] = false
  list_beq (x ∷ xs) (y ∷ ys) = e.beq x y && list_beq xs ys

  pub list_beq_sound : (xs ys : List A) → list_beq xs ys ≡ true → xs ≡ ys
  unfolding list_beq
  list_beq_sound [] [] h = refl
  list_beq_sound [] (y ∷ ys) h = cc
  list_beq_sound (x ∷ xs) [] h = cc
  list_beq_sound (x ∷ xs) (y ∷ ys) h = ground (arith, e.beq_sound x y, list_beq_sound xs ys)

  pub list_beq_refl : (xs : List A) → list_beq xs xs ≡ true
  unfolding list_beq
  list_beq_refl [] = refl
  list_beq_refl (x ∷ xs) = rw (e.beq_refl x) (list_beq_refl xs)

  instance abbrev pub list_eq : Eq (List A)
  list_eq = record { beq = list_beq; beq_sound = list_beq_sound; beq_refl = list_beq_refl }

  unfoldable pub option_beq : Option A → Option A → Bool
  option_beq none none = true
  option_beq none (some y) = false
  option_beq (some x) none = false
  option_beq (some x) (some y) = e.beq x y

  pub option_beq_sound : (x y : Option A) → option_beq x y ≡ true → x ≡ y
  unfolding option_beq
  option_beq_sound none none h = refl
  option_beq_sound none (some y) h = cc
  option_beq_sound (some x) none h = cc
  option_beq_sound (some x) (some y) h = ap some (e.beq_sound x y h)

  pub option_beq_refl : (x : Option A) → option_beq x x ≡ true
  unfolding option_beq
  option_beq_refl none = refl
  option_beq_refl (some x) = e.beq_refl x

  instance abbrev pub option_eq : Eq (Option A)
  option_eq = record { beq = option_beq; beq_sound = option_beq_sound; beq_refl = option_beq_refl }

  pub ==→≡ : (a b : A) → (a == b) ≡ true → a ≡ b
  ==→≡ a b h = e.beq_sound a b h

  pub ==_self : (a : A) → (a == a) ≡ true
  ==_self a = e.beq_refl a

  pub ≡→== : (a b : A) → a ≡ b → (a == b) ≡ true
  ≡→== a b h = rw h (e.beq_refl b)

module _ {ℓ κ} {A : Type ℓ} {B : Type κ} ⦃e : Eq A⦄ ⦃f : Eq B⦄ where
  unfoldable pub pair_beq : A × B → A × B → Bool
  pair_beq (a, b) (c, d) = e.beq a c && f.beq b d

  pub pair_beq_sound : (p q : A × B) → pair_beq p q ≡ true → p ≡ q
  unfolding pair_beq
  pair_beq_sound (a, b) (c, d) h = ground (arith, e.beq_sound a c, f.beq_sound b d)

  pub pair_beq_refl : (p : A × B) → pair_beq p p ≡ true
  unfolding pair_beq
  pair_beq_refl (a, b) = rw (e.beq_refl a, f.beq_refl b) refl

  instance abbrev pub pair_eq : Eq (A × B)
  pair_eq = record { beq = pair_beq; beq_sound = pair_beq_sound; beq_refl = pair_beq_refl }
